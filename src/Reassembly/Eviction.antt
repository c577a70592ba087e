-- ===== src/Reassembly/Eviction.antt =====
-- src/tcp_reassembly.cpp, `force_evict_oldest`: what an eviction under pressure keeps.
use wirewolf.Base.{
  ◌≤◌, ◌≡◌, refl, Bool, true, false, ◌&&◌, List, [], ◌∷◌, Option, none, some, length, ◌⊎◌, subst,
  if-ind, Bool-cases, inl, inr, arith,
}
use wirewolf.Base.Doubles.{Doubles}
use wirewolf.Packet.{ConnectionId}
use wirewolf.Reassembly.Connection.{ConnectionState}
use wirewolf.Reassembly.Overlap.{is_empty}
use wirewolf.Reassembly.Table.{
  Table, Connections, same_id, find, store, drop_idle, force_evict_oldest, max_connections,
}

pub length-store :
    {A : Type 0} (cid : ConnectionId) (new : A) (xs : List (ConnectionId × A))
    → length (store cid new xs) ≡ length xs
unfolding store
length-store cid new [] = refl
length-store cid new ((key, state) ∷ rest) = ground (arith, length-store cid new rest)

same_id_iff_equal : (a b c : ConnectionId) → same_id a b ≡ true → same_id a c ≡ same_id b c
unfolding same_id
same_id_iff_equal a b c h = ground arith

pub find-store_same :
    {A : Type 0} (cid : ConnectionId) (old new : A) (xs : List (ConnectionId × A))
    → find cid xs ≡ some old
    → find cid (store cid new xs) ≡ some new
unfolding find store
find-store_same cid old new [] h = ground arith
find-store_same cid old new ((key, state) ∷ rest) h = elim (Bool-cases (same_id key cid)) [
  | inl same ↦ rw (same, same)
  | inr other ↦ rw (other, other) (find-store_same cid old new rest (rw other at h))
]

pub find-store_other :
    {A : Type 0} (cid other : ConnectionId) (new : A) (xs : List (ConnectionId × A))
    → same_id cid other ≡ false
    → find other (store cid new xs) ≡ find other xs
unfolding find store
find-store_other cid other new [] h = refl
find-store_other cid other new ((key, state) ∷ rest) h = elim (Bool-cases (same_id key cid)) [
  | inl same ↦ rw (same, same_id_iff_equal key cid other same, h)
  | inr differs ↦ rw (differs, find-store_other cid other new rest h)
]

module _ (r : Doubles) where
  open r use {Double, of_ℕ, sub, lt}

  length-drop_idle :
      (now : Double) (xs : Connections Double) → length (drop_idle r now xs) ≤ length xs
  unfolding drop_idle
  length-drop_idle now [] = omega arith
  length-drop_idle now ((key, state) ∷ rest) = ground (arith, length-drop_idle now rest)

  -- The connection is as it was, or it had no payload and was silent for more than five seconds.
  abbrev IsSpared : Double → ConnectionId → ConnectionState Double → Connections Double → Type 0
  IsSpared now cid s xs =
      (find cid xs ≡ some s)
      ⊎ ((is_empty s.payload && lt (of_ℕ 5) (sub now s.last_packet_time)) ≡ true)

  find-drop_idle :
      (now : Double) (cid : ConnectionId) (s : ConnectionState Double) (xs : Connections Double)
      → find cid xs ≡ some s
      → IsSpared now cid s (drop_idle r now xs)
  unfolding find drop_idle
  find-drop_idle now cid s [] h = ground arith
  find-drop_idle now cid s ((key, state) ∷ rest) h = elim (Bool-cases (same_id key cid)) [
    | inl same ↦
        let here : some state ≡ some s = rw same at h in
        if-ind (IsSpared now cid s)
          (is_empty state.payload && lt (of_ℕ 5) (sub now state.last_packet_time))
          (λ idle. inr (
            subst
              (λ (o : Option (ConnectionState Double)). elim o [
                | none ↦ Unit
                | some u ↦ (is_empty u.payload && lt (of_ℕ 5) (sub now u.last_packet_time)) ≡ true
              ])
              here idle))
          (λ busy. inl (rw same here))
    | inr other ↦
        let later = find-drop_idle now cid s rest (rw other at h) in
        if-ind (IsSpared now cid s)
          (is_empty state.payload && lt (of_ℕ 5) (sub now state.last_packet_time)) (λ idle. later)
          (λ busy. rw other later)
  ]

  find-force_evict_oldest :
      (now : Double) (cid : ConnectionId) (s : ConnectionState Double) (t : Table Double)
      → find cid t.connections ≡ some s
      → IsSpared now cid s (force_evict_oldest r now t).connections
  unfolding force_evict_oldest
  find-force_evict_oldest now cid s t h =
      if-ind (λ (t' : Table Double). IsSpared now cid s t'.connections)
        (lt (sub now t.last_force_evict_time) (of_ℕ 1)) (λ soon. inl h)
        (λ due. find-drop_idle now cid s t.connections h)

  pub length-force_evict_oldest :
      (now : Double) (t : Table Double)
      → length (force_evict_oldest r now t).connections ≤ length t.connections
  unfolding force_evict_oldest
  length-force_evict_oldest now t =
      if-ind (λ (t' : Table Double). length t'.connections ≤ length t.connections)
        (lt (sub now t.last_force_evict_time) (of_ℕ 1)) (λ soon. omega arith)
        (λ due. length-drop_idle now t.connections)

  -- The connection is as it was, or the table was full, and the connection had no payload and was
  -- silent for more than five seconds.
  abbrev pub IsKept :
      Double → ConnectionId → ConnectionState Double → Table Double → Table Double → Type 0
  IsKept now cid s t t' =
      (find cid t'.connections ≡ some s)
      ⊎ ((max_connections ≤ length t.connections)
          × (is_empty s.payload ≡ true)
          × (lt (of_ℕ 5) (sub now s.last_packet_time) ≡ true))

  abbrev pub Keeps : Double → Table Double → Table Double → Type 0
  Keeps now t t' =
      (cid : ConnectionId) (s : ConnectionState Double)
      → find cid t.connections ≡ some s
      → IsKept now cid s t t'

  pub force_evict_oldest-Keeps :
      (now : Double) (t : Table Double)
      → max_connections ≤ length t.connections
      → Keeps now t (force_evict_oldest r now t)
  force_evict_oldest-Keeps now t full cid s h = elim (find-force_evict_oldest now cid s t h) [
    | inl kept ↦ inl kept
    | inr idle ↦ inr (full, left _ _ idle, right _ _ idle)
  ]
    where
      left : (a b : Bool) → (a && b) ≡ true → a ≡ true
      left a b h = ground (arith, h)

      right : (a b : Bool) → (a && b) ≡ true → b ≡ true
      right a b h = ground (arith, h)
