-- ===== src/Reassembly/Capacity.antt =====
-- src/tcp_reassembly.cpp: what the connection table promises under load.
use wirewolf.Base.{
  ◌+◌, ◌≤◌, ◌≡◌, refl, sym, ap, ◌∙◌, false, Option, none, some, length, leb, leb→le, leb→gt, ◌<◌,
  ◌⊎◌, ==_refl, subst, if-ind, Option-cases, inl, inr, arith,
}
use wirewolf.Base.Doubles.{Doubles}
use wirewolf.Packet.{ConnectionId}
use wirewolf.Reassembly.Connection.{ConnectionState, receive, fresh}
use wirewolf.Reassembly.Header.{TcpPacket}
use wirewolf.Reassembly.Table.{
  Table, same_id, find, add_new, entry_for, shed, update_or_shed, located, force_evict_oldest,
  room_after, make_room, update, track, max_connections, id_of,
}
use wirewolf.Reassembly.Eviction.{
  length-store, find-store_same, find-store_other, length-force_evict_oldest, IsKept, Keeps,
  force_evict_oldest-Keeps,
}

module _ (r : Doubles) where
  open r use {Double, of_ℕ, sub, lt}

  -- What `make_room` gives: a full table, or one with a place and the new entry in it.
  abbrev IsRoom : Double → ConnectionId → Table Double → Option (Table Double) → Type 0
  IsRoom now cid t none = max_connections ≤ length (force_evict_oldest r now t).connections
  IsRoom now cid t (some t') =
      (b : Table Double) × (t' ≡ add_new r cid b)
      × (length b.connections < max_connections)
      × Keeps r now t b

  room_after-IsRoom :
      (now : Double) (cid : ConnectionId) (t : Table Double)
      → max_connections ≤ length t.connections
      → IsRoom now cid t (room_after r cid (force_evict_oldest r now t))
  unfolding room_after
  room_after-IsRoom now cid t full =
      let b = force_evict_oldest r now t in
      if-ind (IsRoom now cid t) (leb max_connections (length b.connections))
        (λ still. leb→le _ _ still)
        (λ free. (b, refl, leb→gt _ _ free, force_evict_oldest-Keeps r now t full))

  make_room-IsRoom :
      (now : Double) (cid : ConnectionId) (t : Table Double)
      → IsRoom now cid t (make_room r now cid t)
  unfolding make_room
  make_room-IsRoom now cid t =
      if-ind (IsRoom now cid t) (leb max_connections (length t.connections))
        (λ full. room_after-IsRoom now cid t (leb→le _ _ full))
        (λ free. (t, refl, leb→gt _ _ free, λ jp s h. inl h))

  -- The connection after the packet has what `receive` makes of it, or, if it is new, the table is
  -- full even after the eviction and the packet is counted as shed.
  abbrev pub Serves : Double → TcpPacket → Table Double → Table Double → Type 0
  Serves now p t t' =
      (find (id_of p) t'.connections
        ≡ some (receive r now p (entry_for r (find (id_of p) t.connections))).state)
      ⊎ ((find (id_of p) t.connections ≡ none)
          × (max_connections ≤ length t'.connections)
          × (t'.shed_count ≡ t.shed_count + 1))

  find-add_new_same :
      (cid : ConnectionId) (b : Table Double)
      → find cid (add_new r cid b).connections ≡ some (fresh r)
  unfolding find same_id
  find-add_new_same cid b =
      rw (==_refl cid.src_ip, ==_refl cid.dst_ip, ==_refl cid.src_port, ==_refl cid.dst_port)

  shed_count-force_evict_oldest :
      (now : Double) (t : Table Double) → (force_evict_oldest r now t).shed_count ≡ t.shed_count
  unfolding force_evict_oldest
  shed_count-force_evict_oldest now t =
      if-ind (λ (t' : Table Double). t'.shed_count ≡ t.shed_count)
        (lt (sub now t.last_force_evict_time) (of_ℕ 1)) (λ soon. refl) (λ due. refl)

  -- The three ways of a packet.
  abbrev Tracked : Double → TcpPacket → Table Double → Table Double → Type 0
  Tracked now p t t' =
      ((s : ConnectionState Double) × (find (id_of p) t.connections ≡ some s)
        × (t' ≡ (update r now p t).0))
      ⊎ ((find (id_of p) t.connections ≡ none)
          × (((b : Table Double) × (t' ≡ (update r now p (add_new r (id_of p) b)).0)
                × (length b.connections < max_connections)
                × Keeps r now t b)
              ⊎ ((max_connections ≤ length (force_evict_oldest r now t).connections)
                  × (t' ≡ shed r now t))))

  track-Tracked :
      (now : Double) (p : TcpPacket) (t : Table Double) → Tracked now p t (track r now p t).0
  unfolding track
  track-Tracked now p t = elim (Option-cases (find (id_of p) t.connections)) [
    | inr (s, known) ↦
        inl (s, known, ap (λ o. (update_or_shed r now p t (located r now p t o)).0) known)
    | inl unknown ↦
        let start : (track r now p t).0
            ≡ (update_or_shed r now p t (make_room r now (id_of p) t)).0 =
          ap (λ o. (update_or_shed r now p t (located r now p t o)).0) unknown in
        inr (
          unknown,
          elim (Option-cases (make_room r now (id_of p) t)) [
            | inl full ↦ inr (
              subst (IsRoom now (id_of p) t) full (make_room-IsRoom now (id_of p) t),
              start ∙ ap (λ o. (update_or_shed r now p t o).0) full,
            )
            | inr (t1, made) ↦
                let (b, is_b, free, keeps) =
                  subst (IsRoom now (id_of p) t) made (make_room-IsRoom now (id_of p) t) in
                inl (
                  b,
                  start ∙ ap (λ o. (update_or_shed r now p t o).0) (made ∙ ap some is_b),
                  free,
                  keeps,
                )
          ],
        )
  ]

  find-update :
      (now : Double) (p : TcpPacket) (t : Table Double) (s : ConnectionState Double)
      → find (id_of p) t.connections ≡ some s
      → find (id_of p) (update r now p t).0.connections ≡ some (receive r now p s).state
  unfolding update
  find-update now p t s h =
      find-store_same (id_of p) s _ t.connections h
      ∙ ap (λ o. some (receive r now p (entry_for r o)).state) h

  -- A packet's connection behaves as `receive` says from its state before (a fresh one, if it had
  -- none), or the packet is shed: then its connection was unknown, the table is full after the
  -- eviction, and the count of shed packets goes up by one.
  pub track-Serves :
      (now : Double) (p : TcpPacket) (t : Table Double) → Serves now p t (track r now p t).0
  track-Serves now p t = elim (track-Tracked now p t) [
    | inl (s, known, is) ↦ inl (
        ap (λ (t' : Table Double). find (id_of p) t'.connections) is
        ∙ find-update now p t s known
        ∙ ap (λ o. some (receive r now p (entry_for r o)).state) (sym known))
    | inr (unknown, inl (b, is, free, keeps)) ↦ inl (
        ap (λ (t' : Table Double). find (id_of p) t'.connections) is
        ∙ find-update now p (add_new r (id_of p) b) (fresh r) (find-add_new_same (id_of p) b)
        ∙ ap (λ o. some (receive r now p (entry_for r o)).state) (sym unknown))
    | inr (unknown, inr (full, is)) ↦
        inr (unknown, rw is full, rw is (ap (λ n. n + 1) (shed_count-force_evict_oldest now t)))
  ]

  -- The table never holds more than `MAX_CONNECTIONS` entries, if it did not before the packet.
  pub track-bounded :
      (now : Double) (p : TcpPacket) (t : Table Double)
      → length t.connections ≤ max_connections
      → length (track r now p t).0.connections ≤ max_connections
  unfolding update
  track-bounded now p t h = elim (track-Tracked now p t) [
    | inl (s, known, is) ↦ rw (is, length-store) h
    | inr (unknown, inl (b, is, free, keeps)) ↦ rw (is, length-store) (omega (arith, free))
    | inr (unknown, inr (full, is)) ↦ rw is (omega (arith, h, length-force_evict_oldest r now t))
  ]

  -- A packet leaves every other connection as it is, unless the table is full: then a connection
  -- whose reassembled payload is empty and which was silent for more than five seconds may be gone,
  -- also if it holds segments out of order, and no other connection is.
  pub track-Keeps :
      (now : Double) (p : TcpPacket) (t : Table Double) (cid : ConnectionId)
      (s : ConnectionState Double)
      → same_id (id_of p) cid ≡ false
      → find cid t.connections ≡ some s
      → IsKept r now cid s t (track r now p t).0
  unfolding update find
  track-Keeps now p t cid s other h = elim (track-Tracked now p t) [
    | inl (s', known, is) ↦ inl (rw is (find-store_other (id_of p) cid _ t.connections other ∙ h))
    | inr (unknown, inl (b, is, free, keeps)) ↦ elim (keeps cid s h) [
      | inl kept ↦ inl (
          rw is (
            find-store_other (id_of p) cid _ (add_new r (id_of p) b).connections other
            ∙ (rw other kept)))
      | inr gone ↦ inr gone
    ]
    | inr (unknown, inr (full, is)) ↦
        elim (force_evict_oldest-Keeps r now t
          (omega (arith, full, length-force_evict_oldest r now t)) cid s h) [
            | inl kept ↦ inl (rw is kept)
            | inr gone ↦ inr gone
          ]
  ]
