-- ===== src/Behavioral/Store/Sorting.antt =====
-- src/behavioral_model.cpp, `serialize`: walking a map in the order of its keys changes no lookup.
use wirewolf.Base.{
  ℕ, ◌≡◌, refl, ap, ◌∙◌, false, List, [], ◌∷◌, ◌++◌, length, ltb, ◌==◌, All, All-append,
  if◌then◌else◌, if-ind, suc, arith,
}
use wirewolf.Base.Maps.{find_or}
use wirewolf.Behavioral.Store.{rank, insert_key, by_key}
use wirewolf.Behavioral.Store.Filling.{IsNew, IsFresh}

module _ {A : Type 0} where
  -- Every key stands once.
  abbrev pub HasOnceKeys : List (ℕ × A) → Type 0
  HasOnceKeys [] = Unit
  HasOnceKeys ((k, a) ∷ rest) = IsNew k rest × HasOnceKeys rest

  All-insert_key :
      (P : ℕ × A → Type 0) (k : ℕ) (a : A) (m : List (ℕ × A))
      → P (k, a)
      → All P m
      → All P (insert_key k a m)
  unfolding insert_key
  All-insert_key P k a [] p h = (p, tt)
  All-insert_key P k a ((j, b) ∷ m) p h =
      if-ind (All P) (ltb (rank j) (rank k)) (λ _. (h.0, All-insert_key P k a m p h.1)) λ _. (p, h)

  pub All-by_key : (P : ℕ × A → Type 0) (m : List (ℕ × A)) → All P m → All P (by_key m)
  unfolding by_key
  All-by_key P [] h = tt
  All-by_key P ((k, a) ∷ m) h = All-insert_key P k a (by_key m) h.0 (All-by_key P m h.1)

  insert_key-HasOnceKeys :
      (k : ℕ) (a : A) (m : List (ℕ × A))
      → IsNew k m
      → HasOnceKeys m
      → HasOnceKeys (insert_key k a m)
  unfolding insert_key
  insert_key-HasOnceKeys k a [] new h = (tt, tt)
  insert_key-HasOnceKeys k a ((j, b) ∷ m) new h =
      if-ind HasOnceKeys (ltb (rank j) (rank k))
        (λ _. (
          All-insert_key (λ e. (e.0 == j) ≡ false) k a m (ground (arith, new.0)) h.0,
          insert_key-HasOnceKeys k a m new.1 h.1,
        ))
        λ _. (new, h)

  pub by_key-HasOnceKeys : (m : List (ℕ × A)) → HasOnceKeys m → HasOnceKeys (by_key m)
  unfolding by_key
  by_key-HasOnceKeys [] h = tt
  by_key-HasOnceKeys ((k, a) ∷ m) h =
      insert_key-HasOnceKeys k a (by_key m) (All-by_key (λ e. (e.0 == k) ≡ false) m h.0)
        (by_key-HasOnceKeys m h.1)

  find_or-insert_key :
      (d : A) (i k : ℕ) (a : A) (m : List (ℕ × A))
      → IsNew k m
      → find_or d i (insert_key k a m) ≡ (if k == i then a else find_or d i m)
  unfolding find_or insert_key
  find_or-insert_key d i k a [] new = refl
  find_or-insert_key d i k a ((j, b) ∷ m) new =
      ground (arith, find_or-insert_key d i k a m new.1, new.0)

  pub find_or-by_key :
      (d : A) (i : ℕ) (m : List (ℕ × A)) → HasOnceKeys m → find_or d i (by_key m) ≡ find_or d i m
  unfolding find_or by_key
  find_or-by_key d i [] h = refl
  find_or-by_key d i ((k, a) ∷ m) h =
      find_or-insert_key d i k a (by_key m) (All-by_key (λ e. (e.0 == k) ≡ false) m h.0)
      ∙ ap (λ b. if k == i then a else b) (find_or-by_key d i m h.1)

  length-insert_key :
      (k : ℕ) (a : A) (m : List (ℕ × A)) → length (insert_key k a m) ≡ suc (length m)
  unfolding insert_key
  length-insert_key k a [] = refl
  length-insert_key k a ((j, b) ∷ m) = ground (arith, length-insert_key k a m)

  pub length-by_key : (m : List (ℕ × A)) → length (by_key m) ≡ length m
  unfolding by_key
  length-by_key [] = refl
  length-by_key ((k, a) ∷ m) = length-insert_key k a (by_key m) ∙ ap suc (length-by_key m)

  All-both : (P Q : ℕ × A → Type 0) (m : List (ℕ × A)) → All P m → All Q m → All (λ e. P e × Q e) m
  All-both P Q [] p q = tt
  All-both P Q (e ∷ m) p q = ((p.0, q.0), All-both P Q m p.1 q.1)

  IsNew-behind :
      (seen rest : List (ℕ × A)) (k : ℕ) (a : A)
      → All (λ (e : ℕ × A). IsNew e.0 seen) rest
      → IsNew k rest
      → All (λ (e : ℕ × A). IsNew e.0 (seen ++ (k, a) ∷ [])) rest
  IsNew-behind seen [] k a h new = tt
  IsNew-behind seen ((j, b) ∷ rest) k a h new = (
    All-append (λ (e : ℕ × A). (e.0 == j) ≡ false) seen ((k, a) ∷ []) h.0
        (ground (arith, new.0), tt),
    IsNew-behind seen rest k a h.1 new.1,
  )

  fresh_behind :
      (seen rest : List (ℕ × A))
      → All (λ (e : ℕ × A). IsNew e.0 seen) rest
      → HasOnceKeys rest
      → IsFresh seen rest
  fresh_behind seen [] h once = tt
  fresh_behind seen ((k, a) ∷ rest) h once =
      (h.0, fresh_behind (seen ++ (k, a) ∷ []) rest (IsNew-behind seen rest k a h.1 once.0) once.1)

  All-IsNew : (m : List (ℕ × A)) → All (λ (e : ℕ × A). IsNew {A = A} e.0 []) m
  All-IsNew [] = tt
  All-IsNew (e ∷ m) = (tt, All-IsNew m)

  pub once-IsFresh : (m : List (ℕ × A)) → HasOnceKeys m → IsFresh [] m
  once-IsFresh m h = fresh_behind [] m (All-IsNew m) h
