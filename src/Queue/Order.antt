-- ===== src/Queue/Order.antt =====
-- include/thread_safe_queue.hpp: the order in which entries leave the queue.
-- The specification is one FIFO list for each priority, `band`.
use wirewolf.Base.{
  ℕ, ◌+◌, ◌≤◌, ◌<◌, ◌≡◌, ◌≢◌, refl, List, [], ◌∷◌, ◌++◌, All, Bool-cases, inl, inr, ltb, ltb→lt,
  ltb→ge, arith, ◌==◌, if◌then◌else◌, length,
}
use wirewolf.Queue.{Entry, ThreadSafeQueue, Popped, emplace, erase_lowest, pop_from, pop}

module _ {T : Type 0} where
  -- The map's keys fall along its iteration order.
  abbrev pub IsSorted : List (Entry T) → Type 0
  IsSorted [] = Unit {0}
  IsSorted (e ∷ es) = All (λ (f : Entry T). f.priority ≤ e.priority) es × IsSorted es

  abbrev pub AtMost : ℕ → List (Entry T) → Type 0
  AtMost n es = All (λ (f : Entry T). f.priority ≤ n) es

  -- The items of one priority, oldest first.
  abbrev pub band : ℕ → List (Entry T) → List T
  band k [] = []
  band k (e ∷ es) = if e.priority == k then e.item ∷ band k es else band k es

  AtMost-mono : (m n : ℕ) (es : List (Entry T)) → m ≤ n → AtMost m es → AtMost n es
  AtMost-mono m n [] h a = tt
  AtMost-mono m n (e ∷ es) h a = (omega arith, AtMost-mono m n es h a.1)

  AtMost-emplace :
      (n p : ℕ) (x : T) (es : List (Entry T)) → p ≤ n → AtMost n es → AtMost n (emplace p x es)
  unfolding emplace
  AtMost-emplace n p x [] h a = (h, tt)
  AtMost-emplace n p x (e ∷ es) h a = elim (Bool-cases (ltb e.priority p)) [
    | inl lt ↦ rw lt (h, a)
    | inr ge ↦ rw ge (a.0, AtMost-emplace n p x es h a.1)
  ]

  pub emplace-IsSorted :
      (p : ℕ) (x : T) (es : List (Entry T)) → IsSorted es → IsSorted (emplace p x es)
  unfolding emplace
  emplace-IsSorted p x [] s = (tt, tt)
  emplace-IsSorted p x (e ∷ es) s = elim (Bool-cases (ltb e.priority p)) [
    | inl lt ↦
        let below : e.priority ≤ p = omega (arith, ltb→lt e.priority p lt) in
        rw lt ((below, AtMost-mono e.priority p es below s.0), s)
    | inr ge ↦
        rw ge (
          AtMost-emplace e.priority p x es (ltb→ge e.priority p ge) s.0,
          emplace-IsSorted p x es s.1,
        )
  ]

  band_above : (n k : ℕ) (es : List (Entry T)) → AtMost n es → n < k → band k es ≡ []
  band_above n k [] a h = refl
  band_above n k (e ∷ es) a h = ground (arith, band_above n k es a.1)

  -- An insertion appends to its own band, and leaves the others.
  pub band-emplace :
      (k p : ℕ) (x : T) (es : List (Entry T))
      → IsSorted es
      → band k (emplace p x es) ≡ (if p == k then band k es ++ x ∷ [] else band k es)
  unfolding emplace
  band-emplace k p x [] s = ground arith
  band-emplace k p x (e ∷ es) s =
      ground (arith, band-emplace k p x es s.1, band_above e.priority k es s.0)

  AtMost-erase :
      (n : ℕ) (e : Entry T) (es : List (Entry T)) → AtMost n (e ∷ es) → AtMost n (erase_lowest e es)
  unfolding erase_lowest
  AtMost-erase n e [] a = tt
  AtMost-erase n e (f ∷ es) a = (a.0, AtMost-erase n f es a.1)

  pub erase_lowest-IsSorted :
      (e : Entry T) (es : List (Entry T)) → IsSorted (e ∷ es) → IsSorted (erase_lowest e es)
  unfolding erase_lowest
  erase_lowest-IsSorted e [] s = tt
  erase_lowest-IsSorted e (f ∷ es) s =
      (AtMost-erase e.priority f es s.0, erase_lowest-IsSorted f es s.1)

  pub length-emplace :
      (p : ℕ) (x : T) (es : List (Entry T)) → length (emplace p x es) ≡ length es + 1
  unfolding emplace
  length-emplace p x [] = omega arith
  length-emplace p x (e ∷ es) = ground (arith, length-emplace p x es)

  pub length-erase_lowest :
      (e : Entry T) (es : List (Entry T)) → length (erase_lowest e es) ≡ length es
  unfolding erase_lowest
  length-erase_lowest e [] = refl
  length-erase_lowest e (f ∷ es) = omega (arith, length-erase_lowest f es)

  -- What `pop` takes is the oldest entry of the highest priority in use, and the other bands stay.
  abbrev pub Serves : ThreadSafeQueue T → T → ThreadSafeQueue T → Type 0
  Serves s x t =
      (k : ℕ) × (band k s.q ≡ x ∷ band k t.q)
      × ((j : ℕ) → k < j → band j s.q ≡ [])
      × ((j : ℕ) → j ≢ k → band j s.q ≡ band j t.q)
      × (length s.q ≡ length t.q + 1)

  pop_from-Serves :
      (es : List (Entry T)) (s : ThreadSafeQueue T) {x : T} {t : ThreadSafeQueue T}
      → IsSorted es
      → pop_from es s ≡ Popped.item x t
      → Serves (record s { q = es }) x t
  unfolding pop_from
  pop_from-Serves [] s o h = ground arith
  pop_from-Serves (e ∷ es) s {x} {t} o h = (
    e.priority,
    ground arith,
    λ j lt. ground (arith, band_above e.priority j es o.0),
    λ j ne. ground arith,
    ground arith,
  )

  -- On a queue in order, an item that `pop` returns is the oldest one of the highest priority that
  -- the queue holds: it heads that priority's list, every higher list is empty, the lists of the
  -- other priorities are unchanged, and one entry has gone.
  pub pop-Serves :
      (s : ThreadSafeQueue T) {x : T} {t : ThreadSafeQueue T}
      → IsSorted s.q
      → pop s ≡ Popped.item x t
      → Serves s x t
  unfolding pop
  pop-Serves s o h = pop_from-Serves s.q s o h
