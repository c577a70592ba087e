-- ===== src/Queue/Drops.antt =====
-- include/thread_safe_queue.hpp: what a full queue gives up in live mode.
use mathlib.Core.List.Perm
use wirewolf.Base.{
  ℕ, ◌+◌, ◌≤◌, ◌<◌, ◌≡◌, ap, inl, inr, refl, false, List, [], ◌∷◌, Perm, All, All-imp, Bool-cases,
  length, ltb, ltb→lt, ltb→ge, arith,
}
use wirewolf.Queue.Order.{IsSorted, AtMost, length-emplace, length-erase_lowest}
use wirewolf.Queue.{Entry, ThreadSafeQueue, Pushed, emplace, lowest, erase_lowest, emergency, push}

module _ {T : Type 0} where
  abbrev pub entry : ℕ → T → Entry T
  entry p x = record { priority = p; item = x }

  abbrev pub AtLeast : ℕ → List (Entry T) → Type 0
  AtLeast n es = All (λ (f : Entry T). n ≤ f.priority) es

  pub emplace-perm : (p : ℕ) (x : T) (es : List (Entry T)) → Perm (emplace p x es) (entry p x ∷ es)
  unfolding emplace
  emplace-perm p x [] = Perm.refl _
  emplace-perm p x (e ∷ es) = elim (Bool-cases (ltb e.priority p)) [
    | inl lt ↦ rw lt (Perm.refl _)
    | inr ge ↦ rw ge (Perm.trans (Perm.cons e (emplace-perm p x es)) (Perm.swap (entry p x) e es))
  ]

  pub erase_lowest-perm :
      (e : Entry T) (es : List (Entry T)) → Perm (e ∷ es) (lowest e es ∷ erase_lowest e es)
  unfolding lowest erase_lowest
  erase_lowest-perm e [] = Perm.refl _
  erase_lowest-perm e (f ∷ es) =
      Perm.trans (Perm.cons e (erase_lowest-perm f es)) (Perm.swap (lowest f es) e _)

  lowest-le :
      (n : ℕ) (e : Entry T) (es : List (Entry T)) → AtMost n (e ∷ es) → (lowest e es).priority ≤ n
  unfolding lowest
  lowest-le n e [] a = a.0
  lowest-le n e (f ∷ es) a = lowest-le n f es a.1

  -- On a queue in order, the last entry has the lowest priority.
  lowest-AtLeast :
      (e : Entry T) (es : List (Entry T))
      → IsSorted (e ∷ es)
      → AtLeast (lowest e es).priority (e ∷ es)
  unfolding lowest
  lowest-AtLeast e [] s = (omega arith, tt)
  lowest-AtLeast e (f ∷ es) s = (lowest-le e.priority f es s.0, lowest-AtLeast f es s.1)

  AtLeast-erase :
      (n : ℕ) (e : Entry T) (es : List (Entry T))
      → AtLeast n (e ∷ es)
      → AtLeast n (erase_lowest e es)
  unfolding erase_lowest
  AtLeast-erase n e [] a = tt
  AtLeast-erase n e (f ∷ es) a = (a.0, AtLeast-erase n f es a.1)

  AtLeast-emplace :
      (n p : ℕ) (x : T) (es : List (Entry T)) → n ≤ p → AtLeast n es → AtLeast n (emplace p x es)
  unfolding emplace
  AtLeast-emplace n p x [] h a = (h, tt)
  AtLeast-emplace n p x (e ∷ es) h a = elim (Bool-cases (ltb e.priority p)) [
    | inl lt ↦ rw lt (h, a)
    | inr ge ↦ rw ge (a.0, AtLeast-emplace n p x es h a.1)
  ]

  -- `after` is `before` with `newcomer`, less one entry that no entry left ranks below.
  abbrev pub WeakestGone : List (Entry T) → Entry T → List (Entry T) → Type 0
  WeakestGone before newcomer after =
      (d : Entry T) × Perm (newcomer ∷ before) (d ∷ after)
      × AtLeast d.priority after
      × (d.priority ≤ newcomer.priority)
      × (length after ≡ length before)

  evict-WeakestGone :
      (e : Entry T) (es : List (Entry T)) (p : ℕ) (x : T)
      → IsSorted (e ∷ es)
      → (lowest e es).priority ≤ p
      → WeakestGone (e ∷ es) (entry p x) (emplace p x (erase_lowest e es))
  evict-WeakestGone e es p x o above = (
    lowest e es,
    Perm.trans (Perm.cons (entry p x) (erase_lowest-perm e es)) (
        Perm.trans (Perm.swap (lowest e es) (entry p x) (erase_lowest e es))
          (Perm.cons (lowest e es) (Perm.symm (emplace-perm p x (erase_lowest e es))))),
    AtLeast-emplace _ p x (erase_lowest e es) above (AtLeast-erase _ e es (lowest-AtLeast e es o)),
    above,
    omega (arith, length-emplace p x (erase_lowest e es), length-erase_lowest e es),
  )

  refuse-WeakestGone :
      (e : Entry T) (es : List (Entry T)) (p : ℕ) (x : T)
      → IsSorted (e ∷ es)
      → p ≤ (lowest e es).priority
      → WeakestGone (e ∷ es) (entry p x) (e ∷ es)
  refuse-WeakestGone e es p x o below = (
    entry p x,
    Perm.refl _,
    All-imp (λ (f : Entry T). (lowest e es).priority ≤ f.priority) (λ (f : Entry T). p ≤ f.priority)
        (e ∷ es) (λ f k. omega arith) (lowest-AtLeast e es o),
    omega arith,
    refl,
  )

  abbrev pub dropped : ThreadSafeQueue T → List (Entry T) → ThreadSafeQueue T
  dropped s l = record s { q = l; dropped_count = s.dropped_count + 1 }

  emergency-WeakestGone :
      (es : List (Entry T)) (x : T) (p : ℕ) (s : ThreadSafeQueue T)
      → s.q ≡ es
      → IsSorted es
      → 0 < length es
      → (l : List (Entry T)) × (emergency es x p s ≡ Pushed.returns (dropped s l))
        × WeakestGone es (entry p x) l
  unfolding emergency
  emergency-WeakestGone [] x p s q o h = absurd (omega arith)
  emergency-WeakestGone (e ∷ es) x p s q o h = elim (Bool-cases (ltb (lowest e es).priority p)) [
    | inl lt ↦ (
      emplace p x (erase_lowest e es),
      rw lt,
      evict-WeakestGone e es p x o (omega (arith, ltb→lt (lowest e es).priority p lt)),
    )
    | inr ge ↦ (
      e ∷ es,
      rw ge (ap (λ l. Pushed.returns (dropped s l)) q),
      refuse-WeakestGone e es p x o (ltb→ge (lowest e es).priority p ge),
    )
  ]

  push_live :
      (x : T) (p : ℕ) (s : ThreadSafeQueue T)
      → s.blocking ≡ false
      → s.max_capacity ≤ length s.q
      → push x p s ≡ emergency s.q x p s
  unfolding push
  push_live x p s live full = ground arith

  -- In live mode a push into a queue that is in order, full and not empty returns, and drops
  -- exactly one entry, the newcomer or a queued one: no entry that stays has a lower priority than
  -- it, nor has the newcomer; the others are all in the queue, its length is unchanged, the drop is
  -- counted, and the other fields stay.
  pub push-WeakestGone :
      (s : ThreadSafeQueue T) (x : T) (p : ℕ)
      → IsSorted s.q
      → s.blocking ≡ false
      → s.max_capacity ≤ length s.q
      → 0 < length s.q
      → (l : List (Entry T)) × (push x p s ≡ Pushed.returns (dropped s l))
        × WeakestGone s.q (entry p x) l
  push-WeakestGone s x p o live full some_entry =
      rw (push_live x p s live full) (emergency-WeakestGone s.q x p s refl o some_entry)
