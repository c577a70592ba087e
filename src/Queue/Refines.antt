-- ===== src/Queue/Refines.antt =====
-- include/thread_safe_queue.hpp: the queue as its clients see it, one first-in-first-out list for each
-- priority, and that any sequence of calls keeps to it while there is room.
use wirewolf.Base.{
  ℕ, suc, ◌+◌, ◌≤◌, ◌<◌, ◌≡◌, ◌≢◌, ◌⊎◌, subst, ap, refl, sym, false, List, [], ◌∷◌, ◌++◌, Option,
  none, some, length, leb, ◌==◌, if◌then◌else◌, if-ind, inl, inr, arith,
}
use wirewolf.Queue.{Entry, ThreadSafeQueue, Pushed, Popped, emplace, push, pop, pop_from}
use wirewolf.Queue.Order.{
  IsSorted, band, emplace-IsSorted, band-emplace, length-emplace, pop-Serves,
}

pub data Call (T : Type 0) : Type 0 where
  put : ℕ → T → Call T
  take : Call T

module _ {T : Type 0} where
  -- The queue behind a call that does not return is the one before it.
  unfoldable pub after_push : ThreadSafeQueue T → Pushed T → ThreadSafeQueue T
  after_push s (Pushed.returns t) = t
  after_push s _ = s

  unfoldable pub after_pop : ThreadSafeQueue T → Popped T → ThreadSafeQueue T × Option T
  after_pop s (Popped.item x t) = (t, some x)
  after_pop s _ = (s, none)

  unfoldable pub run_call : Call T → ThreadSafeQueue T → ThreadSafeQueue T × Option T
  run_call (Call.put p x) s = (after_push s (push x p s), none)
  run_call Call.take s = after_pop s (pop s)

  -- The specification of one call, on the lists before and after it and its answer.
  unfoldable pub Spec : Call T → (ℕ → List T) → (ℕ → List T) → Option T → Type 0
  Spec (Call.put p x) before after answer =
      (answer ≡ none) × ((k : ℕ) → after k ≡ (if p == k then before k ++ x ∷ [] else before k))
  Spec Call.take before after none = ((k : ℕ) → before k ≡ []) × ((k : ℕ) → after k ≡ before k)
  Spec Call.take before after (some x) =
      (k : ℕ) × (before k ≡ x ∷ after k)
      × ((j : ℕ) → k < j → before j ≡ [])
      × ((j : ℕ) → j ≢ k → before j ≡ after j)

  abbrev pub bands : ThreadSafeQueue T → ℕ → List T
  bands s k = band k s.q

  -- Each call of the sequence keeps to the specification.
  unfoldable pub Refines : List (Call T) → ThreadSafeQueue T → Type 0
  Refines [] s = Unit
  Refines (c ∷ cs) s =
      let next = run_call c s in Spec c (bands s) (bands next.0) next.1 × Refines cs next.0

  -- What the proof keeps of the queue.
  record IsReady (n : ℕ) (s : ThreadSafeQueue T) : Type 0 where
    in_order : IsSorted s.q
    has_room : length s.q + n ≤ s.max_capacity

  push-room :
      (p : ℕ) (x : T) (s : ThreadSafeQueue T)
      → leb s.max_capacity (length s.q) ≡ false
      → push x p s ≡ Pushed.returns (record s { q = emplace p x s.q })
  unfolding push
  push-room p x s room = rw room refl

  push-Refines :
      (n p : ℕ) (x : T) (s : ThreadSafeQueue T)
      → IsReady (suc n) s
      → Spec (Call.put p x) (bands s) (bands (after_push s (push x p s))) none
        × IsReady n (after_push s (push x p s))
  unfolding after_push Spec
  push-Refines n p x s h =
      let room = h.has_room in
      rw (push-room p x s (ground (arith, room))) (
        (refl, λ k. band-emplace k p x s.q h.in_order),
        record {
          in_order = emplace-IsSorted p x s.q h.in_order;
          has_room = omega (arith, h.has_room, length-emplace p x s.q);
        },
      )

  pop_from-cases :
      (es : List (Entry T)) (s : ThreadSafeQueue T)
      → ((es ≡ []) × (after_pop s (pop_from es s) ≡ (s, none)))
        ⊎ ((e : Entry T) × (rest : List (Entry T)) × (es ≡ e ∷ rest)
            × (pop_from es s ≡ Popped.item e.item (record s { q = rest })))
  unfolding pop_from after_pop
  pop_from-cases [] s =
      inl (refl, if-ind (λ o. after_pop s o ≡ (s, none)) s.done (λ _. refl) λ _. refl)
  pop_from-cases (e ∷ es) s = inr (e, es, refl, refl)

  pop-Refines :
      (n : ℕ) (s : ThreadSafeQueue T)
      → IsReady (suc n) s
      → Spec Call.take (bands s) (bands (after_pop s (pop s)).0) (after_pop s (pop s)).1
        × IsReady n (after_pop s (pop s)).0
  unfolding pop Spec after_pop
  pop-Refines n s h = elim (pop_from-cases s.q s) [
    | inl (empty, none_left) ↦
        subst
          (λ (v : ThreadSafeQueue T × Option T).
            Spec Call.take (bands s) (bands v.0) v.1 × IsReady n v.0)
          (sym none_left)
          (
            (λ k. ap (band k) empty, λ k. refl),
            record { in_order = h.in_order; has_room = omega (arith, h.has_room) },
          )
    | inr (e, rest, split, popped) ↦
        let (k, heads, above, others, fewer) = pop-Serves s h.in_order popped in
        rw popped (
          (k, heads, above, others),
          record {
            in_order = (subst IsSorted split h.in_order).1;
            has_room = omega (arith, h.has_room, fewer);
          },
        )
  ]

  from :
      (calls : List (Call T)) (s : ThreadSafeQueue T) → IsReady (length calls) s → Refines calls s
  unfolding Refines run_call
  from [] s h = tt
  from (Call.put p x ∷ cs) s h =
      let (spec, ready) = push-Refines (length cs) p x s h in (spec, from cs _ ready)
  from (Call.take ∷ cs) s h =
      let (spec, ready) = pop-Refines (length cs) s h in (spec, from cs _ ready)

  -- Any sequence of calls on a queue in order with room for all of them does what the first-in-first-out
  -- lists say: a push appends its item to the list of its priority, and a pop takes the head of the
  -- highest list that is not empty, or finds all of them empty.
  pub run_call-Refines :
      (calls : List (Call T)) (s : ThreadSafeQueue T)
      → IsSorted s.q
      → length s.q + length calls ≤ s.max_capacity
      → Refines calls s
  run_call-Refines calls s o room = from calls s (record { in_order = o; has_room = room })
