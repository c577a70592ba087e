-- ===== src/Queue/Drain.antt =====
-- include/thread_safe_queue.hpp: a consumer that pops until the queue is closed.
use wirewolf.Base.{
  ℕ, zero, suc, ◌<◌, ◌≡◌, refl, ap, Bool, true, false, List, [], ◌∷◌, map, length, arith,
}
use wirewolf.Queue.{Entry, ThreadSafeQueue, Popped, pop, pop_from, finish}

none_left : (k : ℕ) → k < 0 → ⊥
none_left k h = ground (arith, h)

module _ {T : Type 0} where
  -- What the consumer gets, and whether it saw the queue closed.
  unfoldable pub then_drain : Popped T → (ThreadSafeQueue T → List T × Bool) → List T × Bool
  then_drain (Popped.item x t) rest = (x ∷ (rest t).0, (rest t).1)
  then_drain Popped.closed rest = ([], true)
  then_drain Popped.waits rest = ([], false)

  unfoldable pub drain : ℕ → ThreadSafeQueue T → List T × Bool
  drain zero s = ([], false)
  drain (suc n) s = then_drain (pop s) (drain n)

  drain_from :
      (n : ℕ) (es : List (Entry T)) (s : ThreadSafeQueue T)
      → length es < n
      → drain n (record s { q = es; done = true }) ≡ (map (λ (e : Entry T). e.item) es, true)
  unfolding drain then_drain pop pop_from
  drain_from zero es s h = elim (none_left _ h) [ ]
  drain_from (suc n) [] s h = refl
  drain_from (suc n) (e ∷ es) s h =
      ap (λ (d : List T × Bool). (e.item ∷ d.0, d.1)) (drain_from n es s (omega arith))

  -- Once the queue is finished, a consumer that keeps popping never waits: it gets every queued item, in
  -- the order of service, and then sees the queue closed, after one call more than there are items.
  pub drain-finish :
      (n : ℕ) (s : ThreadSafeQueue T)
      → length s.q < n
      → drain n (finish s) ≡ (map (λ (e : Entry T). e.item) s.q, true)
  unfolding finish
  drain-finish n s h = drain_from n s.q s h
