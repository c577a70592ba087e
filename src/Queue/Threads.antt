-- ===== src/Queue/Threads.antt =====
-- include/thread_safe_queue.hpp with any number of threads. The mutex makes each stretch between
-- two waits one step; a pusher that sleeps may wake at any time, also for no reason.
use wirewolf.Base.{
  ℕ, ◌+◌, ◌≤◌, ◌<◌, ◌≡◌, refl, ap, subst, Bool, List, [], ◌∷◌, ◌++◌, length, length-append, arith,
}
use wirewolf.Queue.Order.{
  IsSorted, emplace-IsSorted, erase_lowest-IsSorted, length-emplace, length-erase_lowest,
}
use wirewolf.Queue.{
  Entry, ThreadSafeQueue, Pushed, Popped, new, emplace, erase_lowest, emergency, push, push_waiting,
  pop, pop_from, finish, set_blocking,
}

-- `pushers` sleep in `cv_push.wait`; `pushed` and `popped` record every call of `push` and every
-- item that `pop` returned.
pub record System (T : Type 0) : Type 0 where
  pub queue : ThreadSafeQueue T
  pub pushers : List (Entry T)
  pub pushed : List (Entry T)
  pub popped : List T

module _ {T : Type 0} where
  -- What producers and consumers do.
  pub data Step (s : System T) : System T → Type 0 where
    call_push :
        (e : Entry T) {t : ThreadSafeQueue T}
        → push e.item e.priority s.queue ≡ Pushed.returns t
        → Step s (record s { queue = t; pushed = e ∷ s.pushed })
    block_push :
        (e : Entry T)
        → push e.item e.priority s.queue ≡ Pushed.waits
        → Step s (record s { pushers = e ∷ s.pushers; pushed = e ∷ s.pushed })
    wake_push :
        (l r : List (Entry T)) (e : Entry T) {t : ThreadSafeQueue T}
        → s.pushers ≡ l ++ e ∷ r
        → push_waiting e.item e.priority s.queue ≡ Pushed.returns t
        → Step s (record s { queue = t; pushers = l ++ r })
    call_pop :
        (x : T) {t : ThreadSafeQueue T}
        → pop s.queue ≡ Popped.item x t
        → Step s (record s { queue = t; popped = x ∷ s.popped })

  -- What the controller does.
  pub data Control (s : System T) : System T → Type 0 where
    finishes : Control s (record s { queue = finish s.queue })
    switches : (b : Bool) → Control s (record s { queue = set_blocking b s.queue })

  pub data Reach (s : System T) : System T → Type 0 where
    here : Reach s s
    step : {t u : System T} → Reach s t → Step t u → Reach s u
    control : {t u : System T} → Reach s t → Control t u → Reach s u

  abbrev pub start : ℕ → System T
  start capacity = record { queue = new capacity; pushers = []; pushed = []; popped = [] }

  pub record QueueInv (s : ThreadSafeQueue T) : Type 0 where
    pub sorted : IsSorted s.q
    pub bounded : length s.q ≤ s.max_capacity

  emplace-QueueInv :
      (p : ℕ) (x : T) (s : ThreadSafeQueue T)
      → QueueInv s
      → length s.q < s.max_capacity
      → QueueInv (record s { q = emplace p x s.q })
  emplace-QueueInv p x s v room = record {
    sorted = emplace-IsSorted p x s.q v.sorted;
    bounded = omega (arith, length-emplace p x s.q);
  }

  -- `a` items more than before are accounted for in `t`: queued or dropped.
  record Accounts (s t : ThreadSafeQueue T) (a : ℕ) : Type 0 where
    inv : QueueInv t
    same_capacity : t.max_capacity ≡ s.max_capacity
    balance : length t.q + t.dropped_count ≡ length s.q + s.dropped_count + a

  emergency-Accounts :
      (es : List (Entry T)) (x : T) (p : ℕ) (s : ThreadSafeQueue T) {t : ThreadSafeQueue T}
      → s.q ≡ es
      → QueueInv s
      → emergency es x p s ≡ Pushed.returns t
      → Accounts s t 1
  unfolding emergency
  emergency-Accounts [] x p s q v h = ground arith
  emergency-Accounts (e ∷ es) x p s {t} q v h = ground (
    arith,
    emplace-IsSorted p x (erase_lowest e es)
        (erase_lowest-IsSorted e es (subst IsSorted q v.sorted)),
    length-emplace p x (erase_lowest e es),
    length-erase_lowest e es,
    ap length q,
  )

  push_waiting-Accounts :
      (x : T) (p : ℕ) (s : ThreadSafeQueue T) {t : ThreadSafeQueue T}
      → QueueInv s
      → push_waiting x p s ≡ Pushed.returns t
      → Accounts s t 1
  unfolding push_waiting
  push_waiting-Accounts x p s v h = ground (arith, emplace-QueueInv p x s v, length-emplace p x s.q)

  push-Accounts :
      (x : T) (p : ℕ) (s : ThreadSafeQueue T) {t : ThreadSafeQueue T}
      → QueueInv s
      → push x p s ≡ Pushed.returns t
      → Accounts s t 1
  unfolding push
  push-Accounts x p s {t} v h = ground (
    arith,
    emplace-QueueInv p x s v,
    length-emplace p x s.q,
    push_waiting-Accounts x p s {t = t} v,
    emergency-Accounts s.q x p s {t = t} refl v,
  )

  pop_from-Accounts :
      (es : List (Entry T)) (s : ThreadSafeQueue T) {x : T} {t : ThreadSafeQueue T}
      → s.q ≡ es
      → QueueInv s
      → pop_from es s ≡ Popped.item x t
      → QueueInv t × (length s.q + s.dropped_count ≡ length t.q + t.dropped_count + 1)
  unfolding pop_from
  pop_from-Accounts [] s q v h = ground arith
  pop_from-Accounts (e ∷ es) s q v h = ground (arith, subst IsSorted q v.sorted, ap length q)

  pop-Accounts :
      (s : ThreadSafeQueue T) {x : T} {t : ThreadSafeQueue T}
      → QueueInv s
      → pop s ≡ Popped.item x t
      → QueueInv t × (length s.q + s.dropped_count ≡ length t.q + t.dropped_count + 1)
  unfolding pop
  pop-Accounts s v h = pop_from-Accounts s.q s refl v h

  -- Every call of `push` is accounted for: its item was returned by `pop`, is queued, was dropped
  -- and counted, or its caller still sleeps.
  pub record SystemInv (s : System T) : Type 0 where
    pub queue_inv : QueueInv s.queue
    pub conserved :
        length s.pushed
        ≡ length s.popped + length s.queue.q + s.queue.dropped_count + length s.pushers

  Step-SystemInv : {s t : System T} → Step s t → SystemInv s → SystemInv t
  Step-SystemInv {s} (call_push e {t} h) v =
      let a = push-Accounts e.item e.priority s.queue {t = t} v.queue_inv h in
      record { queue_inv = a.inv; conserved = omega (arith, a.balance, v.conserved) }
  Step-SystemInv {s} (block_push e h) v = record {
    queue_inv = v.queue_inv;
    conserved = omega (arith, v.conserved);
  }
  Step-SystemInv {s} (wake_push l r e {t} at h) v =
      let a = push_waiting-Accounts e.item e.priority s.queue {t = t} v.queue_inv h in
      record {
        queue_inv = a.inv;
        conserved = omega (
          arith,
          a.balance,
          v.conserved,
          ap length at,
          length-append l (e ∷ r),
          length-append l r,
        );
      }
  Step-SystemInv {s} (call_pop x {t} h) v =
      let (inv, balance) = pop-Accounts s.queue {x = x} {t = t} v.queue_inv h in
      record { queue_inv = inv; conserved = omega (arith, balance, v.conserved) }

  Control-SystemInv : {s t : System T} → Control s t → SystemInv s → SystemInv t
  unfolding finish set_blocking
  Control-SystemInv finishes v = record {
    queue_inv = record { sorted = v.queue_inv.sorted; bounded = v.queue_inv.bounded };
    conserved = v.conserved;
  }
  Control-SystemInv (switches b) v = record {
    queue_inv = record { sorted = v.queue_inv.sorted; bounded = v.queue_inv.bounded };
    conserved = v.conserved;
  }

  start-SystemInv : (capacity : ℕ) → SystemInv (start capacity)
  unfolding new
  start-SystemInv capacity = record {
    queue_inv = record { sorted = tt; bounded = omega arith };
    conserved = omega arith;
  }

  -- However the threads are scheduled, from an empty queue on: the queue stays in priority order and
  -- within its capacity, and the number of pushes is the number of items popped, queued, dropped
  -- and still waiting to be queued.
  pub Reach-SystemInv : (capacity : ℕ) {s : System T} → Reach (start capacity) s → SystemInv s
  Reach-SystemInv capacity here = start-SystemInv capacity
  Reach-SystemInv capacity (step r st) = Step-SystemInv st (Reach-SystemInv capacity r)
  Reach-SystemInv capacity (control r c) = Control-SystemInv c (Reach-SystemInv capacity r)
