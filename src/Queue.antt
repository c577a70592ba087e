-- ===== src/Queue.antt =====
-- include/thread_safe_queue.hpp, `ThreadSafeQueue<T>`.
--
-- The multimap `q` is the list of its entries in iteration order. Each function below is what one
-- thread does while it holds the mutex; `waits` is a thread that sleeps on a condition variable
-- (the mutex released, the object unchanged) and runs the same function again when it wakes.
-- Priorities are natural numbers: the callers pass 0, 1 or 2.
pub mod Order
pub mod Drops
pub mod Threads
pub mod Lossless
pub mod Refines
pub mod Drain
use wirewolf.Base.{
  ℕ, ◌+◌, Bool, true, false, not, ◌||◌, List, [], ◌∷◌, length, ltb, leb, if◌then◌else◌,
}

pub record Entry {ℓ} (T : Type ℓ) : Type ℓ where
  pub priority : ℕ
  pub item : T

pub record ThreadSafeQueue {ℓ} (T : Type ℓ) : Type ℓ where
  pub q : List (Entry T)
  pub done : Bool
  pub blocking : Bool
  pub max_capacity : ℕ
  pub dropped_count : ℕ

-- `undefined` is C++'s undefined behaviour: `std::prev(q.end())` on an empty map.
pub data Pushed {ℓ} (T : Type ℓ) : Type ℓ where
  returns : ThreadSafeQueue T → Pushed T
  waits : Pushed T
  undefined : Pushed T

pub data Popped {ℓ} (T : Type ℓ) : Type ℓ where
  item : T → ThreadSafeQueue T → Popped T
  closed : Popped T
  waits : Popped T

module _ {ℓ} {T : Type ℓ} where
  unfoldable pub new : ℕ → ThreadSafeQueue T
  new capacity = record {
    q = [];
    done = false;
    blocking = false;
    max_capacity = capacity;
    dropped_count = 0;
  }

  -- `multimap::emplace` with `std::greater`: behind every entry of the same or a higher priority.
  unfoldable pub emplace : ℕ → T → List (Entry T) → List (Entry T)
  emplace p x [] = record { priority = p; item = x } ∷ []
  emplace p x (e ∷ es) =
      if ltb e.priority p
      then record { priority = p; item = x } ∷ (e ∷ es)
      else (e ∷ emplace p x es)

  -- `std::prev(q.end())` of the non-empty map `e ∷ es`.
  unfoldable pub lowest : Entry T → List (Entry T) → Entry T
  lowest e [] = e
  lowest e (f ∷ es) = lowest f es

  -- The map without that entry.
  unfoldable pub erase_lowest : Entry T → List (Entry T) → List (Entry T)
  erase_lowest e [] = []
  erase_lowest e (f ∷ es) = e ∷ erase_lowest f es

  -- The emergency drop of a full queue in live mode.
  unfoldable pub emergency : List (Entry T) → T → ℕ → ThreadSafeQueue T → Pushed T
  emergency [] x p s = undefined
  emergency (e ∷ es) x p s =
      if ltb (lowest e es).priority p
      then returns
          (record s { q = emplace p x (erase_lowest e es); dropped_count = s.dropped_count + 1 })
      else returns (record s { dropped_count = s.dropped_count + 1 })

  -- From `cv_push.wait` on: where a pusher stands again each time that it wakes.
  unfoldable pub push_waiting : T → ℕ → ThreadSafeQueue T → Pushed T
  push_waiting x p s =
      if ltb (length s.q) s.max_capacity || (s.done || not s.blocking)
      then (if leb s.max_capacity (length s.q)
          then returns (record s { dropped_count = s.dropped_count + 1 })
          else returns (record s { q = emplace p x s.q }))
      else waits

  unfoldable pub push : T → ℕ → ThreadSafeQueue T → Pushed T
  push x p s =
      if leb s.max_capacity (length s.q)
      then (if not s.blocking then emergency s.q x p s else push_waiting x p s)
      else returns (record s { q = emplace p x s.q })

  -- The body of `pop` once its entries are looked at.
  unfoldable pub pop_from : List (Entry T) → ThreadSafeQueue T → Popped T
  pop_from [] s = if s.done then closed else waits
  pop_from (e ∷ es) s = item e.item (record s { q = es })

  unfoldable pub pop : ThreadSafeQueue T → Popped T
  unfolding pop_from
  pop s = pop_from s.q s

  unfoldable pub finish : ThreadSafeQueue T → ThreadSafeQueue T
  finish s = record s { done = true }

  unfoldable pub set_blocking : Bool → ThreadSafeQueue T → ThreadSafeQueue T
  set_blocking enable s = record s { blocking = enable }

  unfoldable pub size : ThreadSafeQueue T → ℕ
  size s = length s.q
