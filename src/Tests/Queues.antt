-- ===== src/Tests/Queues.antt =====
-- include/thread_safe_queue.hpp at concrete inputs.
use mathlib.Core.List.Perm
use wirewolf.Base.{ℕ, ◌≡◌, refl, true, false, List, [], ◌∷◌, arith}
use wirewolf.Queue.{Entry, ThreadSafeQueue, Pushed, new, emplace, push, finish, set_blocking}
use wirewolf.Queue.Drain.{drain, drain-finish}
use wirewolf.Queue.Order.{IsSorted}
use wirewolf.Queue.Refines.{Call, Refines, run_call-Refines}
use wirewolf.Queue.Drops.{entry, dropped, WeakestGone, push-WeakestGone}
use wirewolf.Queue.Threads.{System, Step, Control, Reach, SystemInv, start, Reach-SystemInv}
use wirewolf.Queue.Lossless.{Runs, Holds, Runs-Holds}

abbrev two : List (Entry ℕ)
two = entry 9 100 ∷ entry 2 200 ∷ []

two-IsSorted : IsSorted two
two-IsSorted = ((omega arith, tt), (tt, tt))

abbrev full : ThreadSafeQueue ℕ
full = record { q = two; done = false; blocking = false; max_capacity = 2; dropped_count = 0 }

push-WeakestGone_example :
    (l : List (Entry ℕ)) × (push 300 5 full ≡ Pushed.returns (dropped full l))
    × WeakestGone two (entry 5 300) l
push-WeakestGone_example = push-WeakestGone full 300 5 two-IsSorted refl (omega arith) (omega arith)

abbrev roomy : ThreadSafeQueue ℕ
roomy = record full { max_capacity = 9 }

run_call-Refines_example : Refines (Call.put 4 300 ∷ Call.take ∷ Call.take ∷ []) roomy
run_call-Refines_example =
    run_call-Refines (Call.put 4 300 ∷ Call.take ∷ Call.take ∷ []) roomy two-IsSorted (omega arith)

drain-finish_example : drain 3 (finish full) ≡ (100 ∷ 200 ∷ [], true)
drain-finish_example = drain-finish 3 full (omega arith)

-- One item is pushed and popped.
abbrev after_push : System ℕ
after_push = record {
  queue = record {
    q = entry 4 7 ∷ [];
    done = false;
    blocking = true;
    max_capacity = 3;
    dropped_count = 0;
  };
  pushers = [];
  pushed = entry 4 7 ∷ [];
  popped = [];
}

abbrev open_start : System ℕ
open_start = record (start 3) { queue = set_blocking true (new 3) }

one_push : Step open_start after_push
unfolding push new set_blocking emplace
one_push = Step.call_push (entry 4 7) refl

Reach-SystemInv_example : SystemInv after_push
Reach-SystemInv_example =
    Reach-SystemInv 3 (Reach.step (Reach.control Reach.here (Control.switches true)) one_push)

open_start-Holds : Holds open_start
unfolding set_blocking new
open_start-Holds = record { blocking = refl; open_ = refl; undropped = refl; kept = Perm.nil }

Runs-Holds_example : Holds after_push
Runs-Holds_example = Runs-Holds open_start-Holds (Runs.more Runs.done one_push)
