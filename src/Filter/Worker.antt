-- ===== src/Filter/Worker.antt =====
-- src/npu_filter.cpp, `worker_loop`: what the worker keeps, and what it does with the flows that it
-- pops from its input queue. Its calls of the callback and of `output_queue.push` are lists, the
-- latest call first.
use wirewolf.Base.{ℕ, ◌+◌, Bool, true, false, List, [], ◌∷◌, length, ltb, if◌then◌else◌}
use wirewolf.Base.Doubles.{Doubles}
use wirewolf.Base.Text.{Bytes, codes}
use wirewolf.Filter.{flow_priority}
use wirewolf.Filter.Decide.{Setup, Decision, decide}
use wirewolf.Packet.{ConnectionId, FlowData}
use wirewolf.Queue.{Entry}
use wirewolf.Reassembly.Blocklist.{contains, insert}

pub data FlowAction : Type 0 where
  filtered passed_to_llm llm_cleared : FlowAction

pub record FlowEvent : Type 0 where
  pub connection : ConnectionId
  pub action : FlowAction
  pub reason : Bytes
  pub payload_size : ℕ

-- `has_callback` tells whether `flow_event_callback_` is set.
pub record Worker (Double : Type 0) : Type 0 where
  pub has_callback : Bool
  pub seen_payload_hashes_ : List ℕ
  pub passed_count : ℕ
  pub filtered_count : ℕ
  pub dedup_count : ℕ
  pub events : List FlowEvent
  pub pushed : List (Entry (FlowData Double))

abbrev pub max_dedup_hashes : ℕ
max_dedup_hashes = 100000

module _ {Double : Type 0} where
  abbrev pub start : Bool → Worker Double
  start has_callback = record {
    has_callback = has_callback;
    seen_payload_hashes_ = [];
    passed_count = 0;
    filtered_count = 0;
    dedup_count = 0;
    events = [];
    pushed = [];
  }

  unfoldable pub event_of : FlowAction → Bytes → FlowData Double → FlowEvent
  event_of action reason f = record {
    connection = f.id;
    action = action;
    reason = reason;
    payload_size = length f.reassembled_payload;
  }

  unfoldable pub emit_flow_event :
      FlowAction → Bytes → FlowData Double → Worker Double → List FlowEvent
  emit_flow_event action reason f w =
      if w.has_callback then event_of action reason f ∷ w.events else w.events

  unfoldable pub drop_flow : Bytes → FlowData Double → Worker Double → Worker Double
  drop_flow reason f w = record w {
    filtered_count = w.filtered_count + 1;
    events = emit_flow_event FlowAction.filtered reason f w;
  }

  unfoldable pub pass_flow : Bytes → FlowData Double → Worker Double → Worker Double
  pass_flow reason f w = record w {
    passed_count = w.passed_count + 1;
    events = emit_flow_event FlowAction.passed_to_llm reason f w;
    pushed = record { priority = flow_priority f; item = f } ∷ w.pushed;
  }

  unfoldable pub drop_duplicate : FlowData Double → Worker Double → Worker Double
  drop_duplicate f w = drop_flow (codes "dedup") f (record w { dedup_count = w.dedup_count + 1 })

  unfoldable pub pass_new : ℕ → Bytes → FlowData Double → Worker Double → Worker Double
  pass_new key reason f w =
      pass_flow reason f (record w { seen_payload_hashes_ = insert key w.seen_payload_hashes_ })

  unfoldable pub carry_out : Decision Double → Worker Double → Worker Double
  carry_out (Decision.drop reason f) w = drop_flow reason f w
  carry_out (Decision.pass reason f) w = pass_flow reason f w
  carry_out (Decision.once key reason f) w =
      if contains w.seen_payload_hashes_ key then drop_duplicate f w else pass_new key reason f w

  unfoldable pub trim_seen : Worker Double → Worker Double
  trim_seen w =
      if ltb max_dedup_hashes (length w.seen_payload_hashes_)
      then record w { seen_payload_hashes_ = [] }
      else w

abbrev pub is_nil : Bytes → Bool
is_nil [] = true
is_nil (b ∷ bs) = false

module _ (r : Doubles) (e : Setup r.Double) where
  open r use {Double}

  -- One round of the loop.
  unfoldable pub handle : FlowData Double → Worker Double → Worker Double
  handle f w =
      if is_nil f.reassembled_payload
      then drop_flow (codes "empty") f w
      else carry_out (decide r e f) (trim_seen w)

  -- The rounds for a sequence of flows.
  unfoldable pub worker_loop : List (FlowData Double) → Worker Double → Worker Double
  worker_loop [] w = w
  worker_loop (f ∷ fs) w = worker_loop fs (handle f w)
