-- ===== src/Capi/Pending.antt =====
-- src/wirewolf_capi.cpp: the queues between the pipeline's callbacks and the functions that poll them.
use wirewolf.Base.{
  ℕ, zero, suc, Bool, true, false, List, [], ◌∷◌, ◌++◌, Option, none, some, length, drop, ltb,
  if◌then◌else◌,
}
use wirewolf.Base.Doubles.{Doubles}
use wirewolf.Base.Text.{Bytes}
use wirewolf.Capi.{
  WirewolfAlert, WirewolfFlowEvent, WirewolfLogEntry, WirewolfInstance, convert_alert,
  convert_event, convert_log,
}
use wirewolf.Config.{ℤ, pos, negsuc}
use wirewolf.Filter.Worker.{FlowEvent}
use wirewolf.Pipeline.{ThreatAlert}

abbrev pub max_queue : ℕ
max_queue = 10000

module _ {A : Type 0} where
  -- `push_back`, and `pop_front` where the queue is too long.
  unfoldable pub push_pending : A → List A → List A
  push_pending x pending =
      let longer = pending ++ x ∷ [] in
      if ltb max_queue (length longer) then drop 1 longer else longer

  -- The loop of a poll, with room for as many more: what it hands out, and what stays.
  unfoldable pub take_pending : ℕ → List A → List A × List A
  take_pending zero pending = ([], pending)
  take_pending (suc n) [] = ([], [])
  take_pending (suc n) (x ∷ pending) = let rest = take_pending n pending in (x ∷ rest.0, rest.1)

  -- With a buffer or without one, and its size.
  unfoldable pub poll : Bool → ℤ → List A → List A × List A
  poll false max pending = ([], pending)
  poll true (pos n) pending = take_pending n pending
  poll true (negsuc n) pending = ([], pending)

module _ (r : Doubles) where
  open r use {Double}

  -- The callbacks that `wirewolf_start` installs.
  unfoldable pub on_threat : ThreatAlert Double → WirewolfInstance Double → WirewolfInstance Double
  on_threat alert inst =
      let c_alert = convert_alert r alert in
      record inst {
        pending_alerts = push_pending c_alert inst.pending_alerts;
        alert_calls = if inst.has_alert_cb then c_alert ∷ inst.alert_calls else inst.alert_calls;
      }

module _ {Double : Type 0} where
  unfoldable pub on_flow_event : FlowEvent → WirewolfInstance Double → WirewolfInstance Double
  on_flow_event ev inst = record inst {
    pending_flows = push_pending (convert_event ev) inst.pending_flows;
  }

  unfoldable pub on_log : ℕ → Bytes → Bytes → WirewolfInstance Double → WirewolfInstance Double
  on_log level component message inst = record inst {
    pending_logs = push_pending (convert_log level component message) inst.pending_logs;
  }

  -- What a poll writes; its length is what it returns. A null handle gives nothing.
  unfoldable pub poll_alerts :
      Bool
      → ℤ
      → Option (WirewolfInstance Double)
      → List (WirewolfAlert Double) × Option (WirewolfInstance Double)
  poll_alerts out max none = ([], none)
  poll_alerts out max (some inst) =
      let (given, left) = poll out max inst.pending_alerts in
      (given, some (record inst { pending_alerts = left }))

  unfoldable pub poll_flow_events :
      Bool
      → ℤ
      → Option (WirewolfInstance Double)
      → List WirewolfFlowEvent × Option (WirewolfInstance Double)
  poll_flow_events out max none = ([], none)
  poll_flow_events out max (some inst) =
      let (given, left) = poll out max inst.pending_flows in
      (given, some (record inst { pending_flows = left }))

  unfoldable pub poll_logs :
      Bool
      → ℤ
      → Option (WirewolfInstance Double)
      → List WirewolfLogEntry × Option (WirewolfInstance Double)
  poll_logs out max none = ([], none)
  poll_logs out max (some inst) =
      let (given, left) = poll out max inst.pending_logs in
      (given, some (record inst { pending_logs = left }))
