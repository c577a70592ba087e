-- ===== src/Capi/Control.antt =====
-- src/wirewolf_capi.cpp: the life of an instance, and the queries of its state. What `list_interfaces` of
-- the controller finds is a parameter, and the texts of null buffers are not written.
use wirewolf.Base.{
  ℕ, Bool, true, false, List, [], ◌∷◌, Option, none, some, take, map, if◌then◌else◌,
}
use wirewolf.Base.Doubles.{Doubles}
use wirewolf.Base.Text.{Bytes}
use wirewolf.Capi.{WirewolfInstance, zeros, safe_copy}
use wirewolf.Config.{ℤ, pos, negsuc, valid, defaults}
use wirewolf.Pipeline.Lifecycle.{PipelineState, fresh, start, stop, is_idle}
use wirewolf.Pipeline.Stats.{PipelineStats}

-- `wirewolf_create`.
unfoldable pub create : (r : Doubles) → WirewolfInstance r.Double
create r = record {
  controller = fresh;
  config = defaults r;
  has_alert_cb = false;
  has_state_cb = false;
  pending_alerts = [];
  pending_flows = [];
  pending_logs = [];
  alert_calls = [];
}

abbrev pub state_code : PipelineState → ℕ
state_code PipelineState.stopped = 0
state_code PipelineState.starting = 1
state_code PipelineState.running = 2
state_code PipelineState.stopping = 3
state_code PipelineState.error = 4

abbrev int_of : Bool → ℕ
int_of true = 1
int_of false = 0

abbrev pub is_nil : Bytes → Bool
is_nil [] = true
is_nil (c ∷ cs) = false

module _ {Double : Type 0} where
  unfoldable pub set_alert_callback :
      Bool → Option (WirewolfInstance Double) → Option (WirewolfInstance Double)
  set_alert_callback given none = none
  set_alert_callback given (some inst) = some (record inst { has_alert_cb = given })

  unfoldable pub set_state_callback :
      Bool → Option (WirewolfInstance Double) → Option (WirewolfInstance Double)
  set_state_callback given none = none
  set_state_callback given (some inst) = some (record inst { has_state_cb = given })

  -- What `start` of the controller answers, and the instance behind it.
  unfoldable pub wirewolf_start :
      Option (WirewolfInstance Double) → ℕ × Option (WirewolfInstance Double)
  wirewolf_start none = (0, none)
  wirewolf_start (some inst) =
      let c = inst.controller in
      let ready = valid inst.config in
      (
        if is_idle c.state_ then int_of ready else 0,
        some (record inst { controller = start ready c }),
      )

  unfoldable pub wirewolf_stop : Option (WirewolfInstance Double) → Option (WirewolfInstance Double)
  wirewolf_stop none = none
  wirewolf_stop (some inst) = some (record inst { controller = stop inst.controller })

  unfoldable pub get_state : Option (WirewolfInstance Double) → ℕ
  get_state none = 4
  get_state (some inst) = state_code inst.controller.state_

  -- The answer, and the caller's buffer behind the call.
  unfoldable pub get_last_error : Bytes → Option (WirewolfInstance Double) → ℕ × Bytes
  get_last_error buf none = (0, buf)
  get_last_error [] (some inst) = (0, [])
  get_last_error (b ∷ buf) (some inst) =
      if is_nil inst.controller.last_error_
      then (0, 0 ∷ buf)
      else (1, safe_copy (b ∷ buf) inst.controller.last_error_)

pub record WirewolfStats : Type 0 where
  pub filter_passed : ℕ
  pub filter_dropped : ℕ
  pub filter_deduped : ℕ
  pub alerts_fired : ℕ
  pub queue_reassembly_depth : ℕ
  pub queue_reassembly_capacity : ℕ
  pub queue_reassembly_drops : ℕ
  pub queue_llm_depth : ℕ
  pub queue_llm_capacity : ℕ
  pub queue_llm_drops : ℕ
  pub capture_finished : ℕ
  pub blocked_packets : ℕ
  pub blocked_sources : ℕ
  pub filter_device : Bytes

unfoldable pub get_stats : PipelineStats → WirewolfStats
get_stats stats = record {
  filter_passed = stats.filter_passed;
  filter_dropped = stats.filter_dropped;
  filter_deduped = stats.filter_deduped;
  alerts_fired = stats.alerts_fired;
  queue_reassembly_depth = stats.queue_reassembly_to_filter_depth;
  queue_reassembly_capacity = stats.queue_reassembly_to_filter_capacity;
  queue_reassembly_drops = stats.queue_reassembly_to_filter_drops;
  queue_llm_depth = stats.queue_filter_to_llm_depth;
  queue_llm_capacity = stats.queue_filter_to_llm_capacity;
  queue_llm_drops = stats.queue_filter_to_llm_drops;
  capture_finished = int_of stats.capture_finished;
  blocked_packets = stats.blocked_packets;
  blocked_sources = stats.blocked_sources;
  filter_device = safe_copy (zeros 32) stats.filter_device;
}

pub record WirewolfInterface : Type 0 where
  pub name : Bytes
  pub description : Bytes

unfoldable pub convert_interface : Bytes × Bytes → WirewolfInterface
convert_interface (name, description) = record {
  name = safe_copy (zeros 256) name;
  description = safe_copy (zeros 512) description;
}

-- The entries written, as many as are returned.
unfoldable pub list_interfaces : List (Bytes × Bytes) → Bool → ℤ → List WirewolfInterface
list_interfaces found false max_count = []
list_interfaces found true (negsuc n) = []
list_interfaces found true (pos n) = map convert_interface (take n found)
