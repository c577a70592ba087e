-- ===== src/Capi.antt =====
-- src/wirewolf_capi.cpp and include/wirewolf_capi.h: the C interface around the controller. A handle or a
-- pointer is null as `none`. Each function runs under the instance's lock where it touches a queue, so
-- calls happen one after another. Times are left out, as are the pointers that are handed back to
-- the callbacks.
use wirewolf.Base.{
  ℕ, zero, suc, ◌+◌, ◌-◌, min, Bool, false, List, [], ◌∷◌, ◌++◌, length, take, drop, if◌then◌else◌,
}
use wirewolf.Base.Doubles.{Doubles}
use wirewolf.Base.Text.{Bytes}
use wirewolf.Config.{WirewolfConfig}
use wirewolf.Filter.Worker.{FlowAction, FlowEvent}
use wirewolf.Pipeline.{ThreatAlert}
use wirewolf.Pipeline.Lifecycle.{Controller}
use wirewolf.Severity.{rank}
use wirewolf.Severity.Confidence.{confidence_for}
pub mod Settings
pub mod Pending
pub mod Control
pub mod Buffers
pub mod Usable
pub mod Served

-- `memset` to zero.
unfoldable pub zeros : ℕ → Bytes
zeros zero = []
zeros (suc n) = 0 ∷ zeros n

-- `memcpy` and the closing zero, into a buffer that is not empty; what lay behind stays.
unfoldable pub safe_copy : Bytes → Bytes → Bytes
safe_copy dst src =
    let len = min (length src) (length dst - 1) in take len src ++ (0 ∷ drop (len + 1) dst)

pub record WirewolfAlert (Double : Type 0) : Type 0 where
  pub src_ip : ℕ
  pub dst_ip : ℕ
  pub src_port : ℕ
  pub dst_port : ℕ
  pub threat_type : Bytes
  pub severity : Bytes
  pub cvss : ℕ
  pub severity_level : ℕ
  pub snippet : Bytes
  pub raw_llm_output : Bytes
  pub payload_text : Bytes
  pub confidence : Double

pub record WirewolfFlowEvent : Type 0 where
  pub src_ip : ℕ
  pub dst_ip : ℕ
  pub src_port : ℕ
  pub dst_port : ℕ
  pub action : ℕ
  pub reason : Bytes
  pub payload_size : ℕ

pub record WirewolfLogEntry : Type 0 where
  pub level : ℕ
  pub component : Bytes
  pub message : Bytes

-- `alert_calls` are the calls of the alert callback, the latest first.
pub record WirewolfInstance (Double : Type 0) : Type 0 where
  pub controller : Controller
  pub config : WirewolfConfig Double
  pub has_alert_cb : Bool
  pub has_state_cb : Bool
  pub pending_alerts : List (WirewolfAlert Double)
  pub pending_flows : List WirewolfFlowEvent
  pub pending_logs : List WirewolfLogEntry
  pub alert_calls : List (WirewolfAlert Double)

module _ (r : Doubles) where
  open r use {Double, of_ℕ, lt}

  unfoldable pub convert_alert : ThreatAlert Double → WirewolfAlert Double
  convert_alert alert = record {
    src_ip = alert.connection.src_ip;
    dst_ip = alert.connection.dst_ip;
    src_port = alert.connection.src_port;
    dst_port = alert.connection.dst_port;
    threat_type = safe_copy (zeros 64) alert.threat_type;
    severity = safe_copy (zeros 64) alert.severity;
    cvss = alert.severity_info.cvss;
    severity_level = rank alert.severity_info.level;
    snippet = safe_copy (zeros 512) alert.snippet;
    raw_llm_output = safe_copy (zeros 1024) alert.raw_llm_output;
    payload_text = safe_copy (zeros 4096) alert.payload_text;
    confidence =
        if lt (of_ℕ 0) alert.confidence
        then alert.confidence
        else confidence_for r alert.severity_info false;
  }

-- `static_cast<int>`.
abbrev pub action_code : FlowAction → ℕ
action_code FlowAction.filtered = 0
action_code FlowAction.passed_to_llm = 1
action_code FlowAction.llm_cleared = 2

unfoldable pub convert_event : FlowEvent → WirewolfFlowEvent
convert_event ev = record {
  src_ip = ev.connection.src_ip;
  dst_ip = ev.connection.dst_ip;
  src_port = ev.connection.src_port;
  dst_port = ev.connection.dst_port;
  action = action_code ev.action;
  reason = safe_copy (zeros 64) ev.reason;
  payload_size = ev.payload_size;
}

unfoldable pub convert_log : ℕ → Bytes → Bytes → WirewolfLogEntry
convert_log level component message = record {
  level = level;
  component = safe_copy (zeros 32) component;
  message = safe_copy (zeros 512) message;
}
