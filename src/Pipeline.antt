-- ===== src/Pipeline.antt =====
-- src/pipeline_controller.cpp: what the callback of the LLM stage makes of an alert. The time is left
-- out, and `reassembler_` is there while the LLM stage runs. `alerts` are the calls of
-- `on_threat_detected_`, the latest first.
use wirewolf.Alert.{extract, build_alert_json}
use wirewolf.Base.{ℕ, ◌+◌, Bool, false, List, [], ◌∷◌, if◌then◌else◌}
use wirewolf.Base.Doubles.{Doubles}
use wirewolf.Base.Text.{Bytes, codes}
use wirewolf.Packet.{ConnectionId}
use wirewolf.Reassembly.Blocklist.{Blocklist, block_source}
use wirewolf.Severity.{SeverityInfo, label, severity_for_threat}
use wirewolf.Severity.Confidence.{format, confidence_for}
pub mod Delivery
pub mod Lifecycle
pub mod Report
pub mod Stats

-- How the controller was set up, and how `printf` prints a score.
pub record Wiring : Type 0 where
  pub has_callback : Bool
  pub inline_block : Bool
  pub one_decimal : ℕ → Bytes
  pub six_decimals : ℕ → Bytes

pub record ThreatAlert (Double : Type 0) : Type 0 where
  pub connection : ConnectionId
  pub threat_type : Bytes
  pub severity : Bytes
  pub severity_info : SeverityInfo
  pub snippet : Bytes
  pub raw_llm_output : Bytes
  pub payload_text : Bytes
  pub confidence : Double

pub record Shared (Double : Type 0) : Type 0 where
  pub alerts_fired_ : ℕ
  pub blocklist : Blocklist
  pub alerts : List (ThreatAlert Double)

module _ (r : Doubles) (w : Wiring) where
  open r use {Double}

  unfoldable pub alert_from : Bytes → ConnectionId → Bytes → ThreatAlert Double
  alert_from llm_output cid payload_text =
      let threat_type = extract (codes "threat_type") llm_output in
      let info = severity_for_threat threat_type in
      record {
        connection = cid;
        threat_type = threat_type;
        severity = label info.level;
        severity_info = info;
        snippet = extract (codes "snippet") llm_output;
        raw_llm_output = llm_output;
        payload_text = payload_text;
        confidence = confidence_for r info false;
      }

  -- The callback.
  unfoldable pub on_alert : Bytes → ConnectionId → Bytes → Shared Double → Shared Double
  on_alert llm_output cid payload_text s =
      if w.has_callback
      then record {
        alerts_fired_ = s.alerts_fired_ + 1;
        blocklist = if w.inline_block then block_source cid.src_ip s.blocklist else s.blocklist;
        alerts = alert_from llm_output cid payload_text ∷ s.alerts;
      }
      else record s { alerts_fired_ = s.alerts_fired_ + 1 }

  -- What the LLM stage does with an answer that passed its checks.
  unfoldable pub raise_alert :
      Bytes → SeverityInfo → Bytes → ConnectionId → Bytes → Shared Double → Shared Double
  raise_alert threat_type llm_sev snippet cid payload_str s =
      on_alert
        (build_alert_json threat_type (format w.one_decimal llm_sev) (w.six_decimals llm_sev.cvss)
          snippet)
        cid payload_str s
