-- ===== src/Pipeline/Delivery.antt =====
-- src/pipeline_controller.cpp: what arrives of an alert of the LLM stage.
use wirewolf.Alert.RoundTrip.{IsText, extract-build_alert_json}
use wirewolf.Base.{
  ℕ, ◌+◌, ◌≡◌, refl, ap, Bool, true, false, not, ◌&&◌, ◌||◌, ◌∷◌, ◌==◌, if◌then◌else◌,
}
use wirewolf.Base.Doubles.{Doubles}
use wirewolf.Base.Text.{Bytes}
use wirewolf.Packet.{ConnectionId}
use wirewolf.Pipeline.{Wiring, ThreatAlert, Shared, alert_from, on_alert, raise_alert}
use wirewolf.Reassembly.Blocklist.{contains, block_source, is_blocked, is_blocked-block_source}
use wirewolf.Severity.{SeverityInfo, severity_for_threat}

module _ (r : Doubles) (w : Wiring) where
  open r use {Double}

  -- The state behind the report of a threat on a connection.
  pub record Delivered (threat_type : Bytes) (cid : ConnectionId) (before after : Shared Double)
      : Type 0 where
    pub counted : after.alerts_fired_ ≡ before.alerts_fired_ + 1
    pub reported :
        (a : ThreatAlert Double) × (after.alerts ≡ a ∷ before.alerts)
        × (a.connection ≡ cid)
        × (a.threat_type ≡ threat_type)
        × (a.severity_info ≡ severity_for_threat threat_type)
    pub blocked :
        (ip : ℕ)
        → is_blocked after.blocklist ip ≡ (
            w.inline_block
              && (not (contains before.blocklist.allowlist_ips cid.src_ip) && cid.src_ip == ip)
            || is_blocked before.blocklist ip)

  blocked_after :
      (inline : Bool) (cid : ConnectionId) (s : Shared Double) (ip : ℕ)
      → is_blocked (if inline then block_source cid.src_ip s.blocklist else s.blocklist) ip ≡ (
          inline && (not (contains s.blocklist.allowlist_ips cid.src_ip) && cid.src_ip == ip)
          || is_blocked s.blocklist ip)
  blocked_after true cid s ip = is_blocked-block_source s.blocklist cid.src_ip ip
  blocked_after false cid s ip = refl

  -- If someone listens and the threat type is a text, an alert of the LLM stage is counted once and
  -- reported once, with its connection and its type; in inline mode its source is blocked, unless it
  -- is on the allowlist, and no other address changes. The rating reported is the curated one of the
  -- type, whatever rating the LLM stage resolved.
  pub raise_alert-Delivered :
      (t : Bytes) (llm_sev : SeverityInfo) (snippet : Bytes) (cid : ConnectionId)
      (payload_str : Bytes) (s : Shared Double)
      → IsText t
      → w.has_callback ≡ true
      → Delivered t cid s (raise_alert r w t llm_sev snippet cid payload_str s)
  unfolding raise_alert on_alert alert_from
  raise_alert-Delivered t llm_sev snippet cid payload_str s text heard =
      let named = extract-build_alert_json t _ _ snippet text in
      rw heard (record {
        counted = refl;
        reported = (_, refl, refl, named, ap severity_for_threat named);
        blocked = blocked_after w.inline_block cid s;
      })
