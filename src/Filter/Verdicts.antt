-- ===== src/Filter/Verdicts.antt =====
-- src/npu_filter.cpp, `worker_loop`: what holds of a flow whichever test decides on it.
use wirewolf.Base.{◌≡◌, refl, Bool, true, false, Option, none, some, ◌||◌, if-ind, not}
use wirewolf.Base.Doubles.{Doubles}
use wirewolf.Base.Text.{Bytes}
use wirewolf.Filter.{flow_priority, detect_heartbleed, detect_spnego}
use wirewolf.Filter.Decide.{
  Setup, Decision, tagged, is_empty_feed, feed_decision, feed_hit, decision_or, decide_anomaly,
  decide_content, decide_exploit, decide_clear, decide_tls, normalized, decide, is_suspicious,
  is_text,
}
use wirewolf.Filter.Credentials.{detect_credential_content, detect_http_bruteforce}
use wirewolf.Filter.Ftp.{detect_ftp_activity}
use wirewolf.Filter.Handshake.{
  TlsVerdict, judge, inspect, inspect_tls, client_hello, bad_ja3, sni_suspicious,
}
use wirewolf.Filter.Http.{detect_benign_http}
use wirewolf.Filter.Rat.{detect_rat_protocol}
use wirewolf.Filter.Smb.{detect_smb_exploit}
use wirewolf.Filter.Worker.{Worker, is_nil}
use wirewolf.Normalizer.{normalize_payload}
use wirewolf.Packet.{FlowData}
use wirewolf.Queue.{Entry}
use wirewolf.ThreatFeed.{ThreatFeed, ContentSignature, has, is_bad_ja3, is_bad_domain}
use wirewolf.Tls.{Hello, TlsInfo}

-- A flow with what the filter adds to it: the tag, the TLS fields and the canonical payload.
pub record IsSameFlow {Double : Type 0} (f g : FlowData Double) : Type 0 where
  pub same_id : g.id ≡ f.id
  pub same_payload : g.reassembled_payload ≡ f.reassembled_payload
  pub same_suspect : g.behavioral_suspect ≡ f.behavioral_suspect
  pub is_normalized : g.normalized_payload ≡ normalize_payload f.reassembled_payload

unfoldable pub flow_in : {Double : Type 0} → Decision Double → FlowData Double
flow_in (Decision.drop reason f) = f
flow_in (Decision.pass reason f) = f
flow_in (Decision.once key reason f) = f

-- What the worker may push: a flow with a payload and its canonical form, under its own priority.
pub record IsPushable {Double : Type 0} (x : Entry (FlowData Double)) : Type 0 where
  pub own_priority : x.priority ≡ flow_priority x.item
  pub has_payload : is_nil x.item.reassembled_payload ≡ false
  pub is_canonical : x.item.normalized_payload ≡ normalize_payload x.item.reassembled_payload

tagged-IsSameFlow :
    {Double : Type 0} (f g : FlowData Double) (tag : Bytes)
    → IsSameFlow f g
    → IsSameFlow f (tagged tag g)
tagged-IsSameFlow f g tag s = record {
  same_id = s.same_id;
  same_payload = s.same_payload;
  same_suspect = s.same_suspect;
  is_normalized = s.is_normalized;
}

-- The feed leaves the decision to the later tests or passes the flow, with or without a tag.
feed_decision-ind :
    {Double : Type 0} (P : Decision Double → Type 0) (forensic : Bool)
    (sig : Option ContentSignature) (bad_ip : Bool) (f : FlowData Double) (d : Decision Double)
    → P d
    → ((reason : Bytes) → P (Decision.pass reason f))
    → ((reason tag : Bytes) → P (Decision.pass reason (tagged tag f)))
    → P (decision_or (feed_decision forensic sig bad_ip f) d)
unfolding feed_decision
feed_decision-ind P forensic none true f d later plain named = plain _
feed_decision-ind P forensic none false f d later plain named = later
feed_decision-ind P true (some sig) bad_ip f d later plain named = plain _
feed_decision-ind P false (some sig) bad_ip f d later plain named = named _ _

module _ (r : Doubles) (e : Setup r.Double) where
  open r use {Double}

  pub feed_hit-ind :
      (P : Decision Double → Type 0) (f : FlowData Double) (d : Decision Double)
      → P d
      → ((reason : Bytes) → P (Decision.pass reason f))
      → ((reason tag : Bytes) → P (Decision.pass reason (tagged tag f)))
      → P (decision_or (feed_hit r e f) d)
  unfolding feed_hit
  feed_hit-ind P f d later plain named =
      if-ind (λ o. P (decision_or o d)) (is_empty_feed e.feed) (λ _. later)
        λ _. feed_decision-ind P e.is_forensic _ _ f d later plain named

  judge-IsSameFlow :
      (feed : ThreatFeed) (tls : TlsInfo) (f g : FlowData Double)
      → IsSameFlow f g
      → IsSameFlow f (judge r feed tls g).1
  unfolding judge
  judge-IsSameFlow feed tls f g s =
      let P = λ (v : TlsVerdict × FlowData Double). IsSameFlow f v.1 in
      if-ind P (has bad_ja3 tls.ja3_hash || is_bad_ja3 feed tls.ja3_hash)
        (λ _. tagged-IsSameFlow f g _ s)
        λ _.
          if-ind P (is_bad_domain feed tls.sni) (λ _. tagged-IsSameFlow f g _ s)
            λ _. if-ind P (sni_suspicious r tls.sni) (λ _. tagged-IsSameFlow f g _ s) λ _. s

  inspect-IsSameFlow :
      (feed : ThreatFeed) (h : Hello) (f g : FlowData Double)
      → IsSameFlow f g
      → IsSameFlow f (inspect r feed h g).1
  unfolding inspect
  inspect-IsSameFlow feed Hello.not_hello f g s = s
  inspect-IsSameFlow feed (Hello.hello tls) f g s = judge-IsSameFlow feed tls f _ (record {
    same_id = s.same_id;
    same_payload = s.same_payload;
    same_suspect = s.same_suspect;
    is_normalized = s.is_normalized;
  })

  decide_anomaly-IsSameFlow :
      (f g : FlowData Double) → IsSameFlow f g → IsSameFlow f (flow_in (decide_anomaly r e g))
  unfolding decide_anomaly flow_in
  decide_anomaly-IsSameFlow f g s =
      let P = λ (d : Decision Double). IsSameFlow f (flow_in d) in
      if-ind P (not (is_suspicious r e g)) (λ _. s)
        λ _. if-ind P (not (is_text r e g.reassembled_payload)) (λ _. s) λ _. s

  decide_content-IsSameFlow :
      (f g : FlowData Double) → IsSameFlow f g → IsSameFlow f (flow_in (decide_content r e g))
  unfolding decide_content flow_in
  decide_content-IsSameFlow f g s =
      let P = λ (d : Decision Double). IsSameFlow f (flow_in d) in
      let p = g.reassembled_payload in
      let named = λ (tag : Bytes). tagged-IsSameFlow f g tag s in
      if-ind P (detect_spnego p) (λ _. s)
        λ _.
          if-ind P (detect_http_bruteforce p) (λ _. named _)
            λ _.
              if-ind P (detect_benign_http e.byte_before_literal p) (λ _. s)
                λ _.
                  if-ind P (detect_credential_content r p) (λ _. named _)
                    λ _.
                      if-ind P (detect_ftp_activity p) (λ _. named _)
                        λ _.
                          if-ind P (detect_rat_protocol g) (λ _. named _)
                            λ _. decide_anomaly-IsSameFlow f g s

  decide_exploit-IsSameFlow :
      (f g : FlowData Double) → IsSameFlow f g → IsSameFlow f (flow_in (decide_exploit r e g))
  unfolding decide_exploit flow_in
  decide_exploit-IsSameFlow f g s =
      let P = λ (d : Decision Double). IsSameFlow f (flow_in d) in
      if-ind P (detect_heartbleed g.reassembled_payload) (λ _. tagged-IsSameFlow f g _ s)
        λ _.
          if-ind P (detect_smb_exploit g) (λ _. tagged-IsSameFlow f g _ s)
            λ _. decide_content-IsSameFlow f g s

  decide_clear-IsSameFlow :
      (f g : FlowData Double) → IsSameFlow f g → IsSameFlow f (flow_in (decide_clear r e g))
  unfolding flow_in decide_clear
  decide_clear-IsSameFlow f g s =
      feed_hit-ind (λ d. IsSameFlow f (flow_in d)) g (decide_exploit r e g)
        (decide_exploit-IsSameFlow f g s) (λ _. s) λ _ tag. tagged-IsSameFlow f g tag s

  decide_tls-IsSameFlow :
      (v : TlsVerdict × FlowData Double) (f : FlowData Double)
      → IsSameFlow f v.1
      → IsSameFlow f (flow_in (decide_tls r e v))
  unfolding decide_tls flow_in
  decide_tls-IsSameFlow (TlsVerdict.not_tls, g) f s = decide_clear-IsSameFlow f g s
  decide_tls-IsSameFlow (TlsVerdict.suspicious_tls, g) f s = s
  decide_tls-IsSameFlow (TlsVerdict.benign_tls, g) f s =
      if-ind (λ d. IsSameFlow f (flow_in d)) (detect_heartbleed g.reassembled_payload)
        (λ _. decide_clear-IsSameFlow f g s) λ _. s

  pub inspect_tls-IsSameFlow :
      (f : FlowData Double) → IsSameFlow f (inspect_tls r e.feed (normalized r e f)).1
  unfolding inspect_tls normalized
  inspect_tls-IsSameFlow f =
      let n = normalized r e f in
      inspect-IsSameFlow e.feed (client_hello n.reassembled_payload) f n
        (record { same_id = refl; same_payload = refl; same_suspect = refl; is_normalized = refl })

  pub decide-IsSameFlow : (f : FlowData Double) → IsSameFlow f (flow_in (decide r e f))
  unfolding decide
  decide-IsSameFlow f =
      decide_tls-IsSameFlow (inspect_tls r e.feed (normalized r e f)) f (inspect_tls-IsSameFlow f)
