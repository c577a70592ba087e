-- ===== src/Filter/Decide.antt =====
-- src/npu_filter.cpp, `worker_loop`: the tests on one flow, in their order. Each way through them
-- ends in one of three things: the flow is dropped, it is sent on, or it is sent on unless its key
-- was seen before. The build without OpenVINO is modelled.
use wirewolf.Base.{ℕ, Bool, not, ◌&&◌, ◌||◌, ◌∷◌, ◌++◌, Option, none, some, length, if◌then◌else◌}
use wirewolf.Base.Doubles.{Doubles}
use wirewolf.Base.Text.{Bytes, codes, decimal}
use wirewolf.Filter.{dst_is_external, detect_heartbleed, detect_spnego}
use wirewolf.Filter.Credentials.{printable, detect_credential_content, detect_http_bruteforce}
use wirewolf.Filter.Dedup.{heartbleed_key, smb_key, rat_key, payload_key}
use wirewolf.Filter.Features.{Thresholds, extract_features, statistical_filter}
use wirewolf.Filter.Ftp.{detect_ftp_activity}
use wirewolf.Filter.Handshake.{TlsVerdict, inspect_tls}
use wirewolf.Filter.Http.{detect_benign_http}
use wirewolf.Filter.Injection.{detect_obfuscated_injection}
use wirewolf.Filter.Rat.{detect_rat_protocol}
use wirewolf.Filter.Smb.{detect_smb_exploit}
use wirewolf.Normalizer.{normalize_payload}
use wirewolf.Packet.{FlowData, octet}
use wirewolf.Packet.Hash.{Hashes}
use wirewolf.ThreatFeed.{ThreatFeed, ContentSignature, is_nil, is_bad_ip, match_signature}

-- What the worker reads besides the flow: the feed, the settings, and the functions and the byte that
-- are not the program's own.
pub record Setup (Double : Type 0) : Type 0 where
  pub feed : ThreatFeed
  pub cfg : Thresholds Double
  pub is_forensic : Bool
  pub log2 : Double → Double
  pub to_float : Double → Double
  pub byte_before_literal : ℕ
  pub std : Hashes

pub data Decision (Double : Type 0) : Type 0 where
  drop pass : (reason : Bytes) → FlowData Double → Decision Double
  once : (key : ℕ) → (reason : Bytes) → FlowData Double → Decision Double

unfoldable pub is_empty_feed : ThreatFeed → Bool
is_empty_feed feed =
    is_nil feed.bad_ja3_
    && is_nil feed.bad_domains_
    && is_nil feed.bad_ips_
    && is_nil feed.signatures_

unfoldable pub ip_to_str : ℕ → Bytes
ip_to_str ip =
    decimal (octet ip 0)
    ++ (b'.'
        ∷ (decimal (octet ip 1)
            ++ (b'.' ∷ (decimal (octet ip 2) ++ (b'.' ∷ decimal (octet ip 3))))))

abbrev pub tagged : {Double : Type 0} → Bytes → FlowData Double → FlowData Double
tagged tag f = record f { protocol_tag = tag }

unfoldable pub transfer_tag : ℕ → Bytes
transfer_tag dst_ip =
    if dst_is_external dst_ip then codes "Data Exfiltration" else codes "Suspicious Transfer"

-- A hit in the threat feed: a signature names the flow, but not in forensic mode.
unfoldable pub feed_decision :
    {Double : Type 0}
    → Bool
    → Option ContentSignature
    → Bool
    → FlowData Double
    → Option (Decision Double)
feed_decision forensic none bad_ip f =
    if bad_ip then some (Decision.pass (codes "threat-intel") f) else none
feed_decision forensic (some sig) bad_ip f =
    some (Decision.pass (codes "threat-intel") (if forensic then f else tagged sig.severity f))

abbrev pub decision_or :
    {Double : Type 0} → Option (Decision Double) → Decision Double → Decision Double
decision_or none d = d
decision_or (some e) d = e

module _ (r : Doubles) (e : Setup r.Double) where
  open r use {Double, of_ℕ, div, lt}

  unfoldable pub is_text : Bytes → Bool
  is_text p = not (lt (div (of_ℕ (printable p)) (of_ℕ (length p))) (div (of_ℕ 85) (of_ℕ 100)))

  unfoldable pub is_suspicious : FlowData Double → Bool
  is_suspicious f =
      detect_obfuscated_injection f.normalized_payload
      || f.behavioral_suspect
      || statistical_filter r e.cfg (extract_features r e.log2 e.to_float f) f

  -- From the features on.
  unfoldable pub decide_anomaly : FlowData Double → Decision Double
  decide_anomaly f =
      if not (is_suspicious f)
      then Decision.drop (codes "statistical") f
      else if not (is_text f.reassembled_payload)
      then Decision.drop (codes "binary") f
      else Decision.once (payload_key e.std f.id f.reassembled_payload) (codes "anomaly") f

  -- From the SPNEGO test on.
  unfoldable pub decide_content : FlowData Double → Decision Double
  decide_content f =
      let p = f.reassembled_payload in
      if detect_spnego p
      then Decision.drop (codes "SPNEGO") f
      else if detect_http_bruteforce p
      then Decision.pass (codes "http-bruteforce") (tagged (codes "Brute Force") f)
      else if detect_benign_http e.byte_before_literal p
      then Decision.drop (codes "benign HTTP") f
      else if detect_credential_content r p
      then Decision.pass (codes "credential-content") (tagged (transfer_tag f.id.dst_ip) f)
      else if detect_ftp_activity p
      then Decision.pass (codes "ftp-exfil") (tagged (transfer_tag f.id.dst_ip) f)
      else if detect_rat_protocol f
      then Decision.once (rat_key e.std f.id) (codes "rat-c2") (tagged (codes "RAT C2") f)
      else decide_anomaly f

  -- From the Heartbleed test on.
  unfoldable pub decide_exploit : FlowData Double → Decision Double
  decide_exploit f =
      if detect_heartbleed f.reassembled_payload
      then Decision.once (heartbleed_key e.std f.id) (codes "heartbleed")
          (tagged (codes "Heartbleed") f)
      else if detect_smb_exploit f
      then Decision.once (smb_key e.std f.id) (codes "smb-exploit") (tagged (codes "SMB Exploit") f)
      else decide_content f

  unfoldable pub feed_hit : FlowData Double → Option (Decision Double)
  feed_hit f =
      let bad_ip =
        is_bad_ip e.feed (ip_to_str f.id.src_ip) || is_bad_ip e.feed (ip_to_str f.id.dst_ip) in
      if is_empty_feed e.feed
      then none
      else feed_decision e.is_forensic (match_signature e.feed f.normalized_payload) bad_ip f

  -- From the threat feed on.
  unfoldable pub decide_clear : FlowData Double → Decision Double
  decide_clear f = decision_or (feed_hit f) (decide_exploit f)

  unfoldable pub decide_tls : TlsVerdict × FlowData Double → Decision Double
  decide_tls (TlsVerdict.not_tls, f) = decide_clear f
  decide_tls (TlsVerdict.suspicious_tls, f) = Decision.pass (codes "tls-suspicious") f
  decide_tls (TlsVerdict.benign_tls, f) =
      if detect_heartbleed f.reassembled_payload
      then decide_clear f
      else Decision.drop (codes "tls-benign") f

  unfoldable pub normalized : FlowData Double → FlowData Double
  normalized f = record f { normalized_payload = normalize_payload f.reassembled_payload }

  -- A flow whose payload is not empty.
  unfoldable pub decide : FlowData Double → Decision Double
  decide f = decide_tls (inspect_tls r e.feed (normalized f))
