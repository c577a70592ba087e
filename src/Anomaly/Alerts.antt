-- ===== src/Anomaly/Alerts.antt =====
-- src/tcp_reassembly.cpp, `check_connection_anomalies`: `emit_alert`, and the rules that call it.
use wirewolf.Base.{
  ℕ, Bool, not, ◌&&◌, ◌||◌, List, [], ◌∷◌, Option, none, some, length, leb, ◌==◌, if◌then◌else◌,
}
use wirewolf.Base.Maps.{find_or}
use wirewolf.Base.Text.{Bytes, codes, eq_bytes}
use wirewolf.Base.Words.{bswap16}
use wirewolf.Anomaly.{SourceTracker, ThreatAlert, Monitor, Settings, Seen}
use wirewolf.Anomaly.Address.{is_priv, is_flagged, ntohl}
use wirewolf.Packet.Hash.{combine_all}
use wirewolf.ProxyDb.{Info, lookup}
use wirewolf.Reassembly.Blocklist.{contains, block_source}
use wirewolf.Severity.{severity_for_threat}

module _ {Double : Type 0} (c : Settings) (p : Seen Double) where
  abbrev alert_of : Bytes → ThreatAlert
  alert_of threat_type = record {
    connection = record {
      src_ip = p.src_ip;
      dst_ip = p.dst_ip;
      src_port = 0;
      dst_port = p.dst_port;
    };
    threat_type = threat_type;
    severity_info = severity_for_threat threat_type;
  }

  -- The alert itself, with the block of inline mode.
  unfoldable pub raise : Bytes → Monitor Double → Monitor Double
  raise threat_type m = record m {
    blocklist = if c.inline_block then block_source p.src_ip m.blocklist else m.blocklist;
    alerts = alert_of threat_type ∷ m.alerts;
  }

  abbrev remember : ℕ → Monitor Double → Monitor Double
  remember key m = record m { alerted_anomalies_ = key ∷ m.alerted_anomalies_ }

  unfoldable pub emit_alert : Bytes → ℕ → Monitor Double → Monitor Double
  emit_alert threat_type key m =
      if contains m.alerted_anomalies_ key
      then m
      else if not c.has_callback
      then remember key m
      else raise threat_type (remember key m)

  unfoldable pub emit_if : Bool → Bytes → ℕ → Monitor Double → Monitor Double
  emit_if test threat_type key m = if test then emit_alert threat_type key m else m

  -- The keys of a rule that is alerted once for each source.
  unfoldable pub source_key : ℕ → ℕ
  source_key tag = combine_all 0 (c.std.of_u32 p.src_ip ∷ c.std.of_size tag ∷ [])

  unfoldable pub threat_key : ℕ
  threat_key =
      combine_all 0 (c.std.of_u32 p.src_ip ∷ c.std.of_u32 p.dst_ip ∷ c.std.of_size 0xDDDD0001 ∷ [])

  unfoldable pub worm_key : ℕ → ℕ
  worm_key port =
      combine_all 0 (c.std.of_u32 p.src_ip ∷ c.std.of_size port ∷ c.std.of_size 0xAAAA0004 ∷ [])

  unfoldable pub external_end : ℕ
  external_end =
      if not (is_priv p.dst_ip) then p.dst_ip else if not (is_priv p.src_ip) then p.src_ip else 0

  unfoldable pub type_of_threat : Option Info → Bytes
  type_of_threat none = codes "Malicious Source"
  type_of_threat (some info) =
      if eq_bytes info.threat (codes "BOTNET")
      then codes "Botnet Communication"
      else if eq_bytes info.threat (codes "SCANNER")
      then codes "Vulnerability Scanning"
      else if eq_bytes info.threat (codes "SPAM")
      then codes "Spam Bot"
      else codes "Malicious Source"

  unfoldable pub check_intel : Monitor Double → Monitor Double
  check_intel m =
      let info = lookup c.proxy_db_ (ntohl external_end) in
      emit_if (not (external_end == 0) && is_flagged info) (type_of_threat info) threat_key m

  unfoldable pub check_port_scan : SourceTracker Double → Monitor Double → Monitor Double
  check_port_scan t =
      emit_if (leb 50 (length t.dst_ports)) (codes "Port Scan") (source_key 0xAAAA0001)

  unfoldable pub check_ssh : SourceTracker Double → Monitor Double → Monitor Double
  check_ssh t =
      emit_if (leb 30 (find_or 0 (bswap16 22) t.port_syn_counts)) (codes "SSH Brute Force")
        (source_key 0xAAAA0002)

  unfoldable pub is_web_port : ℕ → Bool
  is_web_port host_port = host_port == 80 || host_port == 443 || host_port == 8080

  -- The loop over the ports.
  unfoldable pub check_worm : List (ℕ × List ℕ) → Monitor Double → Monitor Double
  check_worm [] m = m
  check_worm ((port, dsts) ∷ rest) m = check_worm rest (
      emit_if (not (is_web_port (bswap16 port)) && leb 100 (length dsts))
        (codes "Worm Propagation Scan") (worm_key port) m)
