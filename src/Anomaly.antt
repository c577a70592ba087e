-- ===== src/Anomaly.antt =====
-- src/tcp_reassembly.cpp and include/tcp_reassembly.hpp: what the reassembler keeps about the sources
-- of connections, and the alerts that it raises from that alone. An alert's text is left out.
use wirewolf.Base.{ℕ, Bool, List, []}
use wirewolf.Base.Text.{Bytes}
use wirewolf.Packet.{ConnectionId}
use wirewolf.Packet.Hash.{Hashes}
use wirewolf.ProxyDb.{ProxyDb}
use wirewolf.Reassembly.Blocklist.{Blocklist}
use wirewolf.Severity.{SeverityInfo}
pub mod Address
pub mod Tracker
pub mod Alerts
pub mod Check
pub mod Once
pub mod Beacons
pub mod Mailing
pub mod Caps

-- The sets are lists without repetitions, the maps lists of pairs.
pub record SourceTracker (Double : Type 0) : Type 0 where
  pub dst_ports : List ℕ
  pub port_syn_counts : List (ℕ × ℕ)
  pub total_syns : ℕ
  pub first_syn_time : Double
  pub port_dst_ips : List (ℕ × List ℕ)
  pub ext_dsts : List ℕ
  pub initial_ttl : ℕ

pub record BeaconTracker (Double : Type 0) : Type 0 where
  pub syn_timestamps : List Double
  pub src_ip : ℕ
  pub dst_ip : ℕ
  pub dst_port : ℕ

pub record ThreatAlert : Type 0 where
  pub connection : ConnectionId
  pub threat_type : Bytes
  pub severity_info : SeverityInfo

-- `alerts` are the calls of `threat_callback_`, the latest first.
pub record Monitor (Double : Type 0) : Type 0 where
  pub source_trackers_ : List (ℕ × SourceTracker Double)
  pub beacon_trackers_ : List (ℕ × BeaconTracker Double)
  pub alerted_anomalies_ : List ℕ
  pub blocklist : Blocklist
  pub alerts : List ThreatAlert

-- What stays the same while packets come in.
pub record Settings : Type 0 where
  pub inline_block : Bool
  pub has_callback : Bool
  pub proxy_db_ : ProxyDb
  pub std : Hashes

-- The arguments of `check_connection_anomalies`.
pub record Seen (Double : Type 0) : Type 0 where
  pub src_ip : ℕ
  pub dst_ip : ℕ
  pub dst_port : ℕ
  pub is_syn : Bool
  pub timestamp : Double
  pub ttl : ℕ
