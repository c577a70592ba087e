-- ===== src/Capture.antt =====
-- src/tcp_reassembly.cpp: the capture stage as a whole, `process_packet`, `process_ip_packet`, `run_pcap` and
-- `run_windivert`. What libpcap and WinDivert deliver is a parameter, as a sequence of events; a time
-- is what the source computes from it. The table's first entry is the list's.
use wirewolf.Anomaly.{SourceTracker, ThreatAlert, Monitor, Settings, Seen}
use wirewolf.Anomaly.Address.{src_local}
use wirewolf.Anomaly.Beacons.{check_beaconing_at_flush}
use wirewolf.Anomaly.Caps.{evict_stale_state}
use wirewolf.Anomaly.Check.{check_connection_anomalies}
use wirewolf.Anomaly.Mailing.{check_mass_mailing_at_flush}
use wirewolf.Anomaly.Tracker.{no_tracker}
use wirewolf.Base.{
  ℕ, ◌+◌, Bool, true, false, not, ◌&&◌, List, [], ◌∷◌, ◌++◌, Option, none, some, drop, length, ltb,
  leb, ◌==◌, if◌then◌else◌,
}
use wirewolf.Base.Bytes.{be16_at}
use wirewolf.Base.Doubles.{Doubles}
use wirewolf.Base.Maps.{find_or, put}
use wirewolf.Base.Text.{Bytes, codes}
use wirewolf.Packet.{ConnectionId, FlowData}
use wirewolf.Packet.Hash.{Hashes, combine_all}
use wirewolf.Reassembly.Behavior.{Behavior, Scorer}
use wirewolf.Reassembly.Blocklist.{contains, insert, is_blocked, block_source}
use wirewolf.Reassembly.Complete.{check_complete_flows, flush_all_flows}
use wirewolf.Reassembly.Expiry.{Suspects}
use wirewolf.Reassembly.Header.{TcpPacket, Parsed, get_syn, parse_ip}
use wirewolf.Reassembly.Table.{Connections, Table, id_of, track}
use wirewolf.Severity.{severity_for_threat}
pub mod Shrinks
pub mod Safe
pub mod Run
pub mod Divert

module _ (r : Doubles) where
  open r use {Double}

  -- What does not change while packets come in.
  pub record Fixed : Type 0 where
    pub settings : Settings
    pub scorer : Scorer r
    pub sqrt : Double → Double
    pub max_flow_payload_bytes : ℕ

  -- `pushed` are the calls of `push` on the output queue, the first one first.
  pub record Engine : Type 0 where
    pub table : Table Double
    pub monitor : Monitor Double
    pub behavior : Behavior r
    pub last_eviction_time : Double
    pub pushed : List (FlowData Double)

  module _ (c : Fixed) where
    abbrev evasion_key : ConnectionId → ℕ
    evasion_key cid =
        let std = c.settings.std in
        combine_all 0 (
          std.of_u32 cid.src_ip
          ∷ std.of_u32 cid.dst_ip
          ∷ std.of_u16 cid.src_port
          ∷ std.of_u16 cid.dst_port
          ∷ std.of_size 0xEEEE0001
          ∷ [])

    abbrev evasion_alert : ConnectionId → ThreatAlert
    evasion_alert cid = record {
      connection = cid;
      threat_type = codes "TCP Evasion";
      severity_info = severity_for_threat (codes "TCP Evasion");
    }

    abbrev raise_evasion : ConnectionId → Monitor Double → Monitor Double
    raise_evasion cid m = record m {
      blocklist =
          if c.settings.inline_block then block_source cid.src_ip m.blocklist else m.blocklist;
      alerts = evasion_alert cid ∷ m.alerts;
    }

    -- The alert of an overlap with other bytes.
    unfoldable pub emit_evasion : ConnectionId → Monitor Double → Monitor Double
    emit_evasion cid m =
        let key = evasion_key cid in
        let known = record m { alerted_anomalies_ = insert key m.alerted_anomalies_ } in
        if not (contains m.alerted_anomalies_ key) && c.settings.has_callback
        then raise_evasion cid known
        else known

    -- The destination of a UDP packet joins its source's external footprint.
    unfoldable pub note_udp : ℕ → ℕ → Monitor Double → Monitor Double
    note_udp saddr daddr m =
        let tracker = find_or (no_tracker r) saddr m.source_trackers_ in
        if src_local daddr then m else record m {
          source_trackers_ =
              put saddr (record tracker { ext_dsts = insert daddr tracker.ext_dsts })
                m.source_trackers_;
        }

    abbrev seen_of : Double → TcpPacket → Seen Double
    seen_of now t = record {
      src_ip = t.saddr;
      dst_ip = t.daddr;
      dst_port = t.dest;
      is_syn = get_syn t;
      timestamp = now;
      ttl = t.ttl;
    }

    -- A TCP packet: the anomaly checks, then the connection.
    unfoldable pub process_tcp : Double → TcpPacket → Engine → Engine
    process_tcp now t e =
        let checked = check_connection_anomalies r c.settings (seen_of now t) e.monitor in
        let (table, alarm) = track r now t e.table in
        record e {
          table = table;
          monitor = if alarm then emit_evasion (id_of t) checked else checked;
        }

    unfoldable pub process : Double → Parsed → Engine → Engine
    process now Parsed.short e = e
    process now (Parsed.ignored saddr) e = e
    process now (Parsed.udp saddr daddr) e = record e { monitor = note_udp saddr daddr e.monitor }
    process now (Parsed.tcp t) e = process_tcp now t e

    abbrev or_unread : Option Parsed → Parsed
    or_unread none = Parsed.short
    or_unread (some p) = p

    -- `process_ip_packet`; the parser reads every packet.
    unfoldable pub process_ip_packet : Double → Bytes → Engine → Engine
    process_ip_packet now ip_packet e = process now (or_unread (parse_ip ip_packet)) e

    -- What it returns.
    abbrev pub source_of : Parsed → ℕ
    source_of Parsed.short = 0
    source_of (Parsed.ignored saddr) = saddr
    source_of (Parsed.udp saddr daddr) = saddr
    source_of (Parsed.tcp t) = t.saddr

    abbrev is_ip : Option ℕ → Bool
    is_ip none = false
    is_ip (some ether_type) = ether_type == 0x0800

    -- A frame of the capture, with its Ethernet header.
    unfoldable pub process_packet : Double → Bytes → Engine → Engine
    process_packet now packet e =
        if ltb (length packet) 14
        then e
        else if not (is_ip (be16_at packet 12))
        then e
        else process_ip_packet now (drop 14 packet) e

    unfoldable pub process_packets : List (Double × Bytes) → Engine → Engine
    process_packets [] e = e
    process_packets ((now, packet) ∷ ps) e = process_packets ps (process_packet now packet e)

    unfoldable pub complete : Engine → Engine
    complete e =
        let swept =
          check_complete_flows r c.scorer c.max_flow_payload_bytes e.table.connections e.behavior in
        record e {
          table = record e.table { connections = swept.connections };
          behavior = swept.behavior;
          pushed = e.pushed ++ swept.flows;
        }

    unfoldable pub evict : Double → Engine → Engine
    evict now e =
        let suspects : Suspects = record {
          behavioral_ready_ = c.scorer.behavioral_ready_;
          beh_suspicious_ = e.behavior.beh_suspicious_;
        } in
        let (evicted, monitor) =
          evict_stale_state r c.scorer.hash suspects now e.last_eviction_time e.table.connections
            e.monitor in
        record e {
          table = record e.table { connections = evicted.connections };
          monitor = monitor;
          last_eviction_time = evicted.last_eviction_time;
          pushed = e.pushed ++ evicted.flows;
        }

    abbrev evict_by : Connections Double → Engine → Engine
    evict_by [] e = e
    evict_by ((cid, s) ∷ rest) e = evict s.last_packet_time e

    -- Behind each batch. The time of the eviction is that of the first connection's last packet.
    unfoldable pub maintain : Engine → Engine
    maintain e = let swept = complete e in evict_by swept.table.connections swept

    unfoldable pub flush : Engine → Engine
    flush e =
        let beaconed = check_beaconing_at_flush r c.sqrt c.settings e.monitor in
        let swept =
          flush_all_flows r c.scorer c.max_flow_payload_bytes e.table.connections e.behavior in
        record e {
          table = record e.table { connections = swept.connections };
          monitor = check_mass_mailing_at_flush c.settings beaconed;
          behavior = swept.behavior;
          pushed = e.pushed ++ swept.flows;
        }

-- What a call of `pcap_dispatch` gives: a batch that is not empty, nothing, or an end of the loop.
pub data Dispatch (Double : Type 0) : Type 0 where
  packets : (Double × Bytes) → List (Double × Bytes) → Dispatch Double
  nothing failed stopped : Dispatch Double

module _ (r : Doubles) (c : Fixed r) where
  open r use {Double}

  unfoldable pub run_pcap : Bool → List (Dispatch Double) → Engine r → Engine r
  run_pcap is_offline [] e = e
  run_pcap is_offline (Dispatch.packets p ps ∷ ds) e =
      run_pcap is_offline ds (maintain r c (process_packets r c (p ∷ ps) e))
  run_pcap is_offline (Dispatch.failed ∷ ds) e = e
  run_pcap is_offline (Dispatch.stopped ∷ ds) e = e
  run_pcap true (Dispatch.nothing ∷ ds) e = flush r c e
  run_pcap false (Dispatch.nothing ∷ ds) e = run_pcap false ds (maintain r c e)

  -- The inline loop: the engine, the packets since the last maintenance, those held back, and those
  -- sent on, the latest first.
  pub record Inline : Type 0 where
    pub engine : Engine r
    pub since_maintenance : ℕ
    pub blocked_packet_count_ : ℕ
    pub sent : List Bytes

  unfoldable pub source_in : Bytes → ℕ
  source_in packet =
      if leb 20 (length packet) then source_of r c (or_unread r c (parse_ip packet)) else 0

  unfoldable pub divert : Double → Bytes → Inline → Inline
  divert now packet s =
      let e =
        if leb 20 (length packet) then process_ip_packet r c now packet s.engine else s.engine in
      let src_ip = source_in packet in
      let drops =
        c.settings.inline_block && (not (src_ip == 0) && is_blocked e.monitor.blocklist src_ip) in
      let due = leb 256 (s.since_maintenance + 1) in
      record {
        engine = if due then maintain r c e else e;
        since_maintenance = if due then 0 else s.since_maintenance + 1;
        blocked_packet_count_ =
            if drops then s.blocked_packet_count_ + 1 else s.blocked_packet_count_;
        sent = if drops then s.sent else (packet ∷ s.sent);
      }
