-- ===== src/Anomaly/Tracker.antt =====
-- src/tcp_reassembly.cpp, `check_connection_anomalies`: how a packet changes the trackers.
use wirewolf.Base.{ℕ, ◌+◌, Bool, not, ◌&&◌, List, [], ◌∷◌, ◌++◌, ltb, leb, ◌==◌, if◌then◌else◌}
use wirewolf.Base.Doubles.{Doubles}
use wirewolf.Base.Maps.{find_or, put}
use wirewolf.Base.Words.{bswap16}
use wirewolf.Anomaly.{SourceTracker, BeaconTracker, Seen}
use wirewolf.Anomaly.Address.{is_private, src_local}
use wirewolf.Packet.Hash.{Hashes, combine_all}
use wirewolf.Reassembly.Blocklist.{insert}

unfoldable pub estimate_initial_ttl : ℕ → ℕ
estimate_initial_ttl observed =
    if leb observed 64 then 64 else if leb observed 128 then 128 else 255

module _ (r : Doubles) where
  open r use {Double, of_ℕ}

  abbrev pub no_tracker : SourceTracker Double
  no_tracker = record {
    dst_ports = [];
    port_syn_counts = [];
    total_syns = 0;
    first_syn_time = of_ℕ 0;
    port_dst_ips = [];
    ext_dsts = [];
    initial_ttl = 0;
  }

abbrev is_well_known : ℕ → Bool
is_well_known dst_port = ltb (bswap16 dst_port) 1024

module _ {Double : Type 0} where
  unfoldable pub is_spoofed : Seen Double → SourceTracker Double → Bool
  is_spoofed p t =
      ltb 0 p.ttl
      && src_local p.src_ip
      && not (t.initial_ttl == 0)
      && not (estimate_initial_ttl p.ttl == t.initial_ttl)

  unfoldable pub note_ttl : Seen Double → SourceTracker Double → SourceTracker Double
  note_ttl p t =
      if ltb 0 p.ttl && src_local p.src_ip
      then record t { initial_ttl = estimate_initial_ttl p.ttl }
      else t

  unfoldable pub note_syn : Seen Double → SourceTracker Double → SourceTracker Double
  note_syn p t = record {
    first_syn_time = if t.total_syns == 0 then p.timestamp else t.first_syn_time;
    total_syns = t.total_syns + 1;
    dst_ports = if is_well_known p.dst_port then insert p.dst_port t.dst_ports else t.dst_ports;
    port_syn_counts = put p.dst_port (find_or 0 p.dst_port t.port_syn_counts + 1) t.port_syn_counts;
    port_dst_ips =
        if is_well_known p.dst_port
        then put p.dst_port (insert p.dst_ip (find_or [] p.dst_port t.port_dst_ips)) t.port_dst_ips
        else t.port_dst_ips;
    ext_dsts = if is_private p.dst_ip then t.ext_dsts else insert p.dst_ip t.ext_dsts;
    initial_ttl = t.initial_ttl;
  }

  unfoldable pub note_packet : Seen Double → SourceTracker Double → SourceTracker Double
  note_packet p t = if p.is_syn then note_syn p (note_ttl p t) else note_ttl p t

  -- The tracker of a key that was not there yet gets the addresses of its first packet.
  unfoldable pub add_timestamp : Seen Double → BeaconTracker Double → BeaconTracker Double
  add_timestamp p bt = record bt { syn_timestamps = bt.syn_timestamps ++ (p.timestamp ∷ []) }

  abbrev new_beacon : Seen Double → BeaconTracker Double
  new_beacon p = record {
    syn_timestamps = [];
    src_ip = p.src_ip;
    dst_ip = p.dst_ip;
    dst_port = p.dst_port;
  }

  unfoldable pub beacon_key : Hashes → Seen Double → ℕ
  beacon_key std p =
      combine_all 0 (std.of_u32 p.src_ip ∷ std.of_u32 p.dst_ip ∷ std.of_size p.dst_port ∷ [])

  unfoldable pub note_beacon :
      Hashes → Seen Double → List (ℕ × BeaconTracker Double) → List (ℕ × BeaconTracker Double)
  note_beacon std p beacons =
      let key = beacon_key std p in
      if p.is_syn && not (is_private p.dst_ip)
      then put key (add_timestamp p (find_or (new_beacon p) key beacons)) beacons
      else beacons
