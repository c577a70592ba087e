-- ===== src/Capture/Safe.antt =====
-- src/tcp_reassembly.cpp: the connection table and the blocklist while packets come in.
use wirewolf.Anomaly.{Monitor}
use wirewolf.Anomaly.Caps.{cap_trackers, evict_stale_state}
use wirewolf.Anomaly.Once.{IsSpared, block_source-IsSpared, check-IsSpared}
use wirewolf.Base.{ℕ, ◌≤◌, not, ◌&&◌, List, [], ◌∷◌, length, drop, ltb, if-ind, arith}
use wirewolf.Base.Bytes.{be16_at}
use wirewolf.Base.Doubles.{Doubles}
use wirewolf.Base.Text.{Bytes}
use wirewolf.Packet.{ConnectionId}
use wirewolf.Reassembly.Blocklist.{contains}
use wirewolf.Reassembly.Capacity.{track-bounded}
use wirewolf.Reassembly.Header.{TcpPacket, Parsed, parse_ip}
use wirewolf.Reassembly.Table.{Connections, max_connections, track, id_of}
use wirewolf.Capture.Shrinks.{length-check_complete_flows, length-evict_stale_connections}
use wirewolf.Capture.{
  Fixed, Engine, emit_evasion, note_udp, process_tcp, process, process_ip_packet, process_packet,
  process_packets, complete, evict, evict_by, maintain, or_unread, is_ip,
}

module _ (r : Doubles) (c : Fixed r) where
  open r use {Double, of_ℕ, sub, lt}

  -- The table is within its capacity, and the allowlisted source is not blocked.
  pub record IsSafe (ip : ℕ) (e : Engine r) : Type 0 where
    pub few_connections : length e.table.connections ≤ max_connections
    pub spared : IsSpared ip e.monitor.blocklist

  emit_evasion-IsSpared :
      (ip : ℕ) (cid : ConnectionId) (m : Monitor Double)
      → IsSpared ip m.blocklist
      → IsSpared ip (emit_evasion r c cid m).blocklist
  unfolding emit_evasion
  emit_evasion-IsSpared ip cid m h =
      if-ind (λ (n : Monitor Double). IsSpared ip n.blocklist)
        (not (contains m.alerted_anomalies_ _) && c.settings.has_callback)
        (λ told.
          if-ind (IsSpared ip) c.settings.inline_block
            (λ _. block_source-IsSpared cid.src_ip ip m.blocklist h) λ _. h)
        λ _. h

  process_tcp-IsSafe :
      (ip : ℕ) (now : Double) (t : TcpPacket) (e : Engine r)
      → IsSafe ip e
      → IsSafe ip (process_tcp r c now t e)
  unfolding process_tcp
  process_tcp-IsSafe ip now t e h =
      let checked = check-IsSpared r c.settings _ e.monitor ip h.spared in
      record {
        few_connections = track-bounded r now t e.table h.few_connections;
        spared =
            if-ind (λ (n : Monitor Double). IsSpared ip n.blocklist) (track r now t e.table).1
              (λ _. emit_evasion-IsSpared ip (id_of t) _ checked) λ _. checked;
      }

  note_udp-IsSpared :
      (ip saddr daddr : ℕ) (m : Monitor Double)
      → IsSpared ip m.blocklist
      → IsSpared ip (note_udp r c saddr daddr m).blocklist
  unfolding note_udp
  note_udp-IsSpared ip saddr daddr m h =
      if-ind (λ (n : Monitor Double). IsSpared ip n.blocklist) _ (λ _. h) λ _. h

  pub process-IsSafe :
      (ip : ℕ) (now : Double) (p : Parsed) (e : Engine r)
      → IsSafe ip e
      → IsSafe ip (process r c now p e)
  unfolding process
  process-IsSafe ip now Parsed.short e h = h
  process-IsSafe ip now (Parsed.ignored saddr) e h = h
  process-IsSafe ip now (Parsed.udp saddr daddr) e h = record {
    few_connections = h.few_connections;
    spared = note_udp-IsSpared ip saddr daddr e.monitor h.spared;
  }
  process-IsSafe ip now (Parsed.tcp t) e h = process_tcp-IsSafe ip now t e h

  process_packet-IsSafe :
      (ip : ℕ) (now : Double) (packet : Bytes) (e : Engine r)
      → IsSafe ip e
      → IsSafe ip (process_packet r c now packet e)
  unfolding process_packet process_ip_packet
  process_packet-IsSafe ip now packet e h =
      if-ind (IsSafe ip) (ltb (length packet) 14) (λ _. h)
        λ _.
          if-ind (IsSafe ip) (not (is_ip r c (be16_at packet 12))) (λ _. h)
            λ _. process-IsSafe ip now (or_unread r c (parse_ip (drop 14 packet))) e h

  pub process_packets-IsSafe :
      (ip : ℕ) (ps : List (Double × Bytes)) (e : Engine r)
      → IsSafe ip e
      → IsSafe ip (process_packets r c ps e)
  unfolding process_packets
  process_packets-IsSafe ip [] e h = h
  process_packets-IsSafe ip ((now, packet) ∷ ps) e h =
      process_packets-IsSafe ip ps _ (process_packet-IsSafe ip now packet e h)

  evict-IsSafe : (ip : ℕ) (now : Double) (e : Engine r) → IsSafe ip e → IsSafe ip (evict r c now e)
  unfolding evict evict_stale_state cap_trackers
  evict-IsSafe ip now e h = record {
    few_connections = omega (
      arith,
      h.few_connections,
      length-evict_stale_connections r c.scorer _ now e.last_eviction_time e.table.connections,
    );
    spared =
        if-ind (λ (n : Monitor Double). IsSpared ip n.blocklist)
          (lt (sub now e.last_eviction_time) (of_ℕ 60)) (λ _. h.spared) λ _. h.spared;
  }

  evict_by-IsSafe :
      (ip : ℕ) (table : Connections Double) (e : Engine r)
      → IsSafe ip e
      → IsSafe ip (evict_by r c table e)
  evict_by-IsSafe ip [] e h = h
  evict_by-IsSafe ip ((cid, s) ∷ rest) e h = evict-IsSafe ip s.last_packet_time e h

  pub maintain-IsSafe : (ip : ℕ) (e : Engine r) → IsSafe ip e → IsSafe ip (maintain r c e)
  unfolding maintain complete
  maintain-IsSafe ip e h = evict_by-IsSafe ip _ (complete r c e) (record {
    few_connections = omega (
      arith,
      h.few_connections,
      length-check_complete_flows r c.scorer c.max_flow_payload_bytes e.table.connections
          e.behavior,
    );
    spared = h.spared;
  })
