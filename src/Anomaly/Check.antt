-- ===== src/Anomaly/Check.antt =====
-- src/tcp_reassembly.cpp, `check_connection_anomalies`: the rules in their order.
use wirewolf.Base.{ℕ, ◌&&◌, Bool, List, [], ◌∷◌, leb, if◌then◌else◌, if-ind}
use wirewolf.Base.Doubles.{Doubles}
use wirewolf.Base.Maps.{find_or, put}
use wirewolf.Base.Text.{Bytes, codes}
use wirewolf.Anomaly.{SourceTracker, Monitor, Settings, Seen}
use wirewolf.Anomaly.Alerts.{
  emit_alert, emit_if, source_key, check_intel, check_port_scan, check_ssh, check_worm,
}
use wirewolf.Anomaly.Tracker.{no_tracker, is_spoofed, note_packet, note_beacon}

module _ (r : Doubles) (c : Settings) where
  open r use {Double, of_ℕ, sub, div, lt}

  -- More than ten SYNs a second.
  unfoldable pub is_flood : Seen Double → SourceTracker Double → Bool
  is_flood p t =
      let elapsed = sub p.timestamp t.first_syn_time in
      let total = of_ℕ t.total_syns in
      leb 5000 t.total_syns
      && lt (of_ℕ 10) (if lt (of_ℕ 0) elapsed then div total elapsed else total)

  unfoldable pub tracker_of : ℕ → Monitor Double → SourceTracker Double
  tracker_of src_ip m = find_or (no_tracker r) src_ip m.source_trackers_

  unfoldable pub check_spoofing : Seen Double → Monitor Double → Monitor Double
  check_spoofing p m =
      emit_if c p (is_spoofed p (tracker_of p.src_ip m)) (codes "IP Spoofing")
        (source_key c p 0xAAAA0005) m

  unfoldable pub note_in : Seen Double → Monitor Double → Monitor Double
  note_in p m = record m {
    source_trackers_ = put p.src_ip (note_packet p (tracker_of p.src_ip m)) m.source_trackers_;
    beacon_trackers_ = note_beacon c.std p m.beacon_trackers_;
  }

  -- The rules on the tracker `t`.
  unfoldable pub apply_rules : Seen Double → SourceTracker Double → Monitor Double → Monitor Double
  apply_rules p t m =
      emit_if c p (is_flood p t) (codes "DDoS") (source_key c p 0xAAAA0003) (
        check_worm c p t.port_dst_ips (check_ssh c p t (check_port_scan c p t (check_intel c p m))))

  unfoldable pub check_connection_anomalies : Seen Double → Monitor Double → Monitor Double
  check_connection_anomalies p m =
      let noted = note_in p (check_spoofing p m) in apply_rules p (tracker_of p.src_ip noted) noted

  -- What an alert and an update of the trackers keep, the rules keep.
  module _ (P : Monitor Double → Type 0)
      (emits : (p : Seen Double) (threat_type : Bytes) (key : ℕ) (m : Monitor Double)
        → P m
        → P (emit_alert c p threat_type key m)) where
    emit_if-ind :
        (p : Seen Double) (test : Bool) (threat_type : Bytes) (key : ℕ) (m : Monitor Double)
        → P m
        → P (emit_if c p test threat_type key m)
    unfolding emit_if
    emit_if-ind p test threat_type key m h = if-ind P test (λ _. emits p threat_type key m h) λ _. h

    check_worm-ind :
        (p : Seen Double) (ports : List (ℕ × List ℕ)) (m : Monitor Double)
        → P m
        → P (check_worm c p ports m)
    unfolding check_worm
    check_worm-ind p [] m h = h
    check_worm-ind p ((port, dsts) ∷ rest) m h = check_worm-ind p rest _ (emit_if-ind p _ _ _ m h)

    pub check_spoofing-ind : (p : Seen Double) (m : Monitor Double) → P m → P (check_spoofing p m)
    unfolding check_spoofing
    check_spoofing-ind p m h = emit_if-ind p _ _ _ m h

    pub check_port_scan-ind :
        (p : Seen Double) (t : SourceTracker Double) (m : Monitor Double)
        → P m
        → P (check_port_scan c p t (check_intel c p m))
    unfolding check_port_scan check_intel
    check_port_scan-ind p t m h = emit_if-ind p _ _ _ _ (emit_if-ind p _ _ _ m h)

    -- From behind the SSH rule on.
    pub later_rules-ind :
        (p : Seen Double) (t : SourceTracker Double) (m : Monitor Double)
        → P (check_ssh c p t (check_port_scan c p t (check_intel c p m)))
        → P (apply_rules p t m)
    unfolding apply_rules
    later_rules-ind p t m h = emit_if-ind p _ _ _ _ (check_worm-ind p t.port_dst_ips _ h)

    pub apply_rules-ind :
        (p : Seen Double) (t : SourceTracker Double) (m : Monitor Double)
        → P m
        → P (apply_rules p t m)
    unfolding check_ssh
    apply_rules-ind p t m h =
        later_rules-ind p t m (emit_if-ind p _ _ _ _ (check_port_scan-ind p t m h))

    module _ (notes : (p : Seen Double) (m : Monitor Double) → P m → P (note_in p m)) where
      pub check-ind :
          (p : Seen Double) (m : Monitor Double) → P m → P (check_connection_anomalies p m)
      unfolding check_connection_anomalies
      check-ind p m h = apply_rules-ind p _ _ (notes p _ (check_spoofing-ind p m h))
