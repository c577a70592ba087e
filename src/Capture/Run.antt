-- ===== src/Capture/Run.antt =====
-- src/tcp_reassembly.cpp, `run_pcap`: the whole of a capture, live or from a file.
use wirewolf.Anomaly.{BeaconTracker, SourceTracker, Monitor}
use wirewolf.Anomaly.Beacons.{is_beacon, alert_beacon, check_beacons, check_beaconing_at_flush}
use wirewolf.Anomaly.Mailing.{
  is_spam_bot, alert_footprint, check_mailers, check_mass_mailing_at_flush,
}
use wirewolf.Anomaly.Once.{IsSpared}
use wirewolf.Base.{ℕ, ◌≤◌, ◌≡◌, Bool, true, false, not, List, [], ◌∷◌, length, if-ind, arith}
use wirewolf.Base.Doubles.{Doubles}
use wirewolf.Capture.{Fixed, Engine, flush, Dispatch, run_pcap}
use wirewolf.Capture.Safe.{IsSafe, process_packets-IsSafe, maintain-IsSafe}
use wirewolf.Reassembly.Blocklist.{contains}
use wirewolf.Reassembly.Flush.{flush_all-conserves}
use wirewolf.Reassembly.Table.{max_connections}

module _ (r : Doubles) (c : Fixed r) where
  open r use {Double}

  length-none : {A : Type 0} (xs : List A) → xs ≡ [] → length xs ≤ max_connections
  length-none xs h = rw h (omega arith)

  check_beacons-IsSpared :
      (ip : ℕ) (beacons : List (ℕ × BeaconTracker Double)) (m : Monitor Double)
      → IsSpared ip m.blocklist
      → IsSpared ip (check_beacons r c.sqrt c.settings beacons m).blocklist
  unfolding check_beacons alert_beacon
  check_beacons-IsSpared ip [] m h = h
  check_beacons-IsSpared ip ((key, bt) ∷ rest) m h =
      let P = λ (n : Monitor Double). IsSpared ip n.blocklist in
      check_beacons-IsSpared ip rest _ (
        if-ind P (is_beacon r c.sqrt c.settings bt)
          (λ _.
            if-ind P (contains m.alerted_anomalies_ _) (λ _. h)
              λ _. if-ind P (not c.settings.has_callback) (λ _. h) λ _. h)
          λ _. h)

  alert_footprint-IsSpared :
      (ip src : ℕ) (ds : List ℕ) (m : Monitor Double)
      → IsSpared ip m.blocklist
      → IsSpared ip (alert_footprint src ds m).blocklist
  unfolding alert_footprint
  alert_footprint-IsSpared ip src [] m h = h
  alert_footprint-IsSpared ip src (d ∷ ds) m h = alert_footprint-IsSpared ip src ds _ h

  check_mailers-IsSpared :
      (ip : ℕ) (sources : List (ℕ × SourceTracker Double)) (m : Monitor Double)
      → IsSpared ip m.blocklist
      → IsSpared ip (check_mailers sources m).blocklist
  unfolding check_mailers
  check_mailers-IsSpared ip [] m h = h
  check_mailers-IsSpared ip ((src, tr) ∷ rest) m h = check_mailers-IsSpared ip rest _ (
      if-ind (λ (n : Monitor Double). IsSpared ip n.blocklist) (is_spam_bot tr)
        (λ _. alert_footprint-IsSpared ip src tr.ext_dsts m h) λ _. h)

  connections-flush : (e : Engine r) → (flush r c e).table.connections ≡ []
  unfolding flush
  connections-flush e =
      (flush_all-conserves r c.scorer c.max_flow_payload_bytes e.table.connections e.behavior).1

  flush-IsSafe : (ip : ℕ) (e : Engine r) → IsSafe r c ip e → IsSafe r c ip (flush r c e)
  unfolding flush check_beaconing_at_flush check_mass_mailing_at_flush
  flush-IsSafe ip e h =
      let beaconed = check_beacons-IsSpared ip e.monitor.beacon_trackers_ e.monitor h.spared in
      record {
        few_connections = length-none _ (connections-flush e);
        spared =
            if-ind (λ (n : Monitor Double). IsSpared ip n.blocklist) c.settings.has_callback
              (λ _. check_mailers-IsSpared ip _ _ beaconed) λ _. beaconed;
      }

-- Whatever the capture delivers, live or from a file: the connection table stays within its capacity,
-- and a source on the allowlist that is not blocked at the start is never blocked.
pub run_pcap-IsSafe :
    (r : Doubles) (c : Fixed r) (ip : ℕ) (is_offline : Bool) (ds : List (Dispatch r.Double))
    (e : Engine r)
    → IsSafe r c ip e
    → IsSafe r c ip (run_pcap r c is_offline ds e)
unfolding run_pcap
run_pcap-IsSafe r c ip is_offline [] e h = h
run_pcap-IsSafe r c ip is_offline (Dispatch.packets p ps ∷ ds) e h =
    run_pcap-IsSafe r c ip is_offline ds _
      (maintain-IsSafe r c ip _ (process_packets-IsSafe r c ip (p ∷ ps) e h))
run_pcap-IsSafe r c ip is_offline (Dispatch.failed ∷ ds) e h = h
run_pcap-IsSafe r c ip is_offline (Dispatch.stopped ∷ ds) e h = h
run_pcap-IsSafe r c ip true (Dispatch.nothing ∷ ds) e h = flush-IsSafe r c ip e h
run_pcap-IsSafe r c ip false (Dispatch.nothing ∷ ds) e h =
    run_pcap-IsSafe r c ip false ds _ (maintain-IsSafe r c ip e h)
