-- ===== src/Anomaly/Beacons.antt =====
-- src/tcp_reassembly.cpp, `check_beaconing_at_flush`: regular connections at the end of a capture.
-- The square root is a parameter.
use wirewolf.Base.{
  ℕ, Bool, not, ◌&&◌, ◌||◌, List, [], ◌∷◌, length, ltb, leb, ◌==◌, if◌then◌else◌, if-ind, arith,
}
use wirewolf.Base.Doubles.{Doubles}
use wirewolf.Base.Text.{codes}
use wirewolf.Base.Words.{bswap16}
use wirewolf.Anomaly.{BeaconTracker, ThreatAlert, Monitor, Settings}
use wirewolf.Anomaly.Address.{is_flagged, ntohl}
use wirewolf.Anomaly.Once.{IsOnce, IsDistinct}
use wirewolf.Packet.Hash.{hash_combine}
use wirewolf.ProxyDb.{lookup}
use wirewolf.Reassembly.Blocklist.{contains}
use wirewolf.Severity.{SeverityInfo, severity_for_threat}
use wirewolf.Severity.Table.{Severity}

unfoldable pub is_c2_port : ℕ → Bool
is_c2_port port =
    port == 8043 || port == 8443 || port == 4443 || port == 8080 || port == 9090 || port == 1443

unfoldable pub is_standard_web : ℕ → Bool
is_standard_web port = port == 80 || port == 443 || port == 8080

module _ (r : Doubles) where
  open r use {Double, of_ℕ, add, sub, mul, div, lt}

  unfoldable pub intervals_from : Double → List Double → List Double
  intervals_from t [] = []
  intervals_from t (u ∷ us) = sub u t ∷ intervals_from u us

  unfoldable pub intervals_of : List Double → List Double
  intervals_of [] = []
  intervals_of (t ∷ ts) = intervals_from t ts

  unfoldable pub sum_of : List Double → Double → Double
  sum_of [] acc = acc
  sum_of (x ∷ xs) acc = sum_of xs (add acc x)

  unfoldable pub sq_sum_of : Double → List Double → Double → Double
  sq_sum_of mean [] acc = acc
  sq_sum_of mean (x ∷ xs) acc = sq_sum_of mean xs (add acc (mul (sub x mean) (sub x mean)))

  unfoldable pub mean_of : List Double → Double
  mean_of intervals = div (sum_of intervals (of_ℕ 0)) (of_ℕ (length intervals))

  unfoldable pub is_in_range : Double → Bool
  is_in_range mean = not (lt mean (of_ℕ 15) || lt (of_ℕ 7200) mean)

  -- The coefficient of variation.
  unfoldable pub cv_of : (sqrt : Double → Double) → List Double → Double
  cv_of sqrt intervals =
      let mean = mean_of intervals in
      let variance = div (sq_sum_of mean intervals (of_ℕ 0)) (of_ℕ (length intervals)) in
      if lt (of_ℕ 0) mean then div (sqrt variance) mean else of_ℕ 999

  unfoldable pub is_regular : ℕ → ℕ → Double → Bool
  is_regular host_port connections cv =
      let threshold =
        if is_standard_web host_port then div (of_ℕ 35) (of_ℕ 100) else div (of_ℕ 50) (of_ℕ 100) in
      let high_volume =
        not (is_standard_web host_port) && leb 50 connections && lt cv (div (of_ℕ 15) (of_ℕ 10)) in
      not (lt threshold cv && not high_volume)

  module _ (sqrt : Double → Double) (c : Settings) where
    -- Polling of a web port counts only where the proxy database names the host.
    unfoldable pub is_suppressed : BeaconTracker Double → Bool
    is_suppressed bt =
        (bswap16 bt.dst_port == 80 || bswap16 bt.dst_port == 443)
        && not (is_flagged (lookup c.proxy_db_ (ntohl bt.dst_ip)))

    unfoldable pub is_beacon : BeaconTracker Double → Bool
    is_beacon bt =
        let intervals = intervals_of bt.syn_timestamps in
        not (ltb (length bt.syn_timestamps) 8)
        && is_in_range (mean_of intervals)
        && is_regular (bswap16 bt.dst_port) (length bt.syn_timestamps) (cv_of sqrt intervals)
        && not (is_suppressed bt)

    unfoldable pub beacon_severity : ℕ → SeverityInfo
    beacon_severity host_port =
        if is_c2_port host_port
        then severity_for_threat (codes "C2 Beaconing")
        else record { level = Severity.high; cvss = 87 }

    abbrev beacon_alert : BeaconTracker Double → ThreatAlert
    beacon_alert bt = record {
      connection = record {
        src_ip = bt.src_ip;
        dst_ip = bt.dst_ip;
        src_port = 0;
        dst_port = bt.dst_port;
      };
      threat_type = codes "C2 Beaconing";
      severity_info = beacon_severity (bswap16 bt.dst_port);
    }

    unfoldable pub alert_beacon : ℕ → BeaconTracker Double → Monitor Double → Monitor Double
    alert_beacon key bt m =
        let dedup_key = hash_combine key (c.std.of_size 0xBBBB0001) in
        let seen = record m { alerted_anomalies_ = dedup_key ∷ m.alerted_anomalies_ } in
        if contains m.alerted_anomalies_ dedup_key
        then m
        else if not c.has_callback
        then seen
        else record seen { alerts = beacon_alert bt ∷ seen.alerts }

    -- The loop over the trackers.
    unfoldable pub check_beacons : List (ℕ × BeaconTracker Double) → Monitor Double → Monitor Double
    check_beacons [] m = m
    check_beacons ((key, bt) ∷ rest) m =
        check_beacons rest (if is_beacon bt then alert_beacon key bt m else m)

    unfoldable pub check_beaconing_at_flush : Monitor Double → Monitor Double
    check_beaconing_at_flush m = check_beacons m.beacon_trackers_ m

    alert_beacon-IsOnce :
        (key : ℕ) (bt : BeaconTracker Double) (m : Monitor Double)
        → IsOnce c m
        → IsOnce c (alert_beacon key bt m)
    unfolding alert_beacon IsDistinct
    alert_beacon-IsOnce key bt m h =
        if-ind (IsOnce c) (contains m.alerted_anomalies_ _) (λ _. h)
          λ new.
            if-ind (IsOnce c) (not c.has_callback)
              (λ quiet. record {
                alerts_match = ground (arith, quiet, h.alerts_match);
                keys_distinct = (new, h.keys_distinct);
              })
              λ told. record {
                alerts_match = ground (arith, told, h.alerts_match);
                keys_distinct = (new, h.keys_distinct);
              }

    check_beacons-IsOnce :
        (beacons : List (ℕ × BeaconTracker Double)) (m : Monitor Double)
        → IsOnce c m
        → IsOnce c (check_beacons beacons m)
    unfolding check_beacons
    check_beacons-IsOnce [] m h = h
    check_beacons-IsOnce ((key, bt) ∷ rest) m h =
        check_beacons-IsOnce rest _
          (if-ind (IsOnce c) (is_beacon bt) (λ _. alert_beacon-IsOnce key bt m h) λ _. h)

-- The keys stay different and each is alerted once at the end of the capture too: a connection
-- pattern that was reported before is not reported again.
pub check_beaconing-IsOnce :
    (r : Doubles) (sqrt : r.Double → r.Double) (c : Settings) (m : Monitor r.Double)
    → IsOnce c m
    → IsOnce c (check_beaconing_at_flush r sqrt c m)
unfolding check_beaconing_at_flush
check_beaconing-IsOnce r sqrt c m h = check_beacons-IsOnce r sqrt c m.beacon_trackers_ m h
