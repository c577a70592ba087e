-- ===== src/Anomaly/Mailing.antt =====
-- src/tcp_reassembly.cpp, `check_mass_mailing_at_flush`: a host that opened connections to 30 mail
-- servers is taken for a spam bot, and an alert is raised for each host outside that it contacted.
use wirewolf.Base.{
  ℕ, ◌+◌, ◌≡◌, Bool, true, false, not, List, [], ◌∷◌, length, ltb, if◌then◌else◌, arith,
}
use wirewolf.Base.Maps.{find_or}
use wirewolf.Base.Text.{codes}
use wirewolf.Base.Words.{bswap16}
use wirewolf.Anomaly.{SourceTracker, ThreatAlert, Monitor, Settings}
use wirewolf.Reassembly.Blocklist.{insert}
use wirewolf.Severity.{severity_for_threat}

unfoldable pub insert_all : List ℕ → List ℕ → List ℕ
insert_all [] s = s
insert_all (x ∷ xs) s = insert_all xs (insert x s)

abbrev bot_alert : ℕ → ℕ → ThreatAlert
bot_alert src d = record {
  connection = record { src_ip = src; dst_ip = d; src_port = 0; dst_port = 0 };
  threat_type = codes "Botnet Host";
  severity_info = severity_for_threat (codes "Botnet Host");
}

module _ {Double : Type 0} where
  unfoldable pub mail_dsts : SourceTracker Double → List ℕ
  mail_dsts tr =
      let of_port = λ (p : ℕ). find_or [] (bswap16 p) tr.port_dst_ips in
      insert_all (of_port 587) (insert_all (of_port 465) (insert_all (of_port 25) []))

  unfoldable pub alert_footprint : ℕ → List ℕ → Monitor Double → Monitor Double
  alert_footprint src [] m = m
  alert_footprint src (d ∷ ds) m =
      alert_footprint src ds (record m { alerts = bot_alert src d ∷ m.alerts })

  unfoldable pub is_spam_bot : SourceTracker Double → Bool
  is_spam_bot tr = not (ltb (length (mail_dsts tr)) 30)

  unfoldable pub check_mailers : List (ℕ × SourceTracker Double) → Monitor Double → Monitor Double
  check_mailers [] m = m
  check_mailers ((src, tr) ∷ rest) m =
      check_mailers rest (if is_spam_bot tr then alert_footprint src tr.ext_dsts m else m)

  unfoldable pub check_mass_mailing_at_flush : Settings → Monitor Double → Monitor Double
  check_mass_mailing_at_flush c m = if c.has_callback then check_mailers m.source_trackers_ m else m

  -- The hosts that the spam bots among the sources contacted.
  abbrev pub footprint : List (ℕ × SourceTracker Double) → ℕ
  footprint [] = 0
  footprint ((src, tr) ∷ rest) = (if is_spam_bot tr then length tr.ext_dsts else 0) + footprint rest

  alerts-alert_footprint :
      (src : ℕ) (ds : List ℕ) (m : Monitor Double)
      → length (alert_footprint src ds m).alerts ≡ length ds + length m.alerts
  unfolding alert_footprint
  alerts-alert_footprint src [] m = omega arith
  alerts-alert_footprint src (d ∷ ds) m = omega (arith, alerts-alert_footprint src ds _)

  chosen :
      (test : Bool) (n m : Monitor Double) (k : ℕ)
      → length n.alerts ≡ k + length m.alerts
      → length (if test then n else m).alerts ≡ (if test then k else 0) + length m.alerts
  chosen true n m k h = h
  chosen false n m k h = omega arith

  alerts-check_mailers :
      (sources : List (ℕ × SourceTracker Double)) (m : Monitor Double)
      → length (check_mailers sources m).alerts ≡ footprint sources + length m.alerts
  unfolding check_mailers
  alerts-check_mailers [] m = omega arith
  alerts-check_mailers ((src, tr) ∷ rest) m =
      let next = if is_spam_bot tr then alert_footprint src tr.ext_dsts m else m in
      omega (
        arith,
        alerts-check_mailers rest next,
        chosen (is_spam_bot tr) (alert_footprint src tr.ext_dsts m) m (length tr.ext_dsts)
            (alerts-alert_footprint src tr.ext_dsts m),
      )

-- With a callback the check raises exactly one alert for each host outside that a spam bot among the
-- sources contacted, and none for the other sources.
pub alerts-check_mass_mailing :
    {Double : Type 0} (c : Settings) (m : Monitor Double)
    → c.has_callback ≡ true
    → length (check_mass_mailing_at_flush c m).alerts
      ≡ footprint m.source_trackers_ + length m.alerts
unfolding check_mass_mailing_at_flush
alerts-check_mass_mailing c m told = rw told (alerts-check_mailers m.source_trackers_ m)
