-- ===== src/Anomaly/Caps.antt =====
-- src/tcp_reassembly.cpp, `evict_stale_state`: the caps on what is kept about sources, behind the
-- eviction of idle connections.
use wirewolf.Anomaly.{BeaconTracker, Monitor}
use wirewolf.Base.{ℕ, ◌≤◌, ◌<◌, ◌≡◌, ◌⊎◌, Bool, List, [], ◌∷◌, length, ltb, if◌then◌else◌}
use wirewolf.Base.Doubles.{Doubles}
use wirewolf.Reassembly.Expiry.{Suspects, Evicted, evict_stale_connections}
use wirewolf.Reassembly.Table.{Connections}

abbrev pub max_source_trackers : ℕ
max_source_trackers = 100000

abbrev pub max_beacon_trackers : ℕ
max_beacon_trackers = 50000

abbrev pub max_dedup_hashes : ℕ
max_dedup_hashes = 100000

unfoldable pub capped : {A : Type 0} → ℕ → List A → List A
capped n xs = if ltb n (length xs) then [] else xs

module _ {Double : Type 0} where
  abbrev pub is_candidate : BeaconTracker Double → Bool
  is_candidate t = ltb 2 (length t.syn_timestamps)

  -- The loop that drops the trackers with fewer than three connections.
  unfoldable pub prune_beacons : List (ℕ × BeaconTracker Double) → List (ℕ × BeaconTracker Double)
  prune_beacons [] = []
  prune_beacons ((k, t) ∷ rest) =
      let kept = prune_beacons rest in if is_candidate t then (k, t) ∷ kept else kept

  unfoldable pub cap_beacons : List (ℕ × BeaconTracker Double) → List (ℕ × BeaconTracker Double)
  cap_beacons trackers =
      if ltb max_beacon_trackers (length trackers)
      then capped max_beacon_trackers (prune_beacons trackers)
      else trackers

  unfoldable pub cap_trackers : Monitor Double → Monitor Double
  cap_trackers m = record m {
    source_trackers_ = capped max_source_trackers m.source_trackers_;
    beacon_trackers_ = cap_beacons m.beacon_trackers_;
    alerted_anomalies_ = capped max_dedup_hashes m.alerted_anomalies_;
  }

module _ (r : Doubles) (hash : ℕ → ℕ) where
  open r use {Double, of_ℕ, sub, lt}

  -- The whole of it; nothing happens within a minute of the last time.
  unfoldable pub evict_stale_state :
      Suspects
      → Double
      → Double
      → Connections Double
      → Monitor Double
      → Evicted Double × Monitor Double
  evict_stale_state b now last table m = (
    evict_stale_connections r hash b now last table,
    if lt (sub now last) (of_ℕ 60) then m else cap_trackers m,
  )

  -- What the caps leave.
  pub record IsCapped (before after : Monitor Double) : Type 0 where
    pub few_sources : length after.source_trackers_ ≤ max_source_trackers
    pub few_beacons : length after.beacon_trackers_ ≤ max_beacon_trackers
    pub few_alerted : length after.alerted_anomalies_ ≤ max_dedup_hashes
    pub candidates_stay :
        (prune_beacons after.beacon_trackers_ ≡ prune_beacons before.beacon_trackers_)
        ⊎ (max_beacon_trackers < length (prune_beacons before.beacon_trackers_))
    pub same_alerts : after.alerts ≡ before.alerts
