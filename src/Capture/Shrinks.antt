-- ===== src/Capture/Shrinks.antt =====
-- src/tcp_reassembly.cpp: the sweeps over the table add no connection to it.
use wirewolf.Base.{ℕ, ◌≤◌, [], ◌∷◌, length, if◌then◌else◌, if-ind, arith}
use wirewolf.Base.Doubles.{Doubles}
use wirewolf.Reassembly.Behavior.{Behavior, Scorer}
use wirewolf.Reassembly.Complete.{Swept, is_complete, merge_held, score_flow, check_complete_flows}
use wirewolf.Reassembly.Expiry.{Suspects, Evicted, is_stale, expire, evict_stale_connections}
use wirewolf.Reassembly.Table.{Connections}

module _ (r : Doubles) (c : Scorer r) where
  open r use {Double, of_ℕ, sub, lt}

  pub length-check_complete_flows :
      (limit : ℕ) (table : Connections Double) (b : Behavior r)
      → length (check_complete_flows r c limit table b).connections ≤ length table
  unfolding check_complete_flows
  length-check_complete_flows limit [] b = omega arith
  length-check_complete_flows limit ((cid, s) ∷ rest) b =
      let done = is_complete limit s in
      let next = (if done then score_flow r c cid (merge_held s) b else b) in
      let later = length-check_complete_flows limit rest next in
      if-ind (λ (w : Swept r c). length w.connections ≤ length ((cid, s) ∷ rest)) done
        (λ _. omega (arith, later)) λ _. omega (arith, later)

  length-expire :
      (b : Suspects) (now : Double) (table : Connections Double)
      → length (expire r c.hash b now table).connections ≤ length table
  unfolding expire
  length-expire b now [] = omega arith
  length-expire b now ((cid, s) ∷ rest) =
      let later = length-expire b now rest in
      if-ind (λ (w : Evicted Double). length w.connections ≤ length ((cid, s) ∷ rest))
        (is_stale r c.hash now s) (λ _. omega (arith, later)) λ _. omega (arith, later)

  pub length-evict_stale_connections :
      (b : Suspects) (now last : Double) (table : Connections Double)
      → length (evict_stale_connections r c.hash b now last table).connections ≤ length table
  unfolding evict_stale_connections
  length-evict_stale_connections b now last table =
      if-ind (λ (w : Evicted Double). length w.connections ≤ length table)
        (lt (sub now last) (of_ℕ 60)) (λ _. omega arith) λ _. length-expire b now table
