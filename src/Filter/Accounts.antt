-- ===== src/Filter/Accounts.antt =====
-- src/npu_filter.cpp, `worker_loop`: the worker's counters, its events and the flows it sends, over
-- any sequence of flows.
use wirewolf.Base.{
  if◌then◌else◌, Bool, true, false, ℕ, ◌+◌, ◌≤◌, ◌≡◌, refl, subst, List, [], ◌∷◌, length, ltb,
  arith, if-ind,
}
use wirewolf.Base.Doubles.{Doubles}
use wirewolf.Base.Text.{Bytes}
use wirewolf.Filter.Decide.{Setup, Decision, decide}
use wirewolf.Filter.Worker.{
  FlowAction, Worker, start, emit_flow_event, drop_flow, drop_duplicate, pass_flow, pass_new,
  carry_out, trim_seen, handle, worker_loop, is_nil, max_dedup_hashes,
}
use wirewolf.Packet.{FlowData}
use wirewolf.Reassembly.Blocklist.{contains, insert}

-- The counters after n flows.
pub record IsAccounted {Double : Type 0} (n : ℕ) (w : Worker Double) : Type 0 where
  pub all_decided : w.passed_count + w.filtered_count ≡ n
  pub all_reported : length w.events ≡ (if w.has_callback then n else 0)
  pub all_passed_pushed : length w.pushed ≡ w.passed_count
  pub duplicates_filtered : w.dedup_count ≤ w.filtered_count
  pub hashes_bounded : length w.seen_payload_hashes_ ≤ max_dedup_hashes + 1

length-insert : (k : ℕ) (ks : List ℕ) → length (insert k ks) ≤ length ks + 1
unfolding insert
length-insert k ks = ground arith

module _ {Double : Type 0} where
  reported :
      (n : ℕ) (action : FlowAction) (reason : Bytes) (f : FlowData Double) (w : Worker Double)
      → length w.events ≡ (if w.has_callback then n else 0)
      → length (emit_flow_event action reason f w) ≡ (if w.has_callback then n + 1 else 0)
  unfolding emit_flow_event
  reported n action reason f w h = ground (arith, h)

  drop_flow-IsAccounted :
      (n : ℕ) (reason : Bytes) (f : FlowData Double) (w : Worker Double)
      → IsAccounted n w
      → IsAccounted (n + 1) (drop_flow reason f w)
  unfolding drop_flow
  drop_flow-IsAccounted n reason f w h = record {
    all_decided = omega (arith, h.all_decided);
    all_reported = reported n _ _ f w h.all_reported;
    all_passed_pushed = h.all_passed_pushed;
    duplicates_filtered = omega (arith, h.duplicates_filtered);
    hashes_bounded = h.hashes_bounded;
  }

  carry_out-IsAccounted :
      (n : ℕ) (d : Decision Double) (w : Worker Double)
      → IsAccounted n w
      → length w.seen_payload_hashes_ ≤ max_dedup_hashes
      → IsAccounted (n + 1) (carry_out d w)
  unfolding carry_out drop_flow pass_flow drop_duplicate pass_new emit_flow_event
  carry_out-IsAccounted n (Decision.drop reason f) w h k = drop_flow-IsAccounted n reason f w h
  carry_out-IsAccounted n (Decision.pass reason f) w h k = record {
    all_decided = omega (arith, h.all_decided);
    all_reported = reported n _ _ f w h.all_reported;
    all_passed_pushed = omega (arith, h.all_passed_pushed);
    duplicates_filtered = h.duplicates_filtered;
    hashes_bounded = h.hashes_bounded;
  }
  carry_out-IsAccounted n (Decision.once key reason f) w h k =
      if-ind (IsAccounted (n + 1)) (contains w.seen_payload_hashes_ key)
        (λ _. record {
          all_decided = omega (arith, h.all_decided);
          all_reported = reported n _ _ f w h.all_reported;
          all_passed_pushed = h.all_passed_pushed;
          duplicates_filtered = omega (arith, h.duplicates_filtered);
          hashes_bounded = h.hashes_bounded;
        })
        λ _. record {
          all_decided = omega (arith, h.all_decided);
          all_reported = reported n _ _ f w h.all_reported;
          all_passed_pushed = omega (arith, h.all_passed_pushed);
          duplicates_filtered = h.duplicates_filtered;
          hashes_bounded = omega (arith, length-insert key w.seen_payload_hashes_, k);
        }

  trim_seen-IsAccounted :
      (n : ℕ) (w : Worker Double)
      → IsAccounted n w
      → IsAccounted n (trim_seen w) × (length (trim_seen w).seen_payload_hashes_ ≤ max_dedup_hashes)
  unfolding trim_seen
  trim_seen-IsAccounted n w h =
      if-ind
        (λ (v : Worker Double).
          IsAccounted n v × (length v.seen_payload_hashes_ ≤ max_dedup_hashes))
        (ltb max_dedup_hashes (length w.seen_payload_hashes_))
        (λ _. (
          record {
            all_decided = h.all_decided;
            all_reported = h.all_reported;
            all_passed_pushed = h.all_passed_pushed;
            duplicates_filtered = h.duplicates_filtered;
            hashes_bounded = omega arith;
          },
          omega arith,
        ))
        λ few. (h, ground (arith, few))

module _ (r : Doubles) (e : Setup r.Double) where
  open r use {Double}

  handle-IsAccounted :
      (n : ℕ) (f : FlowData Double) (w : Worker Double)
      → IsAccounted n w
      → IsAccounted (n + 1) (handle r e f w)
  unfolding handle
  handle-IsAccounted n f w h =
      let (trimmed, few) = trim_seen-IsAccounted n w h in
      if-ind (IsAccounted (n + 1)) (is_nil f.reassembled_payload)
        (λ _. drop_flow-IsAccounted n _ f w h)
        λ _. carry_out-IsAccounted n (decide r e f) (trim_seen w) trimmed few

  worker_loop-from :
      (n : ℕ) (fs : List (FlowData Double)) (w : Worker Double)
      → IsAccounted n w
      → IsAccounted (n + length fs) (worker_loop r e fs w)
  unfolding worker_loop
  worker_loop-from n [] w h = subst (λ m. IsAccounted m w) (omega arith) h
  worker_loop-from n (f ∷ fs) w h =
      subst (λ m. IsAccounted m (worker_loop r e fs (handle r e f w))) (omega arith)
        (worker_loop-from (n + 1) fs (handle r e f w) (handle-IsAccounted n f w h))

-- After any sequence of flows each of them was counted once, as passed or as filtered, and reported
-- once if a callback is set, and none if not; exactly the passed ones were pushed; the duplicates
-- are among the filtered ones; and at most 100001 hashes are remembered.
pub worker_loop-IsAccounted :
    (r : Doubles) (e : Setup r.Double) (has_callback : Bool) (fs : List (FlowData r.Double))
    → IsAccounted (length fs) (worker_loop r e fs (start has_callback))
worker_loop-IsAccounted r e has_callback fs =
    subst (λ m. IsAccounted m (worker_loop r e fs (start has_callback))) (omega arith)
      (worker_loop-from r e 0 fs (start has_callback) (record {
        all_decided = refl;
        all_reported = none_yet has_callback;
        all_passed_pushed = refl;
        duplicates_filtered = omega arith;
        hashes_bounded = omega arith;
      }))
  where
    none_yet : (b : Bool) → ◌≡◌ {A = ℕ} 0 (if b then 0 else 0)
    none_yet true = refl
    none_yet false = refl
