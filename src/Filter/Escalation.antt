-- ===== src/Filter/Escalation.antt =====
-- src/npu_filter.cpp, `worker_loop`: a flow with the Heartbleed signature, whatever else it carries.
use wirewolf.Base.{
  ℕ, ◌+◌, ◌≡◌, ◌⊎◌, refl, sym, ap, ◌∙◌, true, false, [], ◌∷◌, length, arith, if-ind, inl, inr,
  subst,
}
use wirewolf.Base.Doubles.{Doubles}
use wirewolf.Base.Text.{Bytes}
use wirewolf.Filter.{detect_heartbleed}
use wirewolf.Filter.Decide.{
  Setup, Decision, decide_exploit, decide_clear, decide_tls, normalized, decide,
}
use wirewolf.Filter.Dedup.{heartbleed_key}
use wirewolf.Filter.Handshake.{TlsVerdict, inspect_tls}
use wirewolf.Filter.Verdicts.{feed_hit-ind, inspect_tls-IsSameFlow}
use wirewolf.Filter.Worker.{
  Worker, carry_out, trim_seen, handle, is_nil, pass_flow, drop_flow, drop_duplicate, pass_new,
}
use wirewolf.Packet.{FlowData}
use wirewolf.Reassembly.Blocklist.{contains}

-- The flow goes on, at most with a test of this key.
unfoldable pub EscalatesUnder : {Double : Type 0} → ℕ → Decision Double → Type 0
EscalatesUnder key (Decision.drop reason f) = ⊥
EscalatesUnder key (Decision.pass reason f) = Unit
EscalatesUnder key (Decision.once k reason f) = k ≡ key

pushed-trim_seen : {Double : Type 0} (w : Worker Double) → (trim_seen w).pushed ≡ w.pushed
unfolding trim_seen
pushed-trim_seen {Double} w =
    if-ind (λ (v : Worker Double). v.pushed ≡ w.pushed) _ (λ _. refl) λ _. refl

carry_out-EscalatesUnder :
    {Double : Type 0} (key : ℕ) (d : Decision Double) (w : Worker Double)
    → EscalatesUnder key d
    → (length (carry_out d w).pushed ≡ length w.pushed + 1)
      ⊎ (contains w.seen_payload_hashes_ key ≡ true)
unfolding carry_out pass_flow drop_flow drop_duplicate pass_new EscalatesUnder
carry_out-EscalatesUnder key (Decision.drop reason f) w h = elim h [ ]
carry_out-EscalatesUnder key (Decision.pass reason f) w h = inl (omega arith)
carry_out-EscalatesUnder {Double} key (Decision.once k reason f) w h =
    if-ind
      (λ (v : Worker Double).
        (length v.pushed ≡ length w.pushed + 1) ⊎ (contains w.seen_payload_hashes_ key ≡ true))
      (contains w.seen_payload_hashes_ k)
      (λ seen. inr (ap (contains w.seen_payload_hashes_) (sym h) ∙ seen)) λ _. inl (omega arith)

detect_heartbleed-nonempty : (p : Bytes) → detect_heartbleed p ≡ true → is_nil p ≡ false
unfolding detect_heartbleed
detect_heartbleed-nonempty [] h = ground (arith, h)
detect_heartbleed-nonempty (c ∷ cs) h = refl

module _ (r : Doubles) (e : Setup r.Double) where
  open r use {Double}

  decide_clear-EscalatesUnder :
      (f : FlowData Double)
      → detect_heartbleed f.reassembled_payload ≡ true
      → EscalatesUnder (heartbleed_key e.std f.id) (decide_clear r e f)
  unfolding decide_clear decide_exploit EscalatesUnder
  decide_clear-EscalatesUnder f h =
      feed_hit-ind r e (EscalatesUnder (heartbleed_key e.std f.id)) f (decide_exploit r e f)
        (rw h refl) (λ _. tt) λ _ _. tt

  decide_tls-EscalatesUnder :
      (v : TlsVerdict × FlowData Double)
      → detect_heartbleed v.1.reassembled_payload ≡ true
      → EscalatesUnder (heartbleed_key e.std v.1.id) (decide_tls r e v)
  unfolding decide_tls EscalatesUnder
  decide_tls-EscalatesUnder (TlsVerdict.not_tls, f) h = decide_clear-EscalatesUnder f h
  decide_tls-EscalatesUnder (TlsVerdict.suspicious_tls, f) h = tt
  decide_tls-EscalatesUnder (TlsVerdict.benign_tls, f) h = rw h (decide_clear-EscalatesUnder f h)

  decide-EscalatesUnder :
      (f : FlowData Double)
      → detect_heartbleed f.reassembled_payload ≡ true
      → EscalatesUnder (heartbleed_key e.std f.id) (decide r e f)
  unfolding decide
  decide-EscalatesUnder f h =
      let v = inspect_tls r e.feed (normalized r e f) in
      let s = inspect_tls-IsSameFlow r e f in
      subst (λ id. EscalatesUnder (heartbleed_key e.std id) (decide_tls r e v)) s.same_id
        (decide_tls-EscalatesUnder v (ap detect_heartbleed s.same_payload ∙ h))

  -- A flow with the Heartbleed signature is pushed to the LLM, whatever the TLS handshake, the threat
  -- feed and the other detectors say of it, unless the hash of its destination was remembered.
  pub handle-EscalatesUnder :
      (f : FlowData Double) (w : Worker Double)
      → detect_heartbleed f.reassembled_payload ≡ true
      → (length (handle r e f w).pushed ≡ length w.pushed + 1)
        ⊎ (contains (trim_seen w).seen_payload_hashes_ (heartbleed_key e.std f.id) ≡ true)
  unfolding handle
  handle-EscalatesUnder f w h =
      let went =
        carry_out-EscalatesUnder (heartbleed_key e.std f.id) (decide r e f) (trim_seen w)
          (decide-EscalatesUnder f h) in
      rw (detect_heartbleed-nonempty f.reassembled_payload h) (
        subst
          (λ n.
            (length (carry_out (decide r e f) (trim_seen w)).pushed ≡ n + 1)
            ⊎ (contains (trim_seen w).seen_payload_hashes_ (heartbleed_key e.std f.id) ≡ true))
          (ap length (pushed-trim_seen w)) went)
