-- ===== src/Pipeline/Report/Causes.antt =====
-- src/llm_inference.cpp and src/pipeline_controller.cpp: what every report and every block stands on.
use wirewolf.Alert.{build_alert_json, extract}
use wirewolf.Base.{
  ℕ, ◌≤◌, ◌≡◌, ◌⊎◌, refl, ap, sym, ◌∙◌, Bool, true, false, not, ◌&&◌, ◌||◌, List, [], ◌∷◌, ◌==◌,
  length, if◌then◌else◌, if-ind, ltb, leb, inl, inr, arith, All,
}
use wirewolf.Base.Doubles.{Doubles}
use wirewolf.Base.Text.{Bytes, codes}
use wirewolf.Base.Words.{bswap16}
use wirewolf.Llm.Grounded.{IsGrounded, Grounded, llm_round-Grounded}
use wirewolf.Llm.Suppress.{is_nil, is_false_positive, payload_contains_snippet}
use wirewolf.Llm.Verdict.{
  LlmSettings, Outcome, Round, aliases, canonical_in, first_object, is_empty_json, check_claim,
  check_answer, is_binary, ask_model, decide_tagged, infer_in_budget, llm_round, shown_text,
}
use wirewolf.Packet.{ConnectionId, FlowData}
use wirewolf.Pipeline.{Wiring, ThreatAlert, Shared, alert_from, on_alert, raise_alert}
use wirewolf.Pipeline.Report.{Stage, report, judge, judge_all}
use wirewolf.Reassembly.Blocklist.{
  Blocklist, contains, block_source, is_blocked, is_blocked-block_source, Protects,
  block_source-Protects,
}
use wirewolf.Severity.{SeverityInfo}
use wirewolf.Severity.Confidence.{format}

-- The outcome of a round agrees with the flow's tag: only a flow with a tag is decided by it, and only
-- one without is put to the model.
FitsTag : {D : Type 0} → FlowData D → Outcome → Type 0
FitsTag f (Outcome.alert t sev snippet payload) = is_nil f.protocol_tag ≡ true
FitsTag f (Outcome.decided tag sev snippet payload) =
    (tag ≡ f.protocol_tag) × (is_nil f.protocol_tag ≡ false)
FitsTag f _ = Unit

check_claim-FitsTag :
    {D : Type 0} (f : FlowData D) (t severity snippet text : Bytes) (port : ℕ)
    → is_nil f.protocol_tag ≡ true
    → FitsTag f (check_claim t severity snippet text port)
unfolding check_claim FitsTag
check_claim-FitsTag f t severity snippet text port h =
    if-ind (FitsTag f) (is_nil t || is_nil severity || is_nil snippet) (λ _. tt)
      λ _.
        if-ind (FitsTag f) (not (payload_contains_snippet text snippet)) (λ _. tt)
          λ _. if-ind (FitsTag f) (is_false_positive t snippet text port) (λ _. tt) λ _. h

check_answer-FitsTag :
    {D : Type 0} (f : FlowData D) (result text : Bytes) (port : ℕ)
    → is_nil f.protocol_tag ≡ true
    → FitsTag f (check_answer result text port)
unfolding check_answer FitsTag
check_answer-FitsTag f result text port h =
    let object = first_object result in
    let t = canonical_in aliases (extract (codes "threat_type") object) in
    let severity = extract (codes "severity") object in
    let snippet = extract (codes "snippet") object in
    if-ind (FitsTag f) (is_empty_json result) {x = Outcome.benign}
      {y = check_claim t severity snippet text port} (λ _. tt)
      λ _. check_claim-FitsTag f t severity snippet text port h

module _ (r : Doubles) (c : LlmSettings) where
  open r use {Double}

  llm_round-FitsTag :
      (f : FlowData Double) (runs calls : ℕ) → FitsTag f (llm_round r c f runs calls).outcome
  unfolding llm_round decide_tagged infer_in_budget ask_model FitsTag
  llm_round-FitsTag f runs calls =
      let P = λ (x : Round). FitsTag f x.outcome in
      if-ind P (is_nil f.reassembled_payload) (λ _. tt)
        λ _.
          if-ind P (not (is_nil f.protocol_tag)) (λ tagged. (refl, ground (arith, tagged)))
            λ untagged.
              if-ind P (is_binary r c _) (λ _. tt)
                λ _.
                  if-ind P (ltb 0 c.max_llm_flows && leb c.max_llm_flows runs) (λ _. tt)
                    λ _. check_answer-FitsTag f _ _ _ (ground (arith, untagged))

-- The addresses that the reported alerts come from.
unfoldable pub HasAlertFrom : {D : Type 0} → ℕ → List (ThreatAlert D) → Type 0
HasAlertFrom ip [] = ⊥
HasAlertFrom ip (a ∷ rest) = (a.connection.src_ip ≡ ip) ⊎ HasAlertFrom ip rest

module _ (r : Doubles) (w : Wiring) (c : LlmSettings) where
  open r use {Double}

  abbrev json_of : Bytes → SeverityInfo → Bytes → Bytes
  json_of t sev snippet =
      build_alert_json t (format w.one_decimal sev) (w.six_decimals sev.cvss) snippet

  -- A flow that is the reason of an alert: an earlier stage tagged it, and the alert says so; or it
  -- has no tag, and what the model said of it has stood all checks.
  pub data Causes (f : FlowData Double) (a : ThreatAlert Double) : Type 0 where
    by_tag :
        is_nil f.protocol_tag ≡ false
        → (sev : SeverityInfo) (snippet payload : Bytes)
        → a ≡ alert_from r w (json_of f.protocol_tag sev snippet) f.id payload
        → Causes f a
    by_model :
        is_nil f.protocol_tag ≡ true
        → (t : Bytes) (sev : SeverityInfo) (snippet : Bytes)
        → IsGrounded (shown_text r c f) (bswap16 f.id.src_port) t snippet sev
        → a ≡ alert_from r w (json_of t sev snippet) f.id (shown_text r c f)
        → Causes f a

  unfoldable pub AnyCauses : List (FlowData Double) → ThreatAlert Double → Type 0
  AnyCauses [] a = ⊥
  AnyCauses (f ∷ fs) a = Causes f a ⊎ AnyCauses fs a

  -- Each report has a cause, and each block a report.
  pub record IsJust (Cause : ThreatAlert Double → Type 0) (s : Shared Double) : Type 0 where
    pub caused : All Cause s.alerts
    pub blocked_from : (ip : ℕ) → is_blocked s.blocklist ip ≡ true → HasAlertFrom ip s.alerts
    pub spared : Protects s.blocklist
    pub counted : length s.alerts ≤ s.alerts_fired_

  block_if : Bool → ℕ → Blocklist → Blocklist
  block_if inline ip b = if inline then block_source ip b else b

  among :
      (open_ : Bool) (ip jp : ℕ) (before : Bool)
      → (open_ && ip == jp || before) ≡ true
      → (ip ≡ jp) ⊎ (before ≡ true)
  among open_ ip jp before e = ground (arith, e)

  blocked_by :
      (inline : Bool) (ip jp : ℕ) (b : Blocklist)
      → is_blocked (block_if inline ip b) jp ≡ true
      → (ip ≡ jp) ⊎ (is_blocked b jp ≡ true)
  unfolding block_if
  blocked_by false ip jp b h = inr h
  blocked_by true ip jp b h = among _ ip jp _ (sym (is_blocked-block_source b ip jp) ∙ h)

  block_if-Protects :
      (inline : Bool) (ip : ℕ) (b : Blocklist) → Protects b → Protects (block_if inline ip b)
  unfolding block_if
  block_if-Protects false ip b p = p
  block_if-Protects true ip b p = block_source-Protects ip b p

  on_alert-IsJust :
      (Cause : ThreatAlert Double → Type 0) (json : Bytes) (cid : ConnectionId) (payload : Bytes)
      (s : Shared Double)
      → IsJust Cause s
      → Cause (alert_from r w json cid payload)
      → IsJust Cause (on_alert r w json cid payload s)
  unfolding on_alert block_if HasAlertFrom alert_from
  on_alert-IsJust Cause json cid payload s h cause =
      if-ind (IsJust Cause) w.has_callback
        (λ _. record {
          caused = (cause, h.caused);
          blocked_from = λ ip blocked.
              elim (blocked_by w.inline_block cid.src_ip ip s.blocklist blocked) [
                | inl same ↦ inl same
                | inr before ↦ inr (h.blocked_from ip before)
              ];
          spared = block_if-Protects w.inline_block cid.src_ip s.blocklist h.spared;
          counted = omega (arith, h.counted);
        })
        λ _. record {
          caused = h.caused;
          blocked_from = h.blocked_from;
          spared = h.spared;
          counted = omega (arith, h.counted);
        }

  report-IsJust :
      (Cause : ThreatAlert Double → Type 0) (f : FlowData Double) (o : Outcome) (s : Shared Double)
      → ((a : ThreatAlert Double) → Causes f a → Cause a)
      → Grounded (shown_text r c f) (bswap16 f.id.src_port) o
      → FitsTag f o
      → IsJust Cause s
      → IsJust Cause (report r w f.id o s)
  unfolding report raise_alert Grounded FitsTag
  report-IsJust Cause f (Outcome.alert t sev snippet payload) s k (shown, grounded) untagged h =
      on_alert-IsJust Cause _ f.id payload s h (
        k _ (
          by_model untagged t sev snippet grounded
            (ap (alert_from r w (json_of t sev snippet) f.id) shown)))
  report-IsJust Cause f (Outcome.decided tag sev snippet payload) s k _ (same, tagged) h =
      on_alert-IsJust Cause _ f.id payload s h (
        k _ (
          by_tag tagged sev snippet payload
            (ap (λ t. alert_from r w (json_of t sev snippet) f.id payload) same)))
  report-IsJust Cause f Outcome.skipped s k g t h = h
  report-IsJust Cause f Outcome.over_budget s k g t h = h
  report-IsJust Cause f Outcome.benign s k g t h = h
  report-IsJust Cause f Outcome.suppressed s k g t h = h

  judge_from :
      (Cause : ThreatAlert Double → Type 0) (fs : List (FlowData Double)) (t : Stage r w)
      → ((a : ThreatAlert Double) → AnyCauses fs a → Cause a)
      → IsJust Cause t.shared
      → IsJust Cause (judge_all r w c fs t).shared
  unfolding judge_all judge AnyCauses
  judge_from Cause [] t k h = h
  judge_from Cause (f ∷ fs) t k h =
      judge_from Cause fs (judge r w c f t) (λ a later. k a (inr later))
        (report-IsJust Cause f _ t.shared (λ a now. k a (inl now))
          (llm_round-Grounded r c f t.last.llm_runs_ t.last.model_calls)
          (llm_round-FitsTag r c f t.last.llm_runs_ t.last.model_calls) h)

  -- Before the first flow.
  abbrev pub at_start : List ℕ → Stage r w
  at_start allowlist = record {
    last = record { llm_runs_ = 0; model_calls = 0; outcome = Outcome.skipped };
    shared = record {
      alerts_fired_ = 0;
      blocklist = record { blocked_ips = []; allowlist_ips = allowlist };
      alerts = [];
    };
  }

  -- Whatever flows come in and whatever the model answers: each alert that is reported has a flow as
  -- its cause, one that an earlier stage tagged, or an untagged one of which the model's claim has
  -- stood all checks; each blocked address is the source of a reported alert, and none is on the
  -- allowlist; and the count of alerts is not below the number of reports.
  pub judge_all-IsJust :
      (fs : List (FlowData Double)) (allowlist : List ℕ)
      → IsJust (AnyCauses fs) (judge_all r w c fs (at_start allowlist)).shared
  unfolding is_blocked contains
  judge_all-IsJust fs allowlist =
      judge_from (AnyCauses fs) fs (at_start allowlist) (λ a any. any)
        (record {
          caused = tt;
          blocked_from = λ ip blocked. ground (arith, blocked);
          spared = λ ip listed. refl;
          counted = omega arith;
        })
