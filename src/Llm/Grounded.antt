-- ===== src/Llm/Grounded.antt =====
-- src/llm_inference.cpp, `worker_loop`: what holds of an alert whatever the model answers, and how often
-- the model is run.
use wirewolf.Base.{
  ℕ, ◌≤◌, ◌<◌, ◌≡◌, refl, Bool, true, false, not, ◌&&◌, ◌||◌, Bool-cases, ==_iff, ◌∙◌, ◌++◌, List,
  [], ◌∷◌, Option, none, some, ltb, leb, if◌then◌else◌, if-ind, inl, inr, ap, arith,
}
use mathlib.Core.List.{map-append}
use wirewolf.Alert.{extract}
use wirewolf.Base.Doubles.{Doubles}
use wirewolf.Base.Text.{Bytes, codes, lower_byte, to_lower, starts_with, contains}
use wirewolf.Base.Words.{bswap16}
use wirewolf.Llm.Context.{is_server_port}
use wirewolf.Llm.Suppress.{
  is_nil, is_false_positive, is_one_of, server_threats, payload_contains_snippet, starts_with_any,
  benign_header_prefixes, only_in_headers,
}
use wirewolf.Llm.Verdict.{
  LlmSettings, Outcome, Round, aliases, canonical_in, first_object, is_empty_json, check_claim,
  check_answer, shown_text, is_binary, ask_model, decide_tagged, infer_in_budget, llm_round,
  llm_rounds,
}
use wirewolf.Packet.{FlowData}
use wirewolf.Severity.{SeverityInfo, rank, severity_for_threat}
use wirewolf.Severity.Resolve.{Resolves, wanted, resolve_severity-Resolves}
use wirewolf.Severity.Table.{Severity}

-- The snippet is a contiguous part of the text, capitals and small letters taken for the same.
pub record IsQuoted (text snippet : Bytes) : Type 0 where
  pub before : Bytes
  pub behind : Bytes
  pub at : to_lower text ≡ before ++ (to_lower snippet ++ behind)

starts_with-split : (s t : Bytes) → starts_with s t ≡ true → (behind : Bytes) × (s ≡ t ++ behind)
unfolding starts_with
starts_with-split s [] h = (s, refl)
starts_with-split [] (y ∷ ys) h = ground (arith, h)
starts_with-split (x ∷ xs) (y ∷ ys) h =
    let (behind, rest) = starts_with-split xs ys (ground (arith, h)) in
    let same : x ≡ y = (==_iff x y).0 (ground (arith, h)) in (behind, rw (same, rest) refl)

contains-split :
    (s t : Bytes)
    → contains s t ≡ true
    → (before : Bytes) × (behind : Bytes) × (s ≡ before ++ (t ++ behind))
unfolding contains
contains-split [] t h = let (behind, is) = starts_with-split [] t h in ([], behind, is)
contains-split (x ∷ xs) t h = elim (Bool-cases (starts_with (x ∷ xs) t)) [
  | inl here ↦ let (behind, is) = starts_with-split (x ∷ xs) t here in ([], behind, is)
  | inr later ↦
      let (before, behind, is) = contains-split xs t (rw later at h) in
      (x ∷ before, behind, ap (λ l. x ∷ l) is)
]

split-IsQuoted :
    (text snippet before behind : Bytes)
    → text ≡ before ++ (snippet ++ behind)
    → IsQuoted text snippet
split-IsQuoted text snippet before behind is = record {
  before = to_lower before;
  behind = to_lower behind;
  at =
      ap to_lower is
      ∙ map-append lower_byte before (snippet ++ behind)
      ∙ ap (λ l. to_lower before ++ l) (map-append lower_byte snippet behind);
}

payload_contains_snippet-IsQuoted :
    (text snippet : Bytes)
    → payload_contains_snippet text snippet ≡ true
    → (is_nil snippet ≡ false) × IsQuoted text snippet
unfolding payload_contains_snippet
payload_contains_snippet-IsQuoted text snippet h = (
  some_snippet (is_nil snippet) (is_nil text) _ h,
  elim (Bool-cases (contains text snippet)) [
    | inl exact ↦
        let (before, behind, is) = contains-split text snippet exact in
        split-IsQuoted text snippet before behind is
    | inr other ↦
        let (before, behind, is) =
          contains-split (to_lower text) (to_lower snippet)
            (folded (is_nil snippet) (is_nil text) _ _ other h) in
        record { before = before; behind = behind; at = is }
  ],
)
  where
    some_snippet : (a b rest : Bool) → (if a || b then false else rest) ≡ true → a ≡ false
    some_snippet a b rest h = ground (arith, h)

    folded :
        (a b exact lower : Bool)
        → exact ≡ false
        → (if a || b then false else exact || lower) ≡ true
        → lower ≡ true
    folded a b exact lower e h = ground (arith, e, h)

-- What an alert stands on: it is named, its snippet is not empty and stands in the text, a server's flow
-- carries it only if it is a threat that servers send, and its rating is not above the curated one.
-- The other outcomes say nothing.
pub record IsGrounded (payload : Bytes) (src_port : ℕ) (threat_type snippet : Bytes)
    (sev : SeverityInfo) : Type 0 where
  pub is_named : is_nil threat_type ≡ false
  pub has_snippet : is_nil snippet ≡ false
  pub is_quoted : IsQuoted payload snippet
  pub may_be_sent : (not (is_server_port src_port) || is_one_of server_threats threat_type) ≡ true
  pub not_raised : rank sev.level ≤ rank (severity_for_threat threat_type).level

unfoldable pub Grounded : Bytes → ℕ → Outcome → Type 0
Grounded text src_port (Outcome.alert t sev snippet payload) =
    (payload ≡ text) × IsGrounded text src_port t snippet sev
Grounded text src_port _ = Unit

Resolves-rank :
    (want : Option Severity) (base s : SeverityInfo)
    → Resolves want base s
    → rank s.level ≤ rank base.level
Resolves-rank none base s e = omega (arith, ap (λ (i : SeverityInfo). rank i.level) e)
Resolves-rank (some want) base s (inl (ge, e)) =
    omega (arith, ap (λ (i : SeverityInfo). rank i.level) e)
Resolves-rank (some want) base s (inr (lt, named, tier, lower)) = omega (arith, lt, ap rank named)

may_send :
    (t snippet payload : Bytes) (port : ℕ)
    → is_false_positive t snippet payload port ≡ false
    → (not (is_server_port port) || is_one_of server_threats t) ≡ true
unfolding is_false_positive
may_send t snippet payload port h =
    gate (starts_with_any benign_header_prefixes snippet) (only_in_headers payload snippet)
      (is_server_port port) (is_one_of server_threats t) _ h
  where
    gate :
        (a b server sent : Bool) (rest : Bool)
        → (if a then true else if b then true else if server && not sent then true else rest)
          ≡ false
        → (not server || sent) ≡ true
    gate a b server sent rest h = ground (arith, h)

check_claim-Grounded :
    (t severity snippet text : Bytes) (port : ℕ)
    → Grounded text port (check_claim t severity snippet text port)
unfolding check_claim Grounded
check_claim-Grounded t severity snippet text port =
    if-ind (Grounded text port) (is_nil t || is_nil severity || is_nil snippet) (λ _. tt)
      λ complete.
        if-ind (Grounded text port) (not (payload_contains_snippet text snippet)) (λ _. tt)
          λ found.
            if-ind (Grounded text port) (is_false_positive t snippet text port) (λ _. tt)
              λ clean. (
                refl,
                record {
                  is_named = ground (arith, complete);
                  has_snippet =
                      (payload_contains_snippet-IsQuoted text snippet (not_not _ found)).0;
                  is_quoted = (payload_contains_snippet-IsQuoted text snippet (not_not _ found)).1;
                  may_be_sent = may_send t snippet text port clean;
                  not_raised =
                      Resolves-rank (wanted (to_lower severity)) (severity_for_threat t) _
                        (resolve_severity-Resolves t severity);
                },
              )
  where
    not_not : (a : Bool) → not a ≡ false → a ≡ true
    not_not a h = ground (arith, h)

check_answer-Grounded :
    (result text : Bytes) (port : ℕ) → Grounded text port (check_answer result text port)
unfolding check_answer Grounded
check_answer-Grounded result text port =
    let object = first_object result in
    let t = canonical_in aliases (extract (codes "threat_type") object) in
    let severity = extract (codes "severity") object in
    let snippet = extract (codes "snippet") object in
    if-ind (Grounded text port) (is_empty_json result) {x = Outcome.benign}
      {y = check_claim t severity snippet text port} (λ _. tt)
      λ _. check_claim-Grounded t severity snippet text port

module _ (r : Doubles) (c : LlmSettings) where
  open r use {Double}

  ask_model-Grounded :
      (f : FlowData Double) → Grounded (shown_text r c f) (bswap16 f.id.src_port) (ask_model r c f)
  unfolding ask_model
  ask_model-Grounded f = check_answer-Grounded _ (shown_text r c f) (bswap16 f.id.src_port)

  -- Whatever the model answers to whatever flow: an alert raised from the answer has a name and a snippet,
  -- the snippet is a contiguous part of the text that the model was shown, up to the case of
  -- letters, a flow from a server port raises it only if servers send such threats, and its rating
  -- is at most the curated one of its type.
  pub llm_round-Grounded :
      (f : FlowData Double) (runs calls : ℕ)
      → Grounded (shown_text r c f) (bswap16 f.id.src_port) (llm_round r c f runs calls).outcome
  unfolding llm_round infer_in_budget Grounded decide_tagged
  llm_round-Grounded f runs calls =
      let P = λ (x : Round). Grounded (shown_text r c f) (bswap16 f.id.src_port) x.outcome in
      if-ind P (is_nil f.reassembled_payload) (λ _. tt)
        λ _.
          if-ind P (not (is_nil f.protocol_tag)) (λ _. tt)
            λ _.
              if-ind P (is_binary r c _) (λ _. tt)
                λ _.
                  if-ind P (ltb 0 c.max_llm_flows && leb c.max_llm_flows runs) (λ _. tt)
                    λ _. ask_model-Grounded f

  IsWithin : Round → Type 0
  IsWithin x = (x.model_calls ≤ x.llm_runs_) × (x.model_calls ≤ c.max_llm_flows)

  llm_round-IsWithin :
      (f : FlowData Double) (x : Round)
      → 0 < c.max_llm_flows
      → IsWithin x
      → IsWithin (llm_round r c f x.llm_runs_ x.model_calls)
  unfolding llm_round infer_in_budget IsWithin
  llm_round-IsWithin f x budget h =
      if-ind IsWithin (is_nil f.reassembled_payload) (λ _. h)
        λ _.
          if-ind IsWithin (not (is_nil f.protocol_tag)) (λ _. h)
            λ _.
              if-ind IsWithin (is_binary r c _) (λ _. h)
                λ _.
                  if-ind IsWithin (ltb 0 c.max_llm_flows && leb c.max_llm_flows x.llm_runs_)
                    (λ _. (ground (arith, h.0), h.1))
                    λ left. (omega (arith, h.0), ground (arith, left, h.0, budget))

  llm_rounds-IsWithin :
      (fs : List (FlowData Double)) → 0 < c.max_llm_flows → IsWithin (llm_rounds r c fs)
  unfolding llm_rounds IsWithin
  llm_rounds-IsWithin [] budget = (omega arith, omega arith)
  llm_rounds-IsWithin (f ∷ fs) budget =
      llm_round-IsWithin f (llm_rounds r c fs) budget (llm_rounds-IsWithin fs budget)

  -- With a budget, the model is run at most as often as it says, whatever flows come in.
  pub llm_rounds-bounded :
      (fs : List (FlowData Double))
      → 0 < c.max_llm_flows
      → (llm_rounds r c fs).model_calls ≤ c.max_llm_flows
  unfolding IsWithin
  llm_rounds-bounded fs budget = (llm_rounds-IsWithin fs budget).1
