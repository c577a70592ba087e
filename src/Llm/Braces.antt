-- ===== src/Llm/Braces.antt =====
-- src/llm_inference.cpp, `worker_loop`: the cut of the answer at a closing brace.
use wirewolf.Alert.{unescape, read_string, after_pattern, after_byte, or_empty, then_find, extract}
use wirewolf.Base.{
  ℕ, zero, suc, ◌≡◌, refl, Bool, true, false, not, ◌&&◌, ◌||◌, ◌==◌, [], ◌∷◌, ◌++◌, Option, none,
  some, drop, length, if-ind, ltb, leb, arith,
}
use wirewolf.Base.Doubles.{Doubles}
use wirewolf.Base.Text.{Bytes, codes, contains, starts_with}
use wirewolf.Base.Words.{bswap16}
use wirewolf.Filter.Http.{until}
use wirewolf.Llm.Suppress.{is_nil, is_false_positive, payload_contains_snippet}
use wirewolf.Llm.Verdict.{
  LlmSettings, Outcome, Round, aliases, canonical_in, first_object, is_empty_json, check_claim,
  check_answer, is_binary, ask_model, decide_tagged, infer_in_budget, llm_round,
}
use wirewolf.Packet.{FlowData}

unfoldable pub has_no_brace : Bytes → Bool
has_no_brace [] = true
has_no_brace (c ∷ cs) = not (c == b'}') && has_no_brace cs

-- No closing brace but as the last byte.
braces_last : Bytes → Bool
braces_last [] = true
braces_last (c ∷ []) = true
braces_last (c ∷ d ∷ cs) = not (c == b'}') && braces_last (d ∷ cs)

has_no_brace-snoc :
    (xs : Bytes) (c : ℕ)
    → has_no_brace xs ≡ true
    → (c == b'}') ≡ false
    → has_no_brace (xs ++ c ∷ []) ≡ true
unfolding has_no_brace
has_no_brace-snoc [] c h k = ground (arith, k)
has_no_brace-snoc (x ∷ xs) c h k = ground (arith, h, has_no_brace-snoc xs c)

unescape-plain : (c : ℕ) → (c == b'}') ≡ false → (unescape c == b'}') ≡ false
unfolding unescape
unescape-plain c h = ground (arith, h)

AllOf : (Bytes → Bool) → Option Bytes → Type 0
AllOf test none = Unit
AllOf test (some s) = test s ≡ true

read_string-plain :
    (acc u : Bytes)
    → has_no_brace acc ≡ true
    → braces_last u ≡ true
    → AllOf has_no_brace (read_string acc u)
unfolding read_string braces_last AllOf
read_string-plain acc [] a l = tt
read_string-plain acc (c ∷ []) a l = if-ind (AllOf has_no_brace) (c == b'"') (λ _. a) λ _. tt
read_string-plain acc (c ∷ d ∷ []) a l =
    if-ind (AllOf has_no_brace) (c == 92) (λ _. tt)
      λ _.
        if-ind (AllOf has_no_brace) (c == b'"') (λ _. a)
          λ _.
            read_string-plain (acc ++ c ∷ []) (d ∷ [])
              (has_no_brace-snoc acc c a (ground (arith, l))) refl
read_string-plain acc (c ∷ d ∷ e ∷ cs) a l =
    let plain_d = unescape-plain d (ground (arith, l)) in
    if-ind (AllOf has_no_brace) (c == 92)
      (λ _.
        read_string-plain (acc ++ unescape d ∷ []) (e ∷ cs)
          (has_no_brace-snoc acc (unescape d) a plain_d) (ground (arith, l)))
      λ _.
        if-ind (AllOf has_no_brace) (c == b'"') (λ _. a)
          λ _.
            read_string-plain (acc ++ c ∷ []) (d ∷ e ∷ cs)
              (has_no_brace-snoc acc c a (ground (arith, l))) (ground (arith, l))

braces_last-tail : (c : ℕ) (cs : Bytes) → braces_last (c ∷ cs) ≡ true → braces_last cs ≡ true
unfolding braces_last
braces_last-tail c [] h = refl
braces_last-tail c (d ∷ cs) h = ground (arith, h)

braces_last-drop : (n : ℕ) (u : Bytes) → braces_last u ≡ true → braces_last (drop n u) ≡ true
unfolding braces_last
braces_last-drop zero u h = h
braces_last-drop (suc n) [] h = refl
braces_last-drop (suc n) (c ∷ u) h = braces_last-drop n u (braces_last-tail c u h)

after_pattern-braces_last :
    (pat u : Bytes) → braces_last u ≡ true → AllOf braces_last (after_pattern pat u)
unfolding after_pattern AllOf
after_pattern-braces_last pat [] h = tt
after_pattern-braces_last pat (c ∷ cs) h =
    if-ind (AllOf braces_last) (starts_with (c ∷ cs) pat)
      (λ _. braces_last-drop (length pat) (c ∷ cs) h)
      λ _. after_pattern-braces_last pat cs (braces_last-tail c cs h)

after_byte-braces_last :
    (b : ℕ) (u : Bytes) → braces_last u ≡ true → AllOf braces_last (after_byte b u)
unfolding after_byte AllOf
after_byte-braces_last b [] h = tt
after_byte-braces_last b (c ∷ cs) h =
    if-ind (AllOf braces_last) (c == b) (λ _. braces_last-tail c cs h)
      λ _. after_byte-braces_last b cs (braces_last-tail c cs h)

then_find-AllOf :
    (p q : Bytes → Bool) (o : Option Bytes) (f : Bytes → Option Bytes)
    → AllOf p o
    → ((u : Bytes) → p u ≡ true → AllOf q (f u))
    → AllOf q (then_find o f)
unfolding AllOf
then_find-AllOf p q none f h k = tt
then_find-AllOf p q (some u) f h k = k u h

or_empty-plain : (o : Option Bytes) → AllOf has_no_brace o → has_no_brace (or_empty o) ≡ true
unfolding AllOf has_no_brace
or_empty-plain none h = refl
or_empty-plain (some s) h = h

extract-plain : (key u : Bytes) → braces_last u ≡ true → has_no_brace (extract key u) ≡ true
unfolding extract has_no_brace
extract-plain key u h = or_empty-plain _ (
    then_find-AllOf braces_last has_no_brace _ _ (after_pattern-braces_last _ u h) λ v k.
      then_find-AllOf braces_last has_no_brace _ _ (after_byte-braces_last b':' v k) λ w l.
        then_find-AllOf braces_last has_no_brace _ _ (after_byte-braces_last b'"' w l)
          λ x m. read_string-plain [] x refl m)

braces_last-cons :
    (c : ℕ) (t : Bytes) → (c == b'}') ≡ false → braces_last t ≡ true → braces_last (c ∷ t) ≡ true
unfolding braces_last
braces_last-cons c [] h k = refl
braces_last-cons c (d ∷ t) h k = ground (arith, h, k)

until-braces_last : (u : Bytes) → braces_last (until b'}' u ++ b'}' ∷ []) ≡ true
unfolding until braces_last
until-braces_last [] = refl
until-braces_last (c ∷ u) =
    if-ind (λ (v : Bytes). braces_last (v ++ b'}' ∷ []) ≡ true) (c == b'}') {x = []}
      {y = c ∷ until b'}' u} (λ _. refl)
      λ other. braces_last-cons c (until b'}' u ++ b'}' ∷ []) other (until-braces_last u)

none-braces_last : (u : Bytes) → contains u (b'}' ∷ []) ≡ false → braces_last u ≡ true
unfolding contains starts_with braces_last
none-braces_last [] h = refl
none-braces_last (c ∷ []) h = refl
none-braces_last (c ∷ d ∷ u) h = ground (arith, h, none-braces_last (d ∷ u))

first_object-braces_last : (result : Bytes) → braces_last (first_object result) ≡ true
unfolding first_object
first_object-braces_last result =
    if-ind (λ u. braces_last u ≡ true) (contains result (b'}' ∷ [])) (λ _. until-braces_last result)
      λ none_in. none-braces_last result none_in

-- No closing brace stands in the snippet of an alert raised from the model's answer. The other
-- outcomes say nothing.
unfoldable pub IsPlain : Outcome → Type 0
IsPlain (Outcome.alert t sev snippet payload) = has_no_brace snippet ≡ true
IsPlain _ = Unit

check_claim-IsPlain :
    (t severity snippet text : Bytes) (port : ℕ)
    → has_no_brace snippet ≡ true
    → IsPlain (check_claim t severity snippet text port)
unfolding check_claim IsPlain
check_claim-IsPlain t severity snippet text port h =
    if-ind IsPlain (is_nil t || is_nil severity || is_nil snippet) (λ _. tt)
      λ _.
        if-ind IsPlain (not (payload_contains_snippet text snippet)) (λ _. tt)
          λ _. if-ind IsPlain (is_false_positive t snippet text port) (λ _. tt) λ _. h

check_answer-IsPlain : (result text : Bytes) (port : ℕ) → IsPlain (check_answer result text port)
unfolding check_answer IsPlain
check_answer-IsPlain result text port =
    let object = first_object result in
    let t = canonical_in aliases (extract (codes "threat_type") object) in
    let severity = extract (codes "severity") object in
    let snippet = extract (codes "snippet") object in
    if-ind IsPlain (is_empty_json result) {x = Outcome.benign}
      {y = check_claim t severity snippet text port} (λ _. tt)
      λ _.
        check_claim-IsPlain t severity snippet text port
          (extract-plain (codes "snippet") object (first_object-braces_last result))

-- The answer is cut at its first closing brace, inside a quoted value too: whatever the model answers to
-- whatever flow, no alert that is raised from its answer has a snippet with a closing brace. Of
-- the alerts of flows that an earlier stage tagged, for which no model is asked, it says nothing.
pub llm_round-IsPlain :
    (r : Doubles) (c : LlmSettings) (f : FlowData r.Double) (runs calls : ℕ)
    → IsPlain (llm_round r c f runs calls).outcome
unfolding llm_round infer_in_budget ask_model IsPlain decide_tagged
llm_round-IsPlain r c f runs calls =
    let P = λ (x : Round). IsPlain x.outcome in
    if-ind P (is_nil f.reassembled_payload) (λ _. tt)
      λ _.
        if-ind P (not (is_nil f.protocol_tag)) (λ _. tt)
          λ _.
            if-ind P (is_binary r c _) (λ _. tt)
              λ _.
                if-ind P (ltb 0 c.max_llm_flows && leb c.max_llm_flows runs) (λ _. tt)
                  λ _. check_answer-IsPlain _ _ (bswap16 f.id.src_port)
