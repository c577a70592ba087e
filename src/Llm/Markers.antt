-- ===== src/Llm/Markers.antt =====
-- src/llm_inference.cpp, `sanitize_for_prompt`: the tokens of the chat template.
use wirewolf.Base.{
  ℕ, zero, suc, ◌-◌, ◌≡◌, ◌==◌, refl, true, false, [], ◌∷◌, ◌++◌, length, Bool-cases, inl, inr,
  arith,
}
use wirewolf.Base.Text.{Bytes, codes, starts_with, contains}
use wirewolf.Llm.Sanitize.{replace_all, sanitize_for_prompt}

-- A first byte of the output is one of the input.
HeadFrom : Bytes → Bytes → ℕ → Type 0
HeadFrom from to b =
    (s r : Bytes)
    → starts_with s from ≡ true
    → starts_with (to ++ r) (b ∷ []) ≡ true
    → starts_with s (b ∷ []) ≡ true

head-replace_all :
    (from to : Bytes) (b : ℕ) (s : Bytes)
    → HeadFrom from to b
    → starts_with (replace_all from to 0 s) (b ∷ []) ≡ true
    → starts_with s (b ∷ []) ≡ true
unfolding replace_all HeadFrom starts_with
head-replace_all from to b [] heads h = h
head-replace_all from to b (c ∷ cs) heads h = elim (Bool-cases (starts_with (c ∷ cs) from)) [
  | inl hit ↦ heads (c ∷ cs) _ hit (rw hit at h)
  | inr miss ↦ rw miss at h
]

unmatched :
    (a b c : ℕ) (cs t : Bytes)
    → starts_with (c ∷ cs) (a ∷ b ∷ []) ≡ false
    → (starts_with t (b ∷ []) ≡ true → starts_with cs (b ∷ []) ≡ true)
    → contains t (a ∷ b ∷ []) ≡ false
    → contains (c ∷ t) (a ∷ b ∷ []) ≡ false
unfolding contains starts_with
unmatched a b c cs t miss head h = elim (Bool-cases (starts_with t (b ∷ []))) [
  | inl first ↦ ground (arith, first, head first, miss, h)
  | inr other ↦ ground (arith, other, h)
]

contains-cons :
    (a b c : ℕ) (cs t : Bytes)
    → contains (c ∷ cs) (a ∷ b ∷ []) ≡ false
    → (starts_with t (b ∷ []) ≡ true → starts_with cs (b ∷ []) ≡ true)
    → contains t (a ∷ b ∷ []) ≡ false
    → contains (c ∷ t) (a ∷ b ∷ []) ≡ false
unfolding contains
contains-cons a b c cs t none_in head h = unmatched a b c cs t (ground (arith, none_in)) head h

inserted :
    (a x b : ℕ) (r : Bytes)
    → (a == b) ≡ false
    → (x == a) ≡ false
    → (x == b) ≡ false
    → contains r (a ∷ b ∷ []) ≡ false
    → contains (a ∷ x ∷ b ∷ r) (a ∷ b ∷ []) ≡ false
unfolding contains starts_with
inserted a x b r ab xa xb h = ground (arith, ab, xa, xb, h)

head-inserted : (a x b : ℕ) → HeadFrom (a ∷ b ∷ []) (a ∷ x ∷ b ∷ []) b
unfolding HeadFrom starts_with
head-inserted a x b [] r hit h = ground (arith, hit)
head-inserted a x b (c ∷ cs) r hit h = ground (arith, hit, h)

-- A replacement that brings in no pair `a b` leaves none where there is none.
replace_all-keeps :
    (from to : Bytes) (a b skip : ℕ) (s : Bytes)
    → HeadFrom from to b
    → ((r : Bytes) → contains r (a ∷ b ∷ []) ≡ false → contains (to ++ r) (a ∷ b ∷ []) ≡ false)
    → contains s (a ∷ b ∷ []) ≡ false
    → contains (replace_all from to skip s) (a ∷ b ∷ []) ≡ false
unfolding replace_all contains starts_with
replace_all-keeps from to a b skip [] heads safe h = refl
replace_all-keeps from to a b (suc skip) (c ∷ cs) heads safe h =
    replace_all-keeps from to a b skip cs heads safe (ground (arith, h))
replace_all-keeps from to a b zero (c ∷ cs) heads safe h =
    elim (Bool-cases (starts_with (c ∷ cs) from)) [
      | inl hit ↦ rw hit (
          safe _
            (replace_all-keeps from to a b (length from - 1) cs heads safe (ground (arith, h))))
      | inr miss ↦ rw miss (
          contains-cons a b c cs _ h (head-replace_all from to b cs heads)
            (replace_all-keeps from to a b 0 cs heads safe (ground (arith, h))))
    ]

-- Replacing `a b` by `a x b` leaves no pair `a b`.
replace_all-breaks :
    (a x b skip : ℕ) (s : Bytes)
    → (a == b) ≡ false
    → (x == a) ≡ false
    → (x == b) ≡ false
    → contains (replace_all (a ∷ b ∷ []) (a ∷ x ∷ b ∷ []) skip s) (a ∷ b ∷ []) ≡ false
unfolding replace_all contains starts_with
replace_all-breaks a x b skip [] ab xa xb = refl
replace_all-breaks a x b (suc skip) (c ∷ cs) ab xa xb = replace_all-breaks a x b skip cs ab xa xb
replace_all-breaks a x b zero (c ∷ cs) ab xa xb =
    elim (Bool-cases (starts_with (c ∷ cs) (a ∷ b ∷ []))) [
      | inl hit ↦ rw hit (inserted a x b _ ab xa xb (replace_all-breaks a x b 1 cs ab xa xb))
      | inr miss ↦ rw miss (
          unmatched a b c cs _ miss (head-replace_all _ _ b cs (head-inserted a x b))
            (replace_all-breaks a x b 0 cs ab xa xb))
    ]

IsInert : Bytes → Type 0
IsInert s = (contains s (codes "<|") ≡ false) × (contains s (codes "|>") ≡ false)

marker-IsInert :
    (from to s : Bytes)
    → HeadFrom from to b'|'
    → HeadFrom from to b'>'
    → ((r : Bytes) → contains r (codes "<|") ≡ false → contains (to ++ r) (codes "<|") ≡ false)
    → ((r : Bytes) → contains r (codes "|>") ≡ false → contains (to ++ r) (codes "|>") ≡ false)
    → IsInert s
    → IsInert (replace_all from to 0 s)
unfolding IsInert
marker-IsInert from to s head_bar head_gt safe_lt safe_gt (lt, gt) = (
  replace_all-keeps from to b'<' b'|' 0 s head_bar safe_lt lt,
  replace_all-keeps from to b'|' b'>' 0 s head_gt safe_gt gt,
)

head_first :
    (x y : ℕ) (t : Bytes) → starts_with t (x ∷ y ∷ []) ≡ true → starts_with t (x ∷ []) ≡ true
unfolding starts_with
head_first x y [] h = h
head_first x y (c ∷ t) h = ground (arith, h)

-- A text that starts with a parenthesis starts with no other byte.
no_paren :
    (b : ℕ) (to s r : Bytes)
    → (b'(' == b) ≡ false
    → starts_with (b'(' ∷ (to ++ r)) (b ∷ []) ≡ true
    → starts_with s (b ∷ []) ≡ true
unfolding starts_with
no_paren b to s r other h = ground (arith, other, h)

-- Whatever the payload, no opening `<|` and no closing `|>` of a chat-template token is left in what
-- is put into the prompt.
pub sanitize_for_prompt-IsInert :
    (s : Bytes)
    → (contains (sanitize_for_prompt s) (codes "<|") ≡ false)
      × (contains (sanitize_for_prompt s) (codes "|>") ≡ false)
unfolding sanitize_for_prompt IsInert HeadFrom contains starts_with
sanitize_for_prompt-IsInert s =
    let s1 = replace_all (codes "<|") (codes "< |") 0 s in
    let s2 = replace_all (codes "|>") (codes "| >") 0 s1 in
    let lt1 = replace_all-breaks b'<' b' ' b'|' 0 s refl refl refl in
    let lt2 =
      replace_all-keeps (codes "|>") (codes "| >") b'<' b'|' 0 s1
        (λ t r hit h. head_first b'|' b'>' t hit) (λ r h. h) lt1 in
    let gt2 = replace_all-breaks b'|' b' ' b'>' 0 s1 refl refl refl in
    let s3 =
      marker-IsInert (codes "[Context]") (codes "(Context)") s2
        (λ t r hit h. no_paren b'|' (codes "Context)") t r refl h)
        (λ t r hit h. no_paren b'>' (codes "Context)") t r refl h) (λ r h. h) (λ r h. h)
        (lt2, gt2) in
    let s4 =
      marker-IsInert (codes "[Payload]") (codes "(Payload)") _
        (λ t r hit h. no_paren b'|' (codes "Payload)") t r refl h)
        (λ t r hit h. no_paren b'>' (codes "Payload)") t r refl h) (λ r h. h) (λ r h. h) s3 in
    marker-IsInert (codes "[Decoded]") (codes "(Decoded)") _
      (λ t r hit h. no_paren b'|' (codes "Decoded)") t r refl h)
      (λ t r hit h. no_paren b'>' (codes "Decoded)") t r refl h) (λ r h. h) (λ r h. h) s4
