-- ===== src/Filter/Signals.antt =====
-- src/npu_filter.cpp, `detect_rat_protocol`: which of its signals can bring the score to four.
use wirewolf.Base.{
  ℕ, zero, suc, ◌+◌, leb, ltb, if◌then◌else◌, ◌≤◌, ◌≡◌, refl, ap, ◌∙◌, ◌↔◌, Bool, true, false, ◌&&◌,
  [], ◌∷◌, ◌++◌, length, take, drop, Bool-cases, inl, inr, arith,
}
use wirewolf.Base.Text.{Bytes}
use wirewolf.Filter.Rat.{
  all_bytes, is_digit, is_command, commands_from, cmd_count, rat_score, standard_port, delim_count,
  detect_rat_protocol,
}
use wirewolf.Filter.Credentials.{points}
use wirewolf.Packet.{FlowData}

drop-suc :
    (i : ℕ) (text : Bytes) (b : ℕ) (rest : Bytes)
    → drop i text ≡ b ∷ rest
    → (drop (suc i) text ≡ rest) × (take (suc i) text ≡ take i text ++ (b ∷ []))
drop-suc zero [] b rest e = ground (arith, e)
drop-suc zero (c ∷ cs) b rest e = ground (arith, e)
drop-suc (suc i) [] b rest e = ground (arith, e)
drop-suc (suc i) (c ∷ cs) b rest e = let (d, t) = drop-suc i cs b rest e in (d, ap (λ l. c ∷ l) t)

all_bytes-append :
    (test : ℕ → Bool) (xs ys : Bytes)
    → all_bytes test (xs ++ ys) ≡ (all_bytes test xs && all_bytes test ys)
unfolding all_bytes
all_bytes-append test [] ys = refl
all_bytes-append test (x ∷ xs) ys = ground (arith, all_bytes-append test xs ys)

-- Behind a byte that is no digit there is no command.
commands_from-quiet :
    (text : Bytes) (i : ℕ) (rest : Bytes)
    → drop i text ≡ rest
    → all_bytes is_digit (take i text) ≡ false
    → commands_from text i rest ≡ 0
unfolding commands_from is_command
commands_from-quiet text i [] e h = refl
commands_from-quiet text i (b ∷ rest) e h =
    let (d, t) = drop-suc i text b rest e in
    let longer = ap (all_bytes is_digit) t ∙ all_bytes-append is_digit (take i text) (b ∷ []) in
    let later = commands_from-quiet text (suc i) rest d (ground (arith, longer, h)) in
    ground (arith, later, h)

drop-zero : (text : Bytes) → drop 0 text ≡ text
drop-zero text = refl

is_command-digit :
    (text : Bytes) (i b : ℕ) (rest : Bytes)
    → is_digit b ≡ true
    → is_command text i (b ∷ rest) ≡ false
unfolding is_command is_digit
is_command-digit text i b rest h = ground (arith, h)

not_all_digits :
    {x : Bool} (all : Bool) (b : ℕ)
    → is_digit b ≡ false
    → x ≡ (all && all_bytes is_digit (b ∷ []))
    → x ≡ false
unfolding all_bytes
not_all_digits all b h e = ground (arith, h, e)

-- The bytes in front of a command are digits, and its first byte is none.
commands_from-at_most_one :
    (text : Bytes) (i : ℕ) (rest : Bytes) → drop i text ≡ rest → commands_from text i rest ≤ 1
unfolding commands_from
commands_from-at_most_one text i [] e = omega arith
commands_from-at_most_one text i (b ∷ rest) e =
    let (d, t) = drop-suc i text b rest e in
    let longer = ap (all_bytes is_digit) t ∙ all_bytes-append is_digit (take i text) (b ∷ []) in
    let later = commands_from-at_most_one text (suc i) rest d in
    elim (Bool-cases (is_digit b)) [
      | inl digit ↦ ground (arith, later, is_command-digit text i b rest digit)
      | inr other ↦
          let none_later =
            commands_from-quiet text (suc i) rest d (not_all_digits _ b other longer) in
          ground (arith, none_later)
    ]

score_of_four :
    (d c m b : ℕ)
    → c ≤ 1
    → (leb 4 (points 4 (leb 3 d) + points 2 (leb 2 c) + points 2 (leb 2 m) + points 1 (leb 3 b))
        ≡ true)
      ↔ (3 ≤ d)
score_of_four d c m b h = ground arith

rat_score_iff : (text : Bytes) → (leb 4 (rat_score text) ≡ true) ↔ (3 ≤ delim_count text)
unfolding rat_score cmd_count
rat_score_iff text =
    score_of_four (delim_count text) _ _ _ (commands_from-at_most_one text 0 text (drop-zero text))

guarded :
    (n : ℕ) (standard hit : Bool) (P : Type 0)
    → (hit ≡ true) ↔ P
    → ((if ltb n 20 then false else if standard then false else hit) ≡ true)
      ↔ ((20 ≤ n) × (standard ≡ false) × P)
guarded n standard hit P h = (
  λ e. (ground (arith, e), ground (arith, e), h.0 (ground (arith, e))),
  λ (long, other, p). ground (arith, long, other, h.1 p),
)

-- The generic command structure is found at most once in a payload, so that its rule, which asks for
-- two, never adds to the score: a flow is taken for a RAT exactly if it has 20 bytes, neither port
-- is a standard one, and its first 4096 bytes hold the njRAT delimiter three times.
pub detect_rat_protocol_iff :
    {Double : Type 0} (f : FlowData Double)
    → (detect_rat_protocol f ≡ true) ↔ (
        (20 ≤ length f.reassembled_payload)
        × (standard_port f.id ≡ false)
        × (3 ≤ delim_count (take 4096 f.reassembled_payload)))
unfolding detect_rat_protocol
detect_rat_protocol_iff f =
    guarded (length f.reassembled_payload) (standard_port f.id) _ _
      (rat_score_iff (take 4096 f.reassembled_payload))
