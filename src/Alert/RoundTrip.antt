-- ===== src/Alert/RoundTrip.antt =====
-- src/alert_json.cpp against `extract` of src/pipeline_controller.cpp: writing and reading a field.
use wirewolf.Base.{
  ℕ, ◌/◌, ◌%◌, ◌≤◌, ◌<◌, ◌≡◌, ◌⊎◌, inl, inr, refl, ap, sym, ◌∙◌, false, [], ◌∷◌, ◌++◌, append_assoc,
  append-nil, some, All, ltb, ◌==◌, if◌then◌else◌, arith, Bool-cases,
}
use wirewolf.Base.Text.{Bytes, codes, starts_with}
use wirewolf.Alert.{
  hex_digit, escape_byte, json_escape, build_alert_json, unescape, read_string, after_pattern,
  after_byte, extract,
}

-- What the reader makes of a byte that was written. It takes `\u` for the letter u.
abbrev pub read_back : ℕ → Bytes
read_back c =
    if ltb c 0x20
    then (if c == 10
        then (10 ∷ [])
        else if c == 13
        then (13 ∷ [])
        else if c == 9
        then (9 ∷ [])
        else codes "u00" ++ (hex_digit (c / 16) ∷ hex_digit (c % 16) ∷ []))
    else (c ∷ [])

abbrev pub read_back_all : Bytes → Bytes
read_back_all [] = []
read_back_all (c ∷ cs) = read_back c ++ read_back_all cs

-- One step of the reader, with something behind it.
read_plain :
    (acc : Bytes) (c d : ℕ) (rest : Bytes)
    → (c == 92) ≡ false
    → (c == b'"') ≡ false
    → read_string acc (c ∷ d ∷ rest) ≡ read_string (acc ++ c ∷ []) (d ∷ rest)
unfolding read_string
read_plain acc c d rest p q = rw (p, q)

read_escaped :
    (acc : Bytes) (d : ℕ) (rest : Bytes)
    → read_string acc (92 ∷ d ∷ rest) ≡ read_string (acc ++ unescape d ∷ []) rest
unfolding read_string
read_escaped acc d rest = refl

abbrev IsPlain : ℕ → Type 0
IsPlain c = ((c == 92) ≡ false) × ((c == b'"') ≡ false)

read_plains :
    (l acc : Bytes) (d : ℕ) (rest : Bytes)
    → All IsPlain l
    → read_string acc (l ++ (d ∷ rest)) ≡ read_string (acc ++ l) (d ∷ rest)
read_plains [] acc d rest p = rw append-nil
read_plains (c ∷ []) acc d rest p = read_plain acc c d rest p.0.0 p.0.1
read_plains (c ∷ e ∷ l) acc d rest p =
    read_plain acc c e (l ++ (d ∷ rest)) p.0.0 p.0.1
    ∙ read_plains (e ∷ l) (acc ++ c ∷ []) d rest p.1
    ∙ ap (λ a. read_string a (d ∷ rest)) (append_assoc acc (c ∷ []) (e ∷ l))

hex_digit-IsPlain : (n : ℕ) → n < 16 → IsPlain (hex_digit n)
hex_digit-IsPlain n h = ground arith

read_control :
    (acc : Bytes) (c d : ℕ) (rest : Bytes)
    → c < 0x20
    → read_string acc (codes "\\u00" ++ (hex_digit (c / 16) ∷ hex_digit (c % 16) ∷ (d ∷ rest)))
      ≡ read_string
          (acc ++ (codes "u00" ++ (hex_digit (c / 16) ∷ hex_digit (c % 16) ∷ [])))
          (d ∷ rest)
unfolding unescape
read_control acc c d rest h =
    let digits : Bytes = hex_digit (c / 16) ∷ hex_digit (c % 16) ∷ [] in
    read_escaped acc b'u' _
    ∙ read_plains (b'0' ∷ b'0' ∷ digits) (acc ++ b'u' ∷ []) d rest (
      (refl, refl),
      (
        (refl, refl),
        (hex_digit-IsPlain (c / 16) (omega arith), (hex_digit-IsPlain (c % 16) (omega arith), tt)),
      ),
    )
    ∙ ap (λ a. read_string a (d ∷ rest)) (append_assoc acc (b'u' ∷ []) (b'0' ∷ b'0' ∷ digits))

-- The escape of a byte that has one of its own.
read_short :
    (acc : Bytes) (c e d : ℕ) (rest : Bytes)
    → escape_byte c ≡ 92 ∷ e ∷ []
    → unescape e ∷ [] ≡ read_back c
    → read_string acc (escape_byte c ++ (d ∷ rest)) ≡ read_string (acc ++ read_back c) (d ∷ rest)
read_short acc c e d rest p q =
    ap (λ w. read_string acc (w ++ (d ∷ rest))) p
    ∙ read_escaped acc e (d ∷ rest)
    ∙ ap (λ w. read_string (acc ++ w) (d ∷ rest)) q

read-escape_byte :
    (acc : Bytes) (c d : ℕ) (rest : Bytes)
    → read_string acc (escape_byte c ++ (d ∷ rest)) ≡ read_string (acc ++ read_back c) (d ∷ rest)
unfolding escape_byte unescape
read-escape_byte acc c d rest = elim (Bool-cases (c == b'"')) [
  | inl q ↦ read_short acc c b'"' d rest (rw q) (ground arith)
  | inr q ↦ elim (Bool-cases (c == 92)) [
    | inl b ↦ read_short acc c 92 d rest (rw (q, b)) (ground arith)
    | inr b ↦ elim (Bool-cases (ltb c 0x20)) [
      | inl control ↦ ground (
        arith,
        read_short acc 10 b'n' d rest refl refl,
        read_short acc 13 b'r' d rest refl refl,
        read_short acc 9 b't' d rest refl refl,
        read_control acc c d rest,
      )
      | inr visible ↦ ground (arith, read_plain acc c d rest)
    ]
  ]
]

not_empty : (l : Bytes) (q : ℕ) (rest : Bytes) → (d : ℕ) × (r : Bytes) × (l ++ q ∷ rest ≡ d ∷ r)
not_empty [] q rest = (q, rest, refl)
not_empty (x ∷ l) q rest = (x, l ++ q ∷ rest, refl)

read-escape_then :
    (acc : Bytes) (c : ℕ) (l rest : Bytes)
    → read_string acc (escape_byte c ++ (l ++ b'"' ∷ rest))
      ≡ read_string (acc ++ read_back c) (l ++ b'"' ∷ rest)
read-escape_then acc c l rest =
    let (d, r, e) = not_empty l b'"' rest in rw e (read-escape_byte acc c d r)

read_quote : (acc rest : Bytes) → read_string acc (b'"' ∷ rest) ≡ some acc
unfolding read_string
read_quote acc [] = refl
read_quote acc (r ∷ rest) = refl

-- A string field is read back up to its closing quote, whatever the text holds and whatever follows:
-- every byte as it was, but for the control bytes that the writer puts as `\u00XX`, of which the
-- reader keeps `u00XX`.
pub read_string-json_escape :
    (s acc rest : Bytes)
    → read_string acc (json_escape s ++ b'"' ∷ rest) ≡ some (acc ++ read_back_all s)
unfolding json_escape
read_string-json_escape [] acc rest = read_quote acc rest ∙ ap some (sym (append-nil acc))
read_string-json_escape (c ∷ s) acc rest =
    ap (read_string acc) (append_assoc (escape_byte c) (json_escape s) (b'"' ∷ rest))
    ∙ read-escape_then acc c (json_escape s) rest
    ∙ read_string-json_escape s (acc ++ read_back c) rest
    ∙ ap some (append_assoc acc (read_back c) (read_back_all s))

-- No control byte but a line feed, a carriage return or a tab.
abbrev pub IsText : Bytes → Type 0
IsText = All (λ c. (0x20 ≤ c) ⊎ (c ≡ 10) ⊎ (c ≡ 13) ⊎ (c ≡ 9))

read_back_text : (s : Bytes) → IsText s → read_back_all s ≡ s
read_back_text [] h = refl
read_back_text (c ∷ s) h = ground (arith, read_back_text s h.1)

-- A threat type without control bytes but line feeds, carriage returns and tabs is read back by the
-- callback as the one that the stage wrote, quotes and backslashes included, whatever the other
-- fields hold.
pub extract-build_alert_json :
    (threat_type severity cvss snippet : Bytes)
    → IsText threat_type
    → extract (codes "threat_type") (build_alert_json threat_type severity cvss snippet)
      ≡ threat_type
unfolding extract build_alert_json after_pattern after_byte starts_with
extract-build_alert_json t severity cvss snippet h =
    rw (read_string-json_escape t [] _) (read_back_text t h)
