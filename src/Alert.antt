-- ===== src/Alert.antt =====
-- src/alert_json.cpp and the alert callback of src/pipeline_controller.cpp: an alert is written as
-- JSON by one stage and its fields are read back by another. Texts are lists of bytes; how a number
-- is printed (`std::format` of a float) is a parameter.
pub mod RoundTrip
use wirewolf.Base.{
  ℕ, ◌+◌, ◌/◌, ◌%◌, List, [], ◌∷◌, ◌++◌, Option, none, some, length, drop, ltb, ◌==◌, if◌then◌else◌,
}
use wirewolf.Base.Text.{Bytes, codes, starts_with}

abbrev hex_digit : ℕ → ℕ
hex_digit n = if ltb n 10 then n + b'0' else n + 87

unfoldable pub escape_byte : ℕ → Bytes
escape_byte c =
    if c == b'"'
    then codes "\\\""
    else if c == 92
    then codes "\\\\"
    else if c == 10
    then codes "\\n"
    else if c == 13
    then codes "\\r"
    else if c == 9
    then codes "\\t"
    else if ltb c 0x20
    then codes "\\u00" ++ (hex_digit (c / 16) ∷ hex_digit (c % 16) ∷ [])
    else (c ∷ [])

unfoldable pub json_escape : Bytes → Bytes
json_escape [] = []
json_escape (c ∷ cs) = escape_byte c ++ json_escape cs

unfoldable pub build_alert_json : Bytes → Bytes → Bytes → Bytes → Bytes
build_alert_json threat_type severity cvss snippet =
    codes "{\"threat_type\": \""
    ++ (json_escape threat_type
        ++ (codes "\", \"severity\": \""
            ++ (json_escape severity
                ++ (codes "\", \"cvss\": "
                    ++ (cvss
                        ++ (codes ", \"snippet\": \"" ++ (json_escape snippet ++ codes "\"}")))))))

-- The byte that a backslash and `next` stand for.
unfoldable pub unescape : ℕ → ℕ
unescape next =
    if next == b'n' then 10 else if next == b'r' then 13 else if next == b't' then 9 else next

-- The loop of `extract` behind the opening quote; `none` where no closing quote follows.
unfoldable pub read_string : Bytes → Bytes → Option Bytes
read_string result [] = none
read_string result (c ∷ []) = if c == b'"' then some result else none
read_string result (c ∷ next ∷ cs) =
    let escaped = read_string (result ++ unescape next ∷ []) cs in
    let plain = read_string (result ++ c ∷ []) (next ∷ cs) in
    if c == 92 then escaped else if c == b'"' then some result else plain

-- `find`, as what follows the first occurrence.
unfoldable pub after_pattern : Bytes → Bytes → Option Bytes
after_pattern pattern_ [] = none
after_pattern pattern_ (c ∷ cs) =
    if starts_with (c ∷ cs) pattern_
    then some (drop (length pattern_) (c ∷ cs))
    else after_pattern pattern_ cs

unfoldable pub after_byte : ℕ → Bytes → Option Bytes
after_byte b [] = none
after_byte b (c ∷ cs) = if c == b then some cs else after_byte b cs

abbrev pub or_empty : Option Bytes → Bytes
or_empty none = []
or_empty (some s) = s

abbrev pub then_find : Option Bytes → (Bytes → Option Bytes) → Option Bytes
then_find none f = none
then_find (some s) f = f s

unfoldable pub extract : Bytes → Bytes → Bytes
extract key llm_output = or_empty (
    then_find (after_pattern (b'"' ∷ (key ++ b'"' ∷ [])) llm_output) λ value.
      then_find (after_byte b':' value)
        λ quoted. then_find (after_byte b'"' quoted) (read_string []))
