-- ===== src/Filter/Ftp.antt =====
-- src/npu_filter.cpp, `detect_ftp_activity`, on the payload's bytes.
use Prim.Native.String.{String}
use wirewolf.Alert.{after_pattern}
use wirewolf.Base.{
  ℕ, zero, suc, ◌-◌, Bool, true, false, ◌&&◌, ◌||◌, List, [], ◌∷◌, Option, none, some, length, take,
  ltb, leb, ◌==◌, if◌then◌else◌,
}
use wirewolf.Base.Text.{Bytes, codes, contains, starts_with}

-- The loop of `find` that goes on behind each match: `skip` bytes belong to the last one.
unfoldable pub count_matches : Bytes → ℕ → Bytes → ℕ
count_matches pat skip [] = 0
count_matches pat (suc skip) (c ∷ cs) = count_matches pat skip cs
count_matches pat zero (c ∷ cs) =
    let hit = starts_with (c ∷ cs) pat in
    let later = count_matches pat (if hit then length pat - 1 else 0) cs in
    if hit then suc later else later

-- The text before the first line end.
unfoldable pub first_line : Bytes → Bytes
first_line [] = []
first_line (c ∷ cs) =
    let rest = first_line cs in if c == b'\r' || c == b'\n' then [] else (c ∷ rest)

unfoldable pub contains_any : List String → Bytes → Bool
contains_any [] text = false
contains_any (s ∷ ss) text = contains text (codes s) || contains_any ss text

abbrev pub suspicious_patterns : List String
suspicious_patterns =
    "PW_" ∷ "password" ∷ "Password" ∷ "cred" ∷ "Cred" ∷ "keylog" ∷ "Keylog" ∷ "wallet" ∷ "Wallet"
    ∷ "cookie" ∷ "Cookie" ∷ "Login" ∷ "login_" ∷ "Contacts" ∷ "contacts" ∷ "token" ∷ "Token"
    ∷ "secret" ∷ "Secret" ∷ []

abbrev has_suspicious_name : Option Bytes → Bool
has_suspicious_name none = false
has_suspicious_name (some rest) = contains_any suspicious_patterns (first_line (take 200 rest))

unfoldable pub detect_ftp_activity : Bytes → Bool
detect_ftp_activity p =
    let text = take 2048 p in
    let has_user = contains text (codes "USER ") in
    let has_pass = contains text (codes "PASS ") in
    let has_stor = contains text (codes "STOR ") in
    if ltb (length p) 10
    then false
    else if has_user && has_pass && has_stor
    then true
    else if has_stor && has_suspicious_name (after_pattern (codes "STOR ") text)
    then true
    else has_stor && leb 2 (count_matches (codes "STOR ") 0 text)
