-- ===== src/Filter/Credentials.antt =====
-- src/npu_filter.cpp, `detect_credential_content` and `detect_http_bruteforce`, on the payload's
-- bytes.
use Prim.Native.String.{String}
use wirewolf.Base.{
  ℕ, zero, suc, ◌+◌, min, Bool, false, ◌&&◌, ◌||◌, List, [], ◌∷◌, length, take, drop, ltb, leb,
  ◌==◌, if◌then◌else◌,
}
use wirewolf.Base.Doubles.{Doubles}
use wirewolf.Base.Text.{Bytes, codes, contains, starts_with, to_lower}
use wirewolf.Filter.Ftp.{contains_any}

unfoldable pub is_printable : ℕ → Bool
is_printable b = (leb 32 b && leb b 126) || b == b'\n' || b == b'\r' || b == b'\t'

unfoldable pub printable : Bytes → ℕ
printable [] = 0
printable (b ∷ bs) = let rest = printable bs in if is_printable b then suc rest else rest

abbrev pub points : ℕ → Bool → ℕ
points n hit = if hit then n else 0

-- The score before the search for addresses.
unfoldable pub marker_score : Bytes → ℕ
marker_score text =
    points 2 (contains_any ("User Name:" ∷ "Computer Name:" ∷ "OSFullName:" ∷ []) text)
    + points 2 (contains_any ("Password:" ∷ "Password=" ∷ []) text)
    + points 1 (contains_any ("Username:" ∷ "Username=" ∷ []) text)
    + points 1 (contains_any ("Application:" ∷ []) text)
    + points 1 (contains_any ("imap://" ∷ "smtp://" ∷ "pop3://" ∷ "ftp://" ∷ "oauth://" ∷ []) text)
    + points 2 (contains text (codes "Host:") && contains text (codes "Password:"))

unfoldable pub is_email_char : ℕ → Bool
is_email_char c =
    (leb b'a' c && leb c b'z')
    || (leb b'A' c && leb c b'Z')
    || (leb b'0' c && leb c b'9')
    || c == b'.'
    || c == b'_'
    || c == b'-'
    || c == b'+'

-- The longest start of a text that consists of such characters.
unfoldable pub domain_of : Bytes → Bytes
domain_of [] = []
domain_of (c ∷ cs) = let rest = domain_of cs in if is_email_char c then c ∷ rest else []

unfoldable pub is_valid_domain : Bytes → Bool
is_valid_domain after =
    let d = domain_of after in leb 2 (length after) && contains d (b'.' ∷ []) && leb 4 (length d)

-- Every `@` behind the first byte, with the byte before it.
unfoldable pub emails_after : ℕ → Bytes → ℕ
emails_after prev [] = 0
emails_after prev (c ∷ cs) =
    let later = emails_after c cs in
    if c == b'@' && is_email_char prev && is_valid_domain cs then suc later else later

-- The loop stops at six, and at once where the text starts with `@`.
unfoldable pub email_count : Bytes → ℕ
email_count [] = 0
email_count (c ∷ cs) = if c == b'@' then 0 else min 6 (emails_after c cs)

unfoldable pub credential_score : Bytes → ℕ
credential_score text =
    let score = marker_score text in
    if ltb score 3 && leb 5 (email_count text) then score + 3 else score

module _ (r : Doubles) where
  open r use {of_ℕ, div, lt}

  unfoldable pub detect_credential_content : Bytes → Bool
  detect_credential_content p =
      let text = take 2048 p in
      if ltb (length p) 20
      then false
      else if lt (div (of_ℕ (printable text)) (of_ℕ (length text))) (div (of_ℕ 85) (of_ℕ 100))
      then false
      else leb 3 (credential_score text)

abbrev pub auth_paths : List String
auth_paths =
    "login" ∷ "log-in" ∷ "signin" ∷ "sign-in" ∷ "logon" ∷ "auth" ∷ "wp-login" ∷ "wp-admin"
    ∷ "/admin" ∷ "session" ∷ "oauth" ∷ "/token" ∷ "account" ∷ "/api/login" ∷ "j_security_check" ∷ []

abbrev has_blank : Bytes → Bool
has_blank s = contains s (b' ' ∷ [])

unfoldable pub before_blank : Bytes → Bytes
before_blank [] = []
before_blank (c ∷ cs) = let rest = before_blank cs in if c == b' ' then [] else (c ∷ rest)

-- The path behind a `POST `: up to the next blank, or 256 bytes where no blank follows.
unfoldable pub path_at : Bytes → Bytes
path_at s = if has_blank s then before_blank s else take 256 s

unfoldable pub auth_post_count : ℕ → Bytes → ℕ
auth_post_count skip [] = 0
auth_post_count (suc skip) (c ∷ cs) = auth_post_count skip cs
auth_post_count zero (c ∷ cs) =
    let hit = starts_with (c ∷ cs) (codes "POST ") in
    let later = auth_post_count (if hit then 4 else 0) cs in
    if hit && contains_any auth_paths (to_lower (path_at (drop 4 cs))) then suc later else later

unfoldable pub detect_http_bruteforce : Bytes → Bool
detect_http_bruteforce p =
    if ltb (length p) 50 then false else leb 5 (auth_post_count 0 (take 8192 p))
