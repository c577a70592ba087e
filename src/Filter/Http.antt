-- ===== src/Filter/Http.antt =====
-- src/npu_filter.cpp, `detect_benign_http`.
--
-- The end of the headers is searched with the bytes from `std::begin("\r\n\r\n") - 1` to
-- `std::end("\r\n\r\n") - 2`: the byte in front of the literal, then CR, LF and CR. What stands in
-- front of a literal is the compiler's, so that byte is a parameter.
use Prim.Native.String.{String}
use wirewolf.Base.{
  ℕ, suc, Bool, false, not, ◌||◌, List, [], ◌∷◌, length, take, ltb, ◌==◌, if◌then◌else◌,
}
use wirewolf.Base.Text.{Bytes, codes, starts_with}
use wirewolf.Filter.Ftp.{contains_any}

unfoldable pub is_request : Bytes → Bool
is_request start =
    starts_with start (codes "GET")
    || starts_with start (codes "POST")
    || starts_with start (codes "HEAD")
    || starts_with start (codes "PUT")

-- `std::search`: where the pattern starts, or the length of the text.
unfoldable pub search : Bytes → Bytes → ℕ
search pat [] = 0
search pat (c ∷ cs) = let later = search pat cs in if starts_with (c ∷ cs) pat then 0 else suc later

-- The text up to `std::find` of a byte.
unfoldable pub until : ℕ → Bytes → Bytes
until b [] = []
until b (c ∷ cs) = let rest = until b cs in if c == b then [] else (c ∷ rest)

-- Up to the first CR, or up to the first LF where there is no CR.
unfoldable pub request_line : Bytes → Bytes
request_line headers =
    let line = until b'\r' headers in
    if length line == length headers then until b'\n' headers else line

abbrev pub injection_markers : List String
injection_markers =
    "{{" ∷ "<script" ∷ "<img" ∷ "<svg" ∷ "onerror" ∷ "onload" ∷ "' OR" ∷ "\" OR" ∷ "; DROP"
    ∷ "UNION SELECT" ∷ "$(" ∷ "`" ∷ "||" ∷ "../" ∷ "..\\" ∷ "%00" ∷ "%0a" ∷ "%0d" ∷ []

unfoldable pub detect_benign_http : ℕ → Bytes → Bool
detect_benign_http before p =
    let request_end = search (before ∷ b'\r' ∷ b'\n' ∷ b'\r' ∷ []) p in
    if ltb (length p) 16
    then false
    else if not (is_request (take 4 p))
    then false
    else not (contains_any injection_markers (request_line (take request_end p)))
