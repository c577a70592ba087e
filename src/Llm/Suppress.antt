-- ===== src/Llm/Suppress.antt =====
-- src/llm_inference.cpp, `is_false_positive` and `payload_contains_snippet`: the deterministic checks of
-- what the model claims.
use Prim.Native.String.{String}
use wirewolf.Base.{
  ℕ, ◌+◌, Bool, true, false, not, ◌&&◌, ◌||◌, List, [], ◌∷◌, length, take, drop, ltb, ◌==◌,
  if◌then◌else◌,
}
use wirewolf.Base.Text.{Bytes, codes, eq_bytes, starts_with, contains, to_lower}
use wirewolf.Filter.Http.{search}
use wirewolf.Llm.Context.{is_server_port}

abbrev pub benign_header_prefixes : List String
benign_header_prefixes =
    "X-XSS-Protection" ∷ "X-Content-Type-Options" ∷ "X-Frame-Options" ∷ "Content-Security-Policy"
    ∷ "Strict-Transport-Security" ∷ "X-Permitted-Cross-Domain" ∷ "Referrer-Policy"
    ∷ "Permissions-Policy" ∷ "Feature-Policy" ∷ "X-Download-Options" ∷ "X-DNS-Prefetch-Control"
    ∷ "Cross-Origin-Opener-Policy" ∷ "Cross-Origin-Embedder-Policy" ∷ "Cross-Origin-Resource-Policy"
    ∷ "Set-Cookie" ∷ "WWW-Authenticate" ∷ "Authorization: Bearer" ∷ "Authorization: Basic" ∷ []

unfoldable pub starts_with_any : List String → Bytes → Bool
starts_with_any [] s = false
starts_with_any (p ∷ ps) s = starts_with s (codes p) || starts_with_any ps s

-- The snippet stands in the headers of a response, and not in its body.
unfoldable pub only_in_headers : Bytes → Bytes → Bool
only_in_headers payload snippet =
    let header_end = search (codes "\r\n\r\n") payload in
    let in_body =
      ltb (header_end + 4) (length payload) && contains (drop (header_end + 4) payload) snippet in
    (ltb 9 (length payload) && starts_with payload (codes "HTTP/"))
    && (contains (take header_end payload) snippet && not in_body)

-- The threats that a server may send.
abbrev pub server_threats : List String
server_threats =
    "Heartbleed" ∷ "Data Exfiltration" ∷ "Credential Theft" ∷ "DNS Exfiltration"
    ∷ "Session Hijacking" ∷ "SMB Exploit" ∷ "RAT C2" ∷ "C2 Beaconing" ∷ "Reverse Shell" ∷ "Webshell"
    ∷ "Ransomware C2" ∷ "Botnet Communication" ∷ "Malware Payload" ∷ "Dropper Download"
    ∷ "Cryptominer Traffic" ∷ []

unfoldable pub is_one_of : List String → Bytes → Bool
is_one_of [] t = false
is_one_of (s ∷ ss) t = eq_bytes t (codes s) || is_one_of ss t

unfoldable pub is_attack_char : ℕ → Bool
is_attack_char c =
    c == b'<'
    || c == b'>'
    || c == 39
    || c == b'"'
    || c == b';'
    || c == b'|'
    || c == b'&'
    || c == b'$'
    || c == b'{'
    || c == b'}'
    || c == b'('
    || c == b')'
    || c == b'`'
    || c == 92

unfoldable pub has_attack_char : Bytes → Bool
has_attack_char [] = false
has_attack_char (c ∷ cs) = is_attack_char c || has_attack_char cs

unfoldable pub has_attack_syntax : Bytes → Bool
has_attack_syntax s =
    has_attack_char s
    || contains s (codes "../")
    || contains s (codes "://")
    || contains s (codes "--")

-- `src_port` is in host order.
unfoldable pub is_false_positive : Bytes → Bytes → Bytes → ℕ → Bool
is_false_positive threat_type snippet payload src_port =
    if starts_with_any benign_header_prefixes snippet
    then true
    else if only_in_headers payload snippet
    then true
    else if is_server_port src_port && not (is_one_of server_threats threat_type)
    then true
    else if is_one_of ("Data Exfiltration" ∷ "Credential Theft" ∷ []) threat_type
    then false
    else not (has_attack_syntax snippet)

abbrev pub is_nil : Bytes → Bool
is_nil [] = true
is_nil (c ∷ cs) = false

unfoldable pub payload_contains_snippet : Bytes → Bytes → Bool
payload_contains_snippet payload snippet =
    if is_nil snippet || is_nil payload
    then false
    else contains payload snippet || contains (to_lower payload) (to_lower snippet)
