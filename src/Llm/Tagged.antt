-- ===== src/Llm/Tagged.antt =====
-- src/llm_inference.cpp, `worker_loop`: the snippet and the text of a flow that an earlier stage has
-- tagged, which the model never sees.
use Prim.Native.String.{String}
use wirewolf.Base.{
  ℕ, zero, suc, ◌+◌, ◌-◌, Bool, true, false, not, ◌&&◌, ◌||◌, List, [], ◌∷◌, ◌++◌, Option, none,
  some, map, length, take, drop, ltb, leb, ◌==◌, if◌then◌else◌,
}
use wirewolf.Base.Text.{Bytes, codes, contains, starts_with, decimal}
use wirewolf.Base.Words.{bswap16}
use wirewolf.Filter.Decide.{ip_to_str}
use wirewolf.Filter.Ftp.{count_matches}
use wirewolf.Filter.Http.{search}
use wirewolf.Llm.Context.{shown_byte}
use wirewolf.Llm.Suppress.{is_nil, is_one_of}
use wirewolf.Packet.{ConnectionId, FlowData}
use wirewolf.Severity.{SeverityInfo, severity_for_threat}
use wirewolf.Severity.Table.{high}
pub mod Emails
use Emails.{emails}

abbrev pub is_graphic : ℕ → Bool
is_graphic b = leb 32 b && leb b 126

-- The three previews: what each keeps of a byte.
unfoldable pub content_preview : Bytes → Bytes
content_preview [] = []
content_preview (b ∷ bs) =
    let rest = content_preview bs in
    if is_graphic b then b ∷ rest else if b == b'\r' || b == b'\n' then b' ' ∷ rest else rest

unfoldable pub request_preview : Bytes → Bytes
request_preview [] = []
request_preview (b ∷ bs) =
    let rest = request_preview bs in
    if is_graphic b || b == b'\n' || b == b'\r' then b ∷ rest else rest

unfoldable pub rat_preview : Bytes → Bytes
rat_preview [] = []
rat_preview (b ∷ bs) =
    let rest = rat_preview bs in
    if is_graphic b then b ∷ rest else if b == 0 then b' ' ∷ rest else rest

-- From the first occurrence on.
unfoldable pub from_pattern : Bytes → Bytes → Option Bytes
from_pattern pat [] = none
from_pattern pat (c ∷ cs) = if starts_with (c ∷ cs) pat then some (c ∷ cs) else from_pattern pat cs

-- Up to the first `end_marker`, or the first `max_len` bytes where there is none.
abbrev cut_at : Bytes → Bytes → ℕ → Option Bytes → Bytes
cut_at start_marker end_marker max_len none = []
cut_at start_marker end_marker max_len (some s) =
    let value = drop (length start_marker) s in
    if contains value end_marker
    then take (length start_marker + search end_marker value) s
    else take max_len s

unfoldable pub find_between : Bytes → Bytes → ℕ → Bytes → Bytes
find_between start_marker end_marker max_len payload_preview =
    cut_at start_marker end_marker max_len (from_pattern start_marker payload_preview)

-- The snippet of a list of addresses, which is rated by itself, or the start of the preview.
abbrev pub contact_snippet : List Bytes → Bytes → SeverityInfo → Bytes × SeverityInfo
contact_snippet ((c ∷ first) ∷ second ∷ rest) preview sev = (
  codes "Exfiltrated contact list: " ++ ((c ∷ first) ++ (codes ", " ++ (second ++ codes ", ..."))),
  record { level = high; cvss = 87 },
)
contact_snippet _ preview sev = (take 80 preview, sev)

unfoldable pub content_snippet : Bytes → SeverityInfo → Bytes × SeverityInfo
content_snippet payload sev =
    let preview = content_preview (take 512 payload) in
    let pw = find_between (codes "Password:") (codes "<") 60 preview in
    let user = find_between (codes "Username:") (codes "<") 60 preview in
    let stor = find_between (codes "STOR ") (codes "\r") 80 preview in
    if not (is_nil user) && not (is_nil pw)
    then (user ++ (codes " | " ++ pw), sev)
    else if not (is_nil stor)
    then (stor, sev)
    else if not (is_nil user)
    then (user, sev)
    else contact_snippet (emails preview) preview sev

-- The side on port 445, or the destination.
unfoldable pub smb_target : ConnectionId → ℕ
smb_target id =
    if bswap16 id.dst_port == 445
    then id.dst_ip
    else if bswap16 id.src_port == 445
    then id.src_ip
    else id.dst_ip

unfoldable pub smb_snippet : ConnectionId → ℕ → Bytes
smb_snippet id size =
    codes "SMBv1 remote code execution via IPC$ against "
    ++ (ip_to_str (smb_target id)
        ++ (codes ":445 (EternalBlue/MS17-010 pattern, "
            ++ (decimal size ++ codes " bytes delivered)")))

unfoldable pub brute_force_snippet : Bytes → Bytes
brute_force_snippet payload =
    let preview = request_preview (take 4096 payload) in
    let post_count = count_matches (codes "POST ") 0 preview in
    let get_count = count_matches (codes "GET ") 0 preview in
    decimal (post_count + get_count)
    ++ (codes " HTTP requests in single flow ("
        ++ (decimal post_count ++ (codes " POST, " ++ (decimal get_count ++ codes " GET)"))))

abbrev pub rat_commands : List String
rat_commands = "ll|" ∷ "inf|" ∷ "act|" ∷ "CAP|" ∷ "rs|" ∷ "scP|" ∷ "pro|" ∷ "tcp|" ∷ "Ex|" ∷ []

unfoldable pub cmd_count : List String → Bytes → ℕ
cmd_count [] preview = 0
cmd_count (cmd ∷ cmds) preview =
    let later = cmd_count cmds preview in if contains preview (codes cmd) then suc later else later

unfoldable pub rat_snippet : ConnectionId → Bytes → Bytes
rat_snippet id payload =
    let preview = rat_preview (take 1024 payload) in
    let count = cmd_count rat_commands preview in
    let family =
      if contains preview (codes "|'|'|") then codes "njRAT/Bladabindi" else codes "Unknown RAT" in
    let commands =
      if ltb 0 count
      then codes " (" ++ (decimal count ++ codes " RAT command types detected)")
      else [] in
    family
    ++ (codes " C2 on "
        ++ (ip_to_str id.dst_ip
            ++ (b':'
                ∷ (decimal (bswap16 id.dst_port)
                    ++ (commands
                        ++ (codes " payload=" ++ (decimal (length payload) ++ codes "B")))))))

unfoldable pub tls_snippet : Bytes → Bytes → Bytes
tls_snippet sni ja3 =
    codes "TLS SNI=" ++ ((if is_nil sni then codes "(none)" else sni) ++ (codes " JA3=" ++ ja3))

module _ {Double : Type 0} where
  -- The snippet, and the rating that goes with it.
  unfoldable pub tag_snippet : FlowData Double → Bytes × SeverityInfo
  tag_snippet f =
      let tag = f.protocol_tag in
      let sev = severity_for_threat tag in
      let payload = f.reassembled_payload in
      if is_one_of ("Heartbleed" ∷ []) tag
      then (codes "TLS Heartbeat with oversized payload length (CVE-2014-0160)", sev)
      else if is_one_of ("Data Exfiltration" ∷ "Suspicious Transfer" ∷ []) tag
      then content_snippet payload sev
      else if is_one_of ("SMB Exploit" ∷ []) tag
      then (smb_snippet f.id (length payload), sev)
      else if is_one_of ("Brute Force" ∷ []) tag
      then (brute_force_snippet payload, sev)
      else if is_one_of ("RAT C2" ∷ []) tag
      then (rat_snippet f.id payload, sev)
      else if is_one_of ("Malicious TLS Client" ∷ "Suspicious TLS" ∷ []) tag
      then (tls_snippet f.tls_sni f.tls_ja3, sev)
      else (tag, sev)

  -- The text for the inspector: the payload where the tag is about it.
  unfoldable pub tag_payload : ℕ → FlowData Double → Bytes
  tag_payload payload_char_limit f =
      if is_one_of ("Data Exfiltration" ∷ "Suspicious Transfer" ∷ "Brute Force" ∷ "RAT C2" ∷ [])
        f.protocol_tag
      then map shown_byte (take payload_char_limit f.reassembled_payload)
      else codes "[protocol-detected: " ++ (f.protocol_tag ++ codes "]")
