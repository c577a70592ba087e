-- ===== src/Filter/Rat.antt =====
-- src/npu_filter.cpp, `detect_rat_protocol`.
use Prim.Native.String.{String}
use wirewolf.Base.{
  ℕ, suc, ◌+◌, Bool, true, false, not, ◌&&◌, ◌||◌, List, [], ◌∷◌, length, take, ltb, leb, ◌==◌,
  if◌then◌else◌,
}
use wirewolf.Base.Text.{Bytes, codes, contains}
use wirewolf.Filter.Credentials.{points}
use wirewolf.Filter.Ftp.{count_matches}
use wirewolf.Base.Words.{bswap16}
use wirewolf.Packet.{ConnectionId, FlowData}

abbrev pub standard_ports : List ℕ
standard_ports =
    80 ∷ 443 ∷ 8080 ∷ 8443 ∷ 22 ∷ 21 ∷ 25 ∷ 53 ∷ 110 ∷ 143 ∷ 445 ∷ 993 ∷ 995 ∷ 3306 ∷ 3389 ∷ 5432
    ∷ []

unfoldable pub is_among : List ℕ → ℕ → ℕ → Bool
is_among [] src dst = false
is_among (port ∷ ports) src dst = src == port || dst == port || is_among ports src dst

unfoldable pub standard_port : ConnectionId → Bool
standard_port id = is_among standard_ports (bswap16 id.src_port) (bswap16 id.dst_port)

unfoldable pub is_digit : ℕ → Bool
is_digit b = not (ltb b b'0' || ltb b'9' b)

unfoldable pub is_letter : ℕ → Bool
is_letter b = (leb b'a' b && leb b b'z') || (leb b'A' b && leb b b'Z')

unfoldable pub all_bytes : (ℕ → Bool) → Bytes → Bool
all_bytes test [] = true
all_bytes test (b ∷ bs) = test b && all_bytes test bs

-- The test at index `i`: `from` is the text from there on.
unfoldable pub is_command : Bytes → ℕ → Bytes → Bool
is_command text i [] = false
is_command text i (b ∷ rest) =
    b == 0
    && (ltb 0 i && ltb i 10)
    && all_bytes is_digit (take i text)
    && all_bytes is_letter (take 3 rest)

-- The loop from index `i` on; it runs while more than five bytes are left.
unfoldable pub commands_from : Bytes → ℕ → Bytes → ℕ
commands_from text i [] = 0
commands_from text i (b ∷ rest) =
    let later = commands_from text (suc i) rest in
    if ltb 5 (length (b ∷ rest)) && is_command text i (b ∷ rest) then suc later else later

unfoldable pub cmd_count : Bytes → ℕ
cmd_count text = commands_from text 0 text

abbrev pub recon_markers : List String
recon_markers =
    "Administrator" ∷ "\\Desktop\\" ∷ "\\Users\\" ∷ "\\AppData\\" ∷ "TEMP" ∷ ".exe" ∷ "\\Windows\\"
    ∷ "cmd.exe" ∷ "powershell" ∷ "tasklist" ∷ "ipconfig" ∷ "systeminfo" ∷ []

unfoldable pub marker_hits : List String → Bytes → ℕ
marker_hits [] text = 0
marker_hits (m ∷ ms) text =
    let later = marker_hits ms text in if contains text (codes m) then suc later else later

unfoldable pub is_base64 : ℕ → Bool
is_base64 b = is_letter b || not (ltb b b'0' || ltb b'9' b) || b == b'+' || b == b'/' || b == b'='

-- `run` base64 characters stand right before the bytes left.
unfoldable pub base64_runs : ℕ → Bytes → ℕ
base64_runs run [] = if leb 20 run then 1 else 0
base64_runs run (b ∷ bs) =
    let longer = base64_runs (suc run) bs in
    let again = base64_runs 0 bs in
    if is_base64 b then longer else if leb 20 run then suc again else again

abbrev pub delimiter : Bytes
delimiter = codes "|'|'|"

unfoldable pub delim_count : Bytes → ℕ
delim_count text = count_matches delimiter 0 text

unfoldable pub rat_score : Bytes → ℕ
rat_score text =
    points 4 (leb 3 (delim_count text))
    + points 2 (leb 2 (cmd_count text))
    + points 2 (leb 2 (marker_hits recon_markers text))
    + points 1 (leb 3 (base64_runs 0 text))

unfoldable pub detect_rat_protocol : {Double : Type 0} → FlowData Double → Bool
detect_rat_protocol f =
    let p = f.reassembled_payload in
    if ltb (length p) 20
    then false
    else if standard_port f.id
    then false
    else leb 4 (rat_score (take 4096 p))
