-- ===== src/Llm/Context.antt =====
-- src/llm_inference.cpp: the description of a flow that stands in front of its payload in the prompt.
use Prim.Native.String.{String}
use wirewolf.Base.{
  ℕ, Bool, false, not, ◌&&◌, ◌||◌, List, [], ◌∷◌, ◌++◌, Option, none, some, length, take, ltb, ◌==◌,
  if◌then◌else◌,
}
use wirewolf.Base.Text.{Bytes, codes, starts_with, contains, decimal}
use wirewolf.Base.Words.{bswap16}
use wirewolf.Filter.Credentials.{is_printable}
use wirewolf.Filter.Decide.{ip_to_str}
use wirewolf.Filter.Ftp.{first_line}
use wirewolf.Packet.{FlowData}

-- What stands for a byte of the payload.
unfoldable pub shown_byte : ℕ → ℕ
shown_byte b = if is_printable b then b else b'.'

abbrev pub server_ports : List ℕ
server_ports =
    20 ∷ 21 ∷ 22 ∷ 23 ∷ 25 ∷ 53 ∷ 80 ∷ 110 ∷ 143 ∷ 443 ∷ 445 ∷ 993 ∷ 995 ∷ 3306 ∷ 3389 ∷ 5432 ∷ 8080
    ∷ 8443 ∷ []

unfoldable pub is_port_in : List ℕ → ℕ → Bool
is_port_in [] port = false
is_port_in (p ∷ ps) port = p == port || is_port_in ps port

unfoldable pub is_server_port : ℕ → Bool
is_server_port port = is_port_in server_ports port

abbrev pub hints : List (ℕ × String)
hints =
    (80, "HTTP")
    ∷ (8080, "HTTP")
    ∷ (443, "HTTPS/TLS")
    ∷ (8443, "HTTPS/TLS")
    ∷ (22, "SSH")
    ∷ (53, "DNS")
    ∷ (25, "SMTP")
    ∷ (21, "FTP")
    ∷ (445, "SMB")
    ∷ (3306, "MySQL")
    ∷ (5432, "PostgreSQL")
    ∷ (3389, "RDP")
    ∷ (110, "POP3")
    ∷ (143, "IMAP")
    ∷ []

unfoldable pub hint_in : List (ℕ × String) → ℕ → Option Bytes
hint_in [] p = none
hint_in ((port, name) ∷ rest) p = if port == p then some (codes name) else hint_in rest p

abbrev hint_or : Option Bytes → Bytes → Bytes
hint_or none d = d
hint_or (some h) d = h

unfoldable pub protocol_from_ports : ℕ → ℕ → Bytes
protocol_from_ports src_port dst_port =
    hint_or (hint_in hints dst_port) (hint_or (hint_in hints src_port) (codes "Unknown"))

abbrev pub methods : List String
methods =
    "GET" ∷ "POST" ∷ "PUT" ∷ "DELETE" ∷ "HEAD" ∷ "OPTIONS" ∷ "PATCH" ∷ "CONNECT" ∷ "TRACE" ∷ []

unfoldable pub has_method : List String → Bytes → Bool
has_method [] line = false
has_method (m ∷ ms) line = starts_with line (codes m ++ b' ' ∷ []) || has_method ms line

-- Up to the first line end, or 128 bytes where there is none.
unfoldable pub http_first_line : Bytes → Bytes
http_first_line payload =
    if contains payload (b'\r' ∷ []) || contains payload (b'\n' ∷ [])
    then first_line payload
    else take 128 payload

unfoldable pub detect_http_line : Bytes → Bytes
detect_http_line payload =
    let line = http_first_line payload in
    if has_method methods line
    then codes "HTTP Request: " ++ line
    else if ltb 12 (length line) && starts_with line (codes "HTTP/")
    then codes "HTTP Response: " ++ line
    else []

unfoldable pub direction_of : ℕ → ℕ → Bytes
direction_of src_port dst_port =
    if is_server_port dst_port && not (is_server_port src_port)
    then codes "client -> server (request)"
    else if is_server_port src_port && not (is_server_port dst_port)
    then codes "server -> client (response)"
    else codes "unknown"

abbrev line_or_nothing : Bytes → Bytes
line_or_nothing [] = []
line_or_nothing (c ∷ cs) = (c ∷ cs) ++ b'\n' ∷ []

unfoldable pub concat : List Bytes → Bytes
concat [] = []
concat (s ∷ ss) = s ++ concat ss

unfoldable pub build_flow_context : {Double : Type 0} → FlowData Double → Bytes → Bytes
build_flow_context flow payload_str =
    let src_port = bswap16 flow.id.src_port in
    let dst_port = bswap16 flow.id.dst_port in
    concat (
      codes "[Context]\n"
      ∷ codes "Direction: "
      ∷ direction_of src_port dst_port
      ∷ codes "\n"
      ∷ codes "Src: "
      ∷ ip_to_str flow.id.src_ip
      ∷ codes ":"
      ∷ decimal src_port
      ∷ codes "\n"
      ∷ codes "Dst: "
      ∷ ip_to_str flow.id.dst_ip
      ∷ codes ":"
      ∷ decimal dst_port
      ∷ codes "\n"
      ∷ codes "Protocol: "
      ∷ protocol_from_ports src_port dst_port
      ∷ codes "\n"
      ∷ line_or_nothing (detect_http_line payload_str)
      ∷ codes "Packets: "
      ∷ decimal flow.packet_count
      ∷ codes "\n"
      ∷ codes "Payload size: "
      ∷ decimal (length flow.reassembled_payload)
      ∷ codes " bytes\n"
      ∷ codes "\n[Payload]\n"
      ∷ [])
