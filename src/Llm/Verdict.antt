-- ===== src/Llm/Verdict.antt =====
-- src/llm_inference.cpp, `worker_loop`: one round for one flow. `generate_response` runs the model and is
-- a parameter, as are the system prompt and the rest of the prompt's end.
use Prim.Native.String.{String}
use wirewolf.Alert.{extract}
use wirewolf.Base.{
  ℕ, ◌+◌, Bool, true, not, ◌&&◌, ◌||◌, List, [], ◌∷◌, ◌++◌, map, length, take, drop, ltb, leb, ◌==◌,
  if◌then◌else◌,
}
use wirewolf.Base.Doubles.{Doubles}
use wirewolf.Base.Text.{Bytes, codes, eq_bytes, contains}
use wirewolf.Base.Words.{bswap16}
use wirewolf.Filter.Credentials.{printable}
use wirewolf.Filter.Http.{until}
use wirewolf.Llm.Context.{shown_byte, build_flow_context}
use wirewolf.Llm.Sanitize.{sanitize_for_prompt}
use wirewolf.Llm.Suppress.{is_nil, is_false_positive, payload_contains_snippet}
use wirewolf.Llm.Tagged.{tag_snippet, tag_payload}
use wirewolf.Packet.{FlowData}
use wirewolf.Severity.{SeverityInfo}
use wirewolf.Severity.Resolve.{resolve_severity}

pub record LlmSettings : Type 0 where
  pub payload_char_limit : ℕ
  pub max_llm_flows : ℕ
  pub sys_prompt : Bytes
  pub assistant_header : Bytes
  pub generate_response : Bytes → Bytes

pub data Outcome : Type 0 where
  skipped over_budget benign suppressed : Outcome
  decided : (tag : Bytes) → SeverityInfo → (snippet : Bytes) → (payload : Bytes) → Outcome
  alert : (threat_type : Bytes) → SeverityInfo → (snippet : Bytes) → (payload : Bytes) → Outcome

unfoldable pub is_blank : Bytes → Bool
is_blank [] = true
is_blank (c ∷ cs) = (c == b' ' || c == b'\t' || c == b'\n' || c == b'\r') && is_blank cs

-- Only blanks between the first brace and the first closing one.
unfoldable pub is_empty_json : Bytes → Bool
is_empty_json result = contains result (b'}' ∷ []) && is_blank (drop 1 (until b'}' result))

unfoldable pub first_object : Bytes → Bytes
first_object result = if contains result (b'}' ∷ []) then until b'}' result ++ b'}' ∷ [] else result

abbrev pub aliases : List (String × String)
aliases =
    ("SQL Injection", "SQLi")
    ∷ ("SQL injection", "SQLi")
    ∷ ("sql injection", "SQLi")
    ∷ ("Cross-Site Scripting", "XSS")
    ∷ ("cross-site scripting", "XSS")
    ∷ ("Server-Side Template Injection", "SSTI")
    ∷ ("Server-Side Request Forgery", "SSRF")
    ∷ ("Remote Code Execution", "Command Injection")
    ∷ ("RCE", "Command Injection")
    ∷ ("OS Command Injection", "Command Injection")
    ∷ ("command injection", "Command Injection")
    ∷ ("Directory Traversal", "Path Traversal")
    ∷ ("Local File Inclusion", "File Inclusion")
    ∷ ("Remote File Inclusion", "File Inclusion")
    ∷ ("LFI", "File Inclusion")
    ∷ ("RFI", "File Inclusion")
    ∷ ("XML External Entity", "XXE")
    ∷ ("Insecure Deserialization", "Deserialization Attack")
    ∷ ("HTTP Smuggling", "HTTP Request Smuggling")
    ∷ ("Request Smuggling", "HTTP Request Smuggling")
    ∷ ("Header Injection", "CRLF Injection")
    ∷ ("Log4j", "Log4Shell")
    ∷ ("CVE-2021-44228", "Log4Shell")
    ∷ ("CVE-2014-6271", "Shellshock")
    ∷ ("CVE-2014-0160", "Heartbleed")
    ∷ ("CVE-2022-22965", "Spring4Shell")
    ∷ ("EternalBlue", "SMB Exploit")
    ∷ ("MS17-010", "SMB Exploit")
    ∷ ("Reverse TCP", "Reverse Shell")
    ∷ ("Bind Shell", "Reverse Shell")
    ∷ ("Web Shell", "Webshell")
    ∷ ("RAT", "RAT C2")
    ∷ ("Trojan", "RAT C2")
    ∷ ("Backdoor", "RAT C2")
    ∷ ("Ransomware", "Ransomware C2")
    ∷ ("Crypto Miner", "Cryptominer Traffic")
    ∷ ("Cryptojacking", "Cryptominer Traffic")
    ∷ ("Botnet", "Botnet Communication")
    ∷ ("Bot C2", "Botnet Communication")
    ∷ ("Exfiltration", "Data Exfiltration")
    ∷ ("Data Theft", "Data Exfiltration")
    ∷ ("Data Leak", "Data Exfiltration")
    ∷ ("Credential Stuffing Attack", "Credential Stuffing")
    ∷ ("Password Brute Force", "Brute Force")
    ∷ ("Login Brute Force", "Brute Force")
    ∷ ("SYN Flood", "DDoS")
    ∷ ("DoS", "DDoS")
    ∷ ("Denial of Service", "DDoS")
    ∷ ("Port Scanning", "Port Scan")
    ∷ ("Network Scan", "Port Scan")
    ∷ ("Reconnaissance", "Port Scan")
    ∷ ("DNS Tunnel", "DNS Tunneling")
    ∷ ("DNS Exfil", "DNS Exfiltration")
    ∷ ("MITM", "TLS Downgrade")
    ∷ ("Man-in-the-Middle", "TLS Downgrade")
    ∷ ("SSL Stripping", "TLS Downgrade")
    ∷ []

unfoldable pub canonical_in : List (String × String) → Bytes → Bytes
canonical_in [] t = t
canonical_in ((alias, canonical) ∷ rest) t =
    if eq_bytes t (codes alias) then codes canonical else canonical_in rest t

-- The checks of what the answer says, on the text that the model was shown.
unfoldable pub check_claim : Bytes → Bytes → Bytes → Bytes → ℕ → Outcome
check_claim threat_type severity snippet payload_str src_port =
    if is_nil threat_type || is_nil severity || is_nil snippet
    then Outcome.suppressed
    else if not (payload_contains_snippet payload_str snippet)
    then Outcome.suppressed
    else if is_false_positive threat_type snippet payload_str src_port
    then Outcome.suppressed
    else Outcome.alert threat_type (resolve_severity threat_type severity) snippet payload_str

unfoldable pub check_answer : Bytes → Bytes → ℕ → Outcome
check_answer result payload_str src_port =
    let object = first_object result in
    if is_empty_json result
    then Outcome.benign
    else check_claim (canonical_in aliases (extract (codes "threat_type") object))
        (extract (codes "severity") object) (extract (codes "snippet") object) payload_str src_port

-- What a round leaves: the counter, how often the model was run, and the outcome.
pub record Round : Type 0 where
  pub llm_runs_ : ℕ
  pub model_calls : ℕ
  pub outcome : Outcome

module _ (r : Doubles) (c : LlmSettings) where
  open r use {Double, of_ℕ, div, lt}

  -- The start of the payload as text, with the canonical text behind it where it was encoded.
  unfoldable pub shown_text : FlowData Double → Bytes
  shown_text f =
      let raw =
        sanitize_for_prompt (map shown_byte (take c.payload_char_limit f.reassembled_payload)) in
      if contains raw (b'%' ∷ []) && not (is_nil f.normalized_payload)
      then raw
        ++ (codes "\n[Decoded]\n"
            ++ sanitize_for_prompt (take c.payload_char_limit f.normalized_payload))
      else raw

  unfoldable pub is_binary : Bytes → Bool
  is_binary start =
      leb 16 (length start)
      && lt (div (of_ℕ (printable start)) (of_ℕ (length start))) (div (of_ℕ 60) (of_ℕ 100))

  unfoldable pub ask_model : FlowData Double → Outcome
  ask_model f =
      let payload_str = shown_text f in
      let prompt =
        c.sys_prompt ++ (build_flow_context f payload_str ++ (payload_str ++ c.assistant_header)) in
      check_answer (b'{' ∷ c.generate_response prompt) payload_str (bswap16 f.id.src_port)

  -- A flow that an earlier stage has tagged.
  unfoldable pub decide_tagged : FlowData Double → Outcome
  decide_tagged f =
      let (snippet, sev) = tag_snippet f in
      Outcome.decided f.protocol_tag sev snippet (tag_payload c.payload_char_limit f)

  -- From the budget on; the counter goes one past the budget for the log.
  unfoldable pub infer_in_budget : FlowData Double → ℕ → ℕ → Round
  infer_in_budget f runs calls =
      if ltb 0 c.max_llm_flows && leb c.max_llm_flows runs
      then record {
        llm_runs_ = if runs == c.max_llm_flows then runs + 1 else runs;
        model_calls = calls;
        outcome = Outcome.over_budget;
      }
      else record { llm_runs_ = runs + 1; model_calls = calls + 1; outcome = ask_model f }

  unfoldable pub llm_round : FlowData Double → ℕ → ℕ → Round
  llm_round f runs calls =
      if is_nil f.reassembled_payload
      then record { llm_runs_ = runs; model_calls = calls; outcome = Outcome.skipped }
      else if not (is_nil f.protocol_tag)
      then record { llm_runs_ = runs; model_calls = calls; outcome = decide_tagged f }
      else if is_binary (take c.payload_char_limit f.reassembled_payload)
      then record { llm_runs_ = runs; model_calls = calls; outcome = Outcome.skipped }
      else infer_in_budget f runs calls

  -- The rounds for a sequence of flows, the latest first.
  unfoldable pub llm_rounds : List (FlowData Double) → Round
  llm_rounds [] = record { llm_runs_ = 0; model_calls = 0; outcome = Outcome.skipped }
  llm_rounds (f ∷ fs) =
      let before = llm_rounds fs in llm_round f before.llm_runs_ before.model_calls
