-- ===== src/Tests/Texts.antt =====
-- Severities, alerts, canonical payloads and TLS at concrete inputs.
use wirewolf.Base.{◌≤◌, ◌≡◌, ◌≢◌, inl, false, [], ◌∷◌, ◌++◌, length, arith}
use wirewolf.Base.Bytes.{Reads}
use wirewolf.Base.Text.{Bytes, codes, to_lower}
use wirewolf.Severity.{SeverityInfo, severity_for_threat}
use wirewolf.Severity.Table.{high, info}
use wirewolf.Severity.Resolve.{Resolves, wanted, resolve_severity, resolve_severity-Resolves}
use wirewolf.Alert.{extract, build_alert_json}
use wirewolf.Alert.RoundTrip.{IsText, extract-build_alert_json}
use wirewolf.Normalizer.{normalize_payload, max_norm, normalize_payload-IsFolded}
use wirewolf.Normalizer.Fold.{IsFolded}
use wirewolf.Tls.{parse_tls_client_hello}
use wirewolf.Tls.Extensions.{EndsNonzero}
use wirewolf.Tls.Safety.{parse_tls_client_hello-Reads}

abbrev high_score : SeverityInfo
high_score = record { level = high; cvss = 81 }

high≢info : high ≢ info
high≢info e = ground (arith, e)

resolve_severity-Resolves_example :
    Resolves
      (wanted (to_lower (codes "LOW")))
      (severity_for_threat (codes "SQLi"))
      (resolve_severity (codes "SQLi") (codes "LOW"))
resolve_severity-Resolves_example = resolve_severity-Resolves (codes "SQLi") (codes "LOW")

pub sqli-IsText : IsText (codes "SQLi")
sqli-IsText = (inl (omega arith), (inl (omega arith), (inl (omega arith), (inl (omega arith), tt))))

extract-build_alert_json_example :
    extract
      (codes "threat_type")
      (build_alert_json (codes "SQLi") (codes "Critical") (codes "9.300000") (codes "a\"b"))
    ≡ codes "SQLi"
extract-build_alert_json_example =
    extract-build_alert_json (codes "SQLi") (codes "Critical") (codes "9.300000") (codes "a\"b")
      sqli-IsText

normalize_payload-IsFolded_example :
    IsFolded false (normalize_payload (codes "SEL%45CT /*x*/  1"))
    × (length (normalize_payload (codes "SEL%45CT /*x*/  1")) ≤ length (codes "SEL%45CT /*x*/  1"))
    × (length (normalize_payload (codes "SEL%45CT /*x*/  1")) ≤ max_norm)
normalize_payload-IsFolded_example = normalize_payload-IsFolded (codes "SEL%45CT /*x*/  1")

-- A ClientHello for the host name "a".
abbrev hello_for_a : Bytes
hello_for_a =
    (22 ∷ 3 ∷ 1 ∷ 0 ∷ 61 ∷ 1 ∷ 0 ∷ 0 ∷ 57 ∷ 3 ∷ 3 ∷ [])
    ++ (7 ∷ 7 ∷ 7 ∷ 7 ∷ 7 ∷ 7 ∷ 7 ∷ 7 ∷ 7 ∷ 7 ∷ 7 ∷ 7 ∷ 7 ∷ 7 ∷ 7 ∷ 7 ∷ 7 ∷ 7 ∷ 7 ∷ 7 ∷ 7 ∷ 7 ∷ 7
        ∷ 7 ∷ 7 ∷ 7 ∷ 7 ∷ 7 ∷ 7 ∷ 7 ∷ 7 ∷ 7 ∷ [])
    ++ (0 ∷ 0 ∷ 2 ∷ 19 ∷ 1 ∷ 1 ∷ 0 ∷ 0 ∷ 10 ∷ 0 ∷ 0 ∷ 0 ∷ 6 ∷ 0 ∷ 4 ∷ 0 ∷ 0 ∷ 1 ∷ 97 ∷ [])

hello_for_a-EndsNonzero : EndsNonzero hello_for_a
hello_for_a-EndsNonzero i at_end h =
    let last : i ≡ 61 = omega (arith, at_end) in ground (arith, rw last at h)

parse_tls_client_hello-Reads_example : Reads (parse_tls_client_hello hello_for_a)
parse_tls_client_hello-Reads_example =
    parse_tls_client_hello-Reads hello_for_a hello_for_a-EndsNonzero
