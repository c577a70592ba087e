-- ===== src/Severity/Table.antt =====
-- include/wirewolf_types.hpp, `severity_for_threat`: the threat types in the order of the tests, each
-- with its severity and its CVSS score in tenths.
use Prim.Native.String.{String}
use wirewolf.Base.{ℕ, List, [], ◌∷◌}

pub data Severity : Type 0 where
  info low medium high critical : Severity

abbrev pub table : List (String × Severity × ℕ)
table =
    ("SQLi", critical, 93)
    ∷ ("Command Injection", critical, 93)
    ∷ ("SSTI", critical, 93)
    ∷ ("Deserialization Attack", critical, 93)
    ∷ ("File Inclusion", critical, 93)
    ∷ ("LDAP Injection", critical, 93)
    ∷ ("XPath Injection", critical, 93)
    ∷ ("NoSQL Injection", critical, 93)
    ∷ ("Malicious File Upload", critical, 93)
    ∷ ("SSRF", high, 87)
    ∷ ("XXE", high, 87)
    ∷ ("Path Traversal", high, 87)
    ∷ ("HTTP Request Smuggling", high, 83)
    ∷ ("Prototype Pollution", high, 83)
    ∷ ("CSRF", medium, 63)
    ∷ ("XSS", medium, 53)
    ∷ ("HTTP Response Splitting", medium, 53)
    ∷ ("CRLF Injection", medium, 53)
    ∷ ("Open Redirect", medium, 40)
    ∷ ("Log4Shell", critical, 100)
    ∷ ("SMB Exploit", critical, 94)
    ∷ ("Shellshock", critical, 93)
    ∷ ("Spring4Shell", critical, 93)
    ∷ ("Apache Struts RCE", critical, 93)
    ∷ ("Heartbleed", high, 87)
    ∷ ("Worm Propagation Scan", critical, 100)
    ∷ ("Ransomware C2", critical, 100)
    ∷ ("Reverse Shell", critical, 93)
    ∷ ("Webshell", critical, 93)
    ∷ ("Malware Payload", critical, 93)
    ∷ ("RAT C2", critical, 93)
    ∷ ("C2 Beaconing", critical, 93)
    ∷ ("Botnet Communication", critical, 93)
    ∷ ("Spam Bot", high, 81)
    ∷ ("Suspicious Transfer", medium, 53)
    ∷ ("Botnet Host", critical, 93)
    ∷ ("Dropper Download", high, 86)
    ∷ ("Cryptominer Traffic", high, 87)
    ∷ ("Data Exfiltration", critical, 93)
    ∷ ("Credential Theft", critical, 93)
    ∷ ("DNS Exfiltration", high, 87)
    ∷ ("Session Hijacking", high, 83)
    ∷ ("Brute Force", high, 77)
    ∷ ("SSH Brute Force", high, 77)
    ∷ ("Credential Stuffing", high, 77)
    ∷ ("Password Spraying", high, 77)
    ∷ ("Kerberoasting", high, 71)
    ∷ ("DNS Amplification", critical, 92)
    ∷ ("DDoS", high, 87)
    ∷ ("Slowloris", high, 87)
    ∷ ("HTTP Flood", high, 87)
    ∷ ("ReDoS", high, 87)
    ∷ ("Port Scan", medium, 69)
    ∷ ("Directory Enumeration", medium, 69)
    ∷ ("Version Fingerprinting", medium, 69)
    ∷ ("Vulnerability Scanning", medium, 69)
    ∷ ("User Enumeration", medium, 69)
    ∷ ("DNS Tunneling", high, 87)
    ∷ ("DNS Poisoning", high, 83)
    ∷ ("TLS Downgrade", high, 77)
    ∷ ("SMTP Relay Abuse", medium, 69)
    ∷ ("DNS Rebinding", medium, 60)
    ∷ ("IP Spoofing", medium, 53)
    ∷ ("TCP Evasion", high, 75)
    ∷ ("Malicious TLS Client", high, 81)
    ∷ ("Suspicious TLS", medium, 53)
    ∷ []
