-- ===== src/Severity.antt =====
-- include/wirewolf_types.hpp: severities. A CVSS score is held in tenths, 93 for 9.3; every score in
-- the source has one decimal. A text is the list of its bytes.
pub mod Resolve
pub mod Table
pub mod Confidence
use Prim.Native.String.{String}
use wirewolf.Base.{ℕ, Bool, true, false, List, [], ◌∷◌, leb, ltb, if◌then◌else◌, ◌||◌}
use wirewolf.Base.Text.{Bytes, codes, eq_bytes, to_lower}
use Table.{Severity, info, low, medium, high, critical, table}

pub record SeverityInfo : Type 0 where
  pub level : Severity
  pub cvss : ℕ

abbrev severity : Severity → ℕ → SeverityInfo
severity l c = record { level = l; cvss = c }

-- `static_cast<int>`.
abbrev pub rank : Severity → ℕ
rank info = 0
rank low = 1
rank medium = 2
rank high = 3
rank critical = 4

unfoldable pub label : Severity → Bytes
label critical = codes "Critical"
label high = codes "High"
label medium = codes "Medium"
label low = codes "Low"
label info = codes "Info"

unfoldable pub cvss_rating : ℕ → Bytes
cvss_rating score =
    if leb 90 score
    then codes "Critical"
    else if leb 70 score
    then codes "High"
    else if leb 40 score
    then codes "Medium"
    else if leb 1 score
    then codes "Low"
    else codes "None"

-- The chain of tests, first match first, with the default behind the last.
unfoldable pub severity_in : List (String × Severity × ℕ) → Bytes → SeverityInfo
severity_in [] threat_type = severity medium 50
severity_in ((name, l, c) ∷ rest) threat_type =
    if eq_bytes threat_type (codes name) then severity l c else severity_in rest threat_type

unfoldable pub severity_for_threat : Bytes → SeverityInfo
unfolding severity_in
severity_for_threat threat_type = severity_in table threat_type

unfoldable pub severity_from_string : Bytes → SeverityInfo
severity_from_string s =
    if eq_bytes s (codes "Critical") || eq_bytes s (codes "critical")
    then severity critical 95
    else if eq_bytes s (codes "High") || eq_bytes s (codes "high")
    then severity high 80
    else if eq_bytes s (codes "Medium") || eq_bytes s (codes "medium")
    then severity medium 55
    else if eq_bytes s (codes "Low") || eq_bytes s (codes "low")
    then severity low 20
    else severity medium 55
