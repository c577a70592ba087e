-- ===== src/Severity/Resolve.antt =====
-- include/wirewolf_types.hpp, `resolve_severity`: the LLM's severity against the curated one.
use Prim.Native.String.{String}
use wirewolf.Base.{
  ℕ, ◌≤◌, ◌<◌, ◌≡◌, ◌≢◌, refl, sym, subst, Bool, true, Option, none, some, List, [], ◌∷◌, leb, ltb,
  ltb→lt, ltb→ge, if◌then◌else◌, if-ind, ◌||◌, ◌&&◌, arith, inl, inr, ◌⊎◌,
}
use wirewolf.Base.Text.{Bytes, codes, eq_bytes, eq_bytes_iff, to_lower}
use wirewolf.Severity.Table.{Severity, info, low, medium, high, critical, table}
use wirewolf.Severity.{
  SeverityInfo, rank, label, cvss_rating, severity_in, severity_for_threat, severity_from_string,
}

-- The tier that a lowercased token names.
unfoldable pub wanted : Bytes → Option Severity
wanted s =
    if eq_bytes s (codes "critical")
    then some critical
    else if eq_bytes s (codes "high")
    then some high
    else if eq_bytes s (codes "medium")
    then some medium
    else if eq_bytes s (codes "low")
    then some low
    else if eq_bytes s (codes "info")
        || (eq_bytes s (codes "informational") || eq_bytes s (codes "none"))
    then some info
    else none

unfoldable pub lowered : Severity → Bytes → SeverityInfo
lowered info s = record { level = info; cvss = 0 }
lowered want s = severity_from_string s

unfoldable pub downgrade : Option Severity → Bytes → SeverityInfo → SeverityInfo
downgrade none s base = base
downgrade (some want) s base = if ltb (rank want) (rank base.level) then lowered want s else base

unfoldable pub resolve_severity : Bytes → Bytes → SeverityInfo
resolve_severity threat_type llm_severity =
    downgrade (wanted (to_lower llm_severity)) (to_lower llm_severity)
      (severity_for_threat threat_type)

-- The CVSS 4.0 range of each rating, in tenths.
abbrev pub in_tier : Severity → ℕ → Bool
in_tier critical c = leb 90 c && leb c 100
in_tier high c = leb 70 c && ltb c 90
in_tier medium c = leb 40 c && ltb c 70
in_tier low c = leb 1 c && ltb c 40
in_tier info c = ltb c 1

abbrev pub InTier : SeverityInfo → Type 0
InTier s = in_tier s.level s.cvss ≡ true

-- Every row of the table stands in its tier, and none is below Medium.
rows_ok : List (String × Severity × ℕ) → Bool
rows_ok [] = true
rows_ok ((name, l, c) ∷ rest) = in_tier l c && (leb (rank medium) (rank l) && rows_ok rest)

table_ok : rows_ok table ≡ true
unfolding rows_ok
table_ok = refl

severity_in-ok :
    (rows : List (String × Severity × ℕ)) (t : Bytes)
    → rows_ok rows ≡ true
    → InTier (severity_in rows t) × (rank medium ≤ rank (severity_in rows t).level)
unfolding severity_in rows_ok
severity_in-ok [] t h = (refl, omega arith)
severity_in-ok ((name, l, c) ∷ rest) t h =
    if-ind (λ (r : SeverityInfo). InTier r × (rank medium ≤ rank r.level)) (eq_bytes t (codes name))
      (λ _. (ground arith, ground arith)) (λ _. severity_in-ok rest t (ground arith))

-- Every threat type, known or not, has a score inside the CVSS range of its severity, and is rated
-- Medium or above.
pub severity_for_threat-InTier :
    (t : Bytes)
    → InTier (severity_for_threat t) × (rank medium ≤ rank (severity_for_threat t).level)
unfolding severity_for_threat
severity_for_threat-InTier t = severity_in-ok table t table_ok

-- Where a score is inside its tier, the label and the printed rating agree, but for Info, whose
-- rating is called None.
pub label-cvss_rating :
    (s : SeverityInfo) → InTier s → s.level ≢ info → label s.level ≡ cvss_rating s.cvss
unfolding label cvss_rating
label-cvss_rating s h ne = tier s.level s.cvss h ne
  where
    tier : (l : Severity) (c : ℕ) → in_tier l c ≡ true → l ≢ info → label l ≡ cvss_rating c
    tier info c h ne = absurd (ne refl)
    tier low c h ne = ground arith
    tier medium c h ne = ground arith
    tier high c h ne = ground arith
    tier critical c h ne = ground arith

-- Which token names which tier.
abbrev Names : Bytes → Severity → Type 0
Names s low = s ≡ codes "low"
Names s medium = s ≡ codes "medium"
Names s high = s ≡ codes "high"
Names s critical = s ≡ codes "critical"
Names s info = Unit {0}

wanted-Names : (s : Bytes) (w : Severity) → wanted s ≡ some w → Names s w
unfolding wanted
wanted-Names s info h = tt
wanted-Names s low h = ground (arith, eq_bytes_iff s (codes "low"))
wanted-Names s medium h = ground (arith, eq_bytes_iff s (codes "medium"))
wanted-Names s high h = ground (arith, eq_bytes_iff s (codes "high"))
wanted-Names s critical h = ground (arith, eq_bytes_iff s (codes "critical"))

abbrev Gives : Severity → Bytes → Type 0
Gives w s = ((lowered w s).level ≡ w) × InTier (lowered w s)

token-Gives : (s : Bytes) (w : Severity) → Names s w → Gives w s
unfolding lowered severity_from_string eq_bytes
token-Gives s info n = (refl, refl)
token-Gives s low n = subst (Gives low) (sym n) (refl, refl)
token-Gives s medium n = subst (Gives medium) (sym n) (refl, refl)
token-Gives s high n = subst (Gives high) (sym n) (refl, refl)
token-Gives s critical n = subst (Gives critical) (sym n) (refl, refl)

-- What the LLM's token may do to a curated rating.
abbrev pub Resolves : Option Severity → SeverityInfo → SeverityInfo → Type 0
Resolves none base r = r ≡ base
Resolves (some want) base r =
    ((rank base.level ≤ rank want) × (r ≡ base))
    ⊎ ((rank want < rank base.level) × (r.level ≡ want) × InTier r × (r.cvss < base.cvss))

lower_score :
    (l m : Severity) (c d : ℕ) → in_tier l c ≡ true → in_tier m d ≡ true → rank l < rank m → c < d
lower_score l m c d h k lt = ground arith

downgrade-Resolves :
    (want : Option Severity) (s : Bytes) (base : SeverityInfo)
    → wanted s ≡ want
    → InTier base
    → Resolves want base (downgrade want s base)
unfolding downgrade
downgrade-Resolves none s base h t = refl
downgrade-Resolves (some want) s base h t =
    let (named, tier) = token-Gives s want (wanted-Names s want h) in
    if-ind (Resolves (some want) base) (ltb (rank want) (rank base.level))
      (λ lt. inr (
        ltb→lt _ _ lt,
        named,
        tier,
        lower_score (lowered want s).level base.level (lowered want s).cvss base.cvss tier t
            (rw named (ltb→lt _ _ lt)),
      ))
      (λ ge. inl (ltb→ge _ _ ge, refl))

-- The LLM may lower a curated rating and never raise it. A token that names no tier leaves the
-- rating alone, and so does one that names the same or a higher tier; one that names a lower tier
-- gives exactly that tier, with a score inside it and below the curated score.
pub resolve_severity-Resolves :
    (threat_type llm_severity : Bytes)
    → Resolves
        (wanted (to_lower llm_severity))
        (severity_for_threat threat_type)
        (resolve_severity threat_type llm_severity)
unfolding resolve_severity
resolve_severity-Resolves threat_type llm_severity =
    downgrade-Resolves (wanted (to_lower llm_severity)) (to_lower llm_severity)
      (severity_for_threat threat_type) refl (severity_for_threat-InTier threat_type).0
