-- ===== src/Severity/Confidence.antt =====
-- include/wirewolf_types.hpp: `SeverityInfo::format` and `confidence_for`. What `printf` makes of a score
-- is a parameter.
use wirewolf.Base.{ℕ, Bool, ◌∷◌, ◌++◌, if◌then◌else◌}
use wirewolf.Base.Doubles.{Doubles}
use wirewolf.Base.Text.{Bytes, codes}
use wirewolf.Severity.{SeverityInfo, label, cvss_rating}

unfoldable pub format : (ℕ → Bytes) → SeverityInfo → Bytes
format one_decimal sev =
    label sev.level
    ++ (codes " (CVSS 4.0: "
        ++ (one_decimal sev.cvss ++ (b'/' ∷ (cvss_rating sev.cvss ++ codes ")"))))

module _ (r : Doubles) where
  open r use {Double, of_ℕ, add, mul, div, lt}

  abbrev hundredths : ℕ → Double
  hundredths n = div (of_ℕ n) (of_ℕ 100)

  unfoldable pub clamp : Double → Double
  clamp c =
      let top = if lt (hundredths 99) c then hundredths 99 else c in
      if lt top (hundredths 5) then hundredths 5 else top

  -- The score is held in tenths.
  unfoldable pub confidence_for : SeverityInfo → Bool → Double
  confidence_for sev deterministic =
      let base = if deterministic then hundredths 78 else hundredths 55 in
      let weight = if deterministic then hundredths 20 else hundredths 40 in
      let cvss = div (of_ℕ sev.cvss) (of_ℕ 10) in clamp (add base (mul (div cvss (of_ℕ 10)) weight))
