-- ===== src/Tests/Dates.antt =====
-- The trainer's dates at concrete inputs.
use wirewolf.Base.{◌^◌, ◌≡◌, refl, some, none, arith}
use wirewolf.Config.{pos}
use wirewolf.Trainer.{minus, fits, days_of, day_of_year, day_of_era, days_in_era, days_from_civil}
use wirewolf.Trainer.Calendar.{days_from_civil-date_after}
use wirewolf.Trainer.Gregorian.{date_after}

-- 424 days on, the first of March 1971, with a `long` of 32 bits.
days_from_civil-date_after_example :
    days_from_civil (2 ^ 31) (pos (date_after 424).year) (date_after 424).month (date_after 424).day
    ≡ some (pos 424)
days_from_civil-date_after_example =
    days_from_civil-date_after (2 ^ 31) 424 (omega arith) (omega arith)

-- In the year 6000000 the product of a 32-bit `long` overflows, and that of a 64-bit one does not.
narrow_long : days_from_civil (2 ^ 31) (pos 6000000) 1 1 ≡ none
unfolding days_from_civil days_in_era days_of fits
narrow_long = refl

wide_long : days_from_civil (2 ^ 63) (pos 6000000) 1 1 ≡ some (pos 2190735472)
unfolding days_from_civil days_in_era days_of fits minus day_of_era day_of_year
wide_long = refl
