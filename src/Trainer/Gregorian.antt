-- ===== src/Trainer/Gregorian.antt =====
-- The Gregorian calendar, from one day to the next: what the trainer counts its days on
-- (tools/train_behavioral/train.cpp, `days_from_civil`).
use wirewolf.Base.{
  ℕ, zero, suc, ◌+◌, ◌%◌, ◌≤◌, ◌&&◌, ◌||◌, not, Bool, if-ind, ltb→lt, ltb, ◌==◌, if◌then◌else◌,
  arith,
}

pub record Date : Type 0 where
  pub year : ℕ
  pub month : ℕ
  pub day : ℕ

abbrev pub is_leap : ℕ → Bool
is_leap y = y % 4 == 0 && (not (y % 100 == 0) || y % 400 == 0)

abbrev pub month_length : ℕ → ℕ → ℕ
month_length y m =
    if m == 2
    then (if is_leap y then 29 else 28)
    else if m == 4 || m == 6 || m == 9 || m == 11
    then 30
    else 31

abbrev pub tomorrow : Date → Date
tomorrow t =
    if ltb t.day (month_length t.year t.month)
    then record t { day = t.day + 1 }
    else if ltb t.month 12
    then record { year = t.year; month = t.month + 1; day = 1 }
    else record { year = t.year + 1; month = 1; day = 1 }

-- The date so many days after the first of January 1970.
abbrev pub date_after : ℕ → Date
date_after zero = record { year = 1970; month = 1; day = 1 }
date_after (suc n) = tomorrow (date_after n)

pub record IsValid (t : Date) : Type 0 where
  pub since : 1970 ≤ t.year
  pub from_january : 1 ≤ t.month
  pub to_december : t.month ≤ 12
  pub from_first : 1 ≤ t.day
  pub to_last : t.day ≤ month_length t.year t.month

pub month_length-bounds : (y m : ℕ) → (28 ≤ month_length y m) × (month_length y m ≤ 31)
month_length-bounds y m = (ground arith, ground arith)

tomorrow-IsValid : (t : Date) → IsValid t → IsValid (tomorrow t)
tomorrow-IsValid t v =
    if-ind IsValid (ltb t.day (month_length t.year t.month))
      (λ more. record {
        since = v.since;
        from_january = v.from_january;
        to_december = v.to_december;
        from_first = omega arith;
        to_last = omega (arith, ltb→lt _ _ more);
      })
      λ last.
        if-ind IsValid (ltb t.month 12)
          (λ within. record {
            since = v.since;
            from_january = omega arith;
            to_december = omega (arith, ltb→lt _ _ within);
            from_first = omega arith;
            to_last = omega (arith, month_length-bounds t.year (t.month + 1));
          })
          λ december. record {
            since = omega (arith, v.since);
            from_january = omega arith;
            to_december = omega arith;
            from_first = omega arith;
            to_last = omega (arith, month_length-bounds (t.year + 1) 1);
          }

pub date_after-IsValid : (n : ℕ) → IsValid (date_after n)
date_after-IsValid zero = record {
  since = omega arith;
  from_january = omega arith;
  to_december = omega arith;
  from_first = omega arith;
  to_last = omega arith;
}
date_after-IsValid (suc n) = tomorrow-IsValid (date_after n) (date_after-IsValid n)
