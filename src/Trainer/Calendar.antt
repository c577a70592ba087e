-- ===== src/Trainer/Calendar.antt =====
-- tools/train_behavioral/train.cpp, `days_from_civil`: the days since 1970, counted on the calendar.
use wirewolf.Base.{
  ℕ, zero, suc, ◌+◌, ◌-◌, ◌*◌, ◌/◌, ◌^◌, some, ◌≤◌, ◌<◌, ◌≡◌, inl, inr, refl, ap, ◌∙◌, true, false,
  ◌||◌, Bool, Bool-cases, if-ind, ==_iff, ltb→lt, ltb→ge, leb, ltb, ◌==◌, if◌then◌else◌, arith,
}
use wirewolf.Base.Bytes.{◌>>=◌}
use wirewolf.Config.{pos, negsuc}
use wirewolf.Trainer.{
  minus, dec, fits, as_long, days_of, day_of_year, day_of_era, days_in_era, days_from_civil,
}
use wirewolf.Trainer.Gregorian.{
  Date, is_leap, month_length, tomorrow, date_after, IsValid, month_length-bounds,
  date_after-IsValid,
}

-- The days up to a date, on a scale that starts earlier; the year starts in March.
abbrev scale : ℕ → ℕ → ℕ → ℕ
scale y m d =
    y * 365
    + y / 4
    - y / 100
    + y / 400
    + ((153 * (if ltb 2 m then m - 3 else m + 9) + 2) / 5 + d - 1)

abbrev march_year : ℕ → ℕ → ℕ
march_year y m = if leb m 2 then y - 1 else y

abbrev number : Date → ℕ
number t = scale (march_year t.year t.month) t.month t.day

tomorrow_same :
    (t : Date)
    → IsValid t
    → t.day < month_length t.year t.month
    → number (record t { day = t.day + 1 }) ≡ number t + 1
tomorrow_same t v h = omega (arith, v.from_first)

-- The month's length where it is not February.
abbrev plain_length : ℕ → ℕ
plain_length m = if m == 4 || m == 6 || m == 9 || m == 11 then 30 else 31

next_month :
    (m : ℕ)
    → 1 ≤ m
    → m < 12
    → (m == 2) ≡ false
    → (153 * (if ltb 2 (m + 1) then m + 1 - 3 else m + 1 + 9) + 2) / 5
      ≡ (153 * (if ltb 2 m then m - 3 else m + 9) + 2) / 5 + plain_length m
next_month m lo hi other = ground (arith, lo, hi, other)

march_year_same : (y m : ℕ) → 1 ≤ m → (m == 2) ≡ false → march_year y (m + 1) ≡ march_year y m
march_year_same y m lo other = ground (arith, lo, other)

tomorrow_plain :
    (y m : ℕ)
    → 1 ≤ m
    → m < 12
    → (m == 2) ≡ false
    → scale (march_year y (m + 1)) (m + 1) 1 ≡ scale (march_year y m) m (plain_length m) + 1
tomorrow_plain y m lo hi other =
    rw (march_year_same y m lo other)
      (omega (arith, next_month m lo hi other, positive (m == 4 || m == 6 || m == 9 || m == 11)))
  where
    positive : (b : Bool) → 1 ≤ (if b then 30 else 31)
    positive true = omega arith
    positive false = omega arith

tomorrow_march :
    (y : ℕ) → 1970 ≤ y → scale y 3 1 ≡ scale (y - 1) 2 (if is_leap y then 29 else 28) + 1
tomorrow_march y since = ground (arith, since)

tomorrow_year :
    (y : ℕ) → 1970 ≤ y → scale (march_year (y + 1) 1) 1 1 ≡ scale (march_year y 12) 12 31 + 1
tomorrow_year y since = ground (arith, since)

day_of_era-scale :
    (y m d : ℕ)
    → 1 ≤ m
    → m ≤ 12
    → 1 ≤ d
    → d ≤ 31
    → y / 400 * 146097 + day_of_era (y - y / 400 * 400) m d ≡ scale y m d
unfolding day_of_era day_of_year
day_of_era-scale y m d lo hi first last = ground (arith, lo, hi, first, last)

month_length_plain : (y m : ℕ) → (m == 2) ≡ false → month_length y m ≡ plain_length m
month_length_plain y m other = rw other refl

month_length_feb : (y m : ℕ) → (m == 2) ≡ true → month_length y m ≡ (if is_leap y then 29 else 28)
month_length_feb y m feb = rw feb refl

plain_length-bounds : (m : ℕ) → (30 ≤ plain_length m) × (plain_length m ≤ 31)
plain_length-bounds m = (ground arith, ground arith)

next_number :
    (y m d : ℕ)
    → 1970 ≤ y
    → 1 ≤ m
    → m < 12
    → d ≡ month_length y m
    → scale (march_year y (m + 1)) (m + 1) 1 ≡ scale (march_year y m) m d + 1
next_number y m d since lo hi last = elim (Bool-cases (m == 2)) [
  | inl feb ↦
      let two : m ≡ 2 = (==_iff m 2).0 feb in
      let ends : d ≡ (if is_leap y then 29 else 28) = last ∙ month_length_feb y m feb in
      rw (two, ends) (tomorrow_march y since)
  | inr other ↦ rw (last ∙ month_length_plain y m other) (tomorrow_plain y m lo hi other)
]

number-tomorrow : (t : Date) → IsValid t → number (tomorrow t) ≡ number t + 1
number-tomorrow t v =
    let P = λ (u : Date). number u ≡ number t + 1 in
    if-ind P (ltb t.day (month_length t.year t.month)) (λ more. tomorrow_same t v (ltb→lt _ _ more))
      λ last.
        let is_last : t.day ≡ month_length t.year t.month =
          omega (arith, v.to_last, ltb→ge _ _ last) in
        if-ind P (ltb t.month 12)
          (λ within.
            next_number t.year t.month t.day v.since v.from_january (ltb→lt _ _ within) is_last)
          λ december.
            let twelve : t.month ≡ 12 = omega (arith, v.to_december, ltb→ge _ _ december) in
            let ends : t.day ≡ 31 = is_last ∙ (rw twelve refl) in
            rw (twelve, ends) (tomorrow_year t.year v.since)

number-date_after : (n : ℕ) → number (date_after n) ≡ 719468 + n
number-date_after zero = refl
number-date_after (suc n) =
    omega (arith, number-tomorrow (date_after n) (date_after-IsValid n), number-date_after n)

minus-positive : (a b n : ℕ) → a ≡ b + n → minus a b ≡ pos n
unfolding minus
minus-positive a b n h = rw h (
    if-ind (λ z. z ≡ pos n) (leb b (b + n)) {x = pos (b + n - b)} {y = negsuc (b - (b + n) - 1)}
      (λ _. ap pos (omega arith)) λ below. ground (arith, below))

fits-small : (w n : ℕ) → n < w → fits w (pos n) ≡ some (pos n)
unfolding fits
fits-small w n h = ground (arith, h)

as_long-small : (w n : ℕ) → n < w → as_long w n ≡ pos n
as_long-small w n h = ground (arith, h)

-- Nothing overflows where the day on the trainer's scale is below 2 ^ 31.
days_of-small :
    (w eras doe n : ℕ)
    → 2 ^ 31 ≤ w
    → eras + doe ≡ 719468 + n
    → 719468 + n < 2 ^ 31
    → days_of w (pos eras) doe ≡ some (pos n)
unfolding days_of
days_of-small w eras doe n wide is small =
    rw
      (
        fits-small w eras (omega (arith, wide, is, small)),
        as_long-small w doe (omega (arith, wide, is, small)),
        fits-small w (eras + doe) (omega (arith, wide, is, small)),
        minus-positive (eras + doe) 719468 n is,
      )
      (fits-small w n (omega (arith, wide, small)))

march : (y m : ℕ) → 1 ≤ y → (if leb m 2 then dec (pos y) else pos y) ≡ pos (march_year y m)
march zero m h = absurd (omega (arith, h))
march (suc y) m h =
    let before : y ≡ suc y - 1 = omega arith in
    if_pos (leb m 2) y (suc y) ∙ ap (λ x. pos (if leb m 2 then x else suc y)) before
  where
    if_pos : (b : Bool) (x z : ℕ) → (if b then pos x else pos z) ≡ pos (if b then x else z)
    if_pos true x z = refl
    if_pos false x z = refl

scale-year : (y m d : ℕ) → y ≤ scale y m d
scale-year y m d = omega arith

-- The routine agrees with the calendar: for the date that is reached from the first of January 1970
-- by going on from one day to the next, with the leap years of the Gregorian calendar, it gives the
-- number of these steps, and no operation overflows, where `long` has 32 bits or more and the
-- date is less than 2 ^ 31 - 719468 days on.
pub days_from_civil-date_after :
    (w n : ℕ)
    → 2 ^ 31 ≤ w
    → n + 719468 < 2 ^ 31
    → days_from_civil w (pos (date_after n).year) (date_after n).month (date_after n).day
      ≡ some (pos n)
unfolding days_from_civil days_in_era
days_from_civil-date_after w n wide small =
    let t = date_after n in
    let v = date_after-IsValid n in
    let y = march_year t.year t.month in
    let number_is = number-date_after n in
    let within : y < 2 ^ 31 = omega (arith, scale-year y t.month t.day, number_is, small) in
    ap (λ z. fits (2 ^ 31) z >>= λ year. days_in_era w year t.month t.day)
      (march t.year t.month (omega (arith, v.since)))
    ∙ ap (λ o. o >>= λ year. days_in_era w year t.month t.day) (fits-small (2 ^ 31) y within)
    ∙ days_of-small w (y / 400 * 146097) (day_of_era (y - y / 400 * 400) t.month t.day) n wide
        (day_of_era-scale y t.month t.day v.from_january v.to_december v.from_first
            (omega (arith, v.to_last, month_length-bounds t.year t.month))
          ∙ number_is)
        (omega (arith, small))
