-- ===== src/Audit/Civil/Calendar.antt =====
-- The Gregorian calendar, how long its months are, beside the dates of
-- crates/pic-x-std/src/audit/civil.rs.
use pic_x.Base.{
  ℕ, suc, ◌+◌, ◌-◌, ◌%◌, ◌≤◌, ◌<◌, ◌≡◌, ◌≢◌, ◌↔◌, refl, inl, inr, Bool-cases, Bool, true, not, ◌&&◌,
  ◌||◌, ◌==◌, leb, if◌then◌else◌, arith,
}
use pic_x.Base.Int.{ℤ, pos, negsuc, ◌+ℤ◌, ◌*ℤ◌}
use pic_x.Audit.Civil.{Date, rem_euclid, date_of, days_of, epoch_shift}
use pic_x.Audit.Civil.Eras.{era_of, of_day, of_day_lt}
use pic_x.Audit.Civil.Dated.{
  year_at, day_at, month_at, month_start, month_of, day_at_le, month_at_le, dated, date_of-dated,
  days_of-date_of,
}

abbrev pub is_leap : ℤ → Bool
is_leap year =
    rem_euclid year 4 == 0 && (not (rem_euclid year 100 == 0) || rem_euclid year 400 == 0)

abbrev pub month_length : ℤ → ℕ → ℕ
month_length year month =
    if month == 2
    then (if is_leap year then 29 else 28)
    else if month == 4 || month == 6 || month == 9 || month == 11
    then 30
    else 31

pub record IsDate (date : Date) : Type 0 where
  pub month_from : 1 ≤ date.month
  pub month_to : date.month ≤ 12
  pub day_from : 1 ≤ date.day
  pub day_to : date.day ≤ month_length date.year date.month

rem_4 : (e : ℤ) (y : ℕ) → rem_euclid (pos y +ℤ e *ℤ pos 400 +ℤ pos 1) 4 ≡ suc y % 4
unfolding ◌+ℤ◌ ◌*ℤ◌
rem_4 (pos e) y = ground arith
rem_4 (negsuc e) y = ground arith

rem_100 : (e : ℤ) (y : ℕ) → rem_euclid (pos y +ℤ e *ℤ pos 400 +ℤ pos 1) 100 ≡ suc y % 100
unfolding ◌+ℤ◌ ◌*ℤ◌
rem_100 (pos e) y = ground arith
rem_100 (negsuc e) y = ground arith

rem_400 : (e : ℤ) (y : ℕ) → rem_euclid (pos y +ℤ e *ℤ pos 400 +ℤ pos 1) 400 ≡ suc y % 400
unfolding ◌+ℤ◌ ◌*ℤ◌
rem_400 (pos e) y = ground arith
rem_400 (negsuc e) y = ground arith

-- A year of 366 days ends in the February of a leap year.
long_year :
    (n : ℕ)
    → n < 146097
    → day_at n ≡ 365
    → (suc (year_at n) % 4 == 0 && (not (suc (year_at n) % 100 == 0) || suc (year_at n) % 400 == 0))
      ≡ true
long_year n h k = ground arith

february :
    (e : ℤ) (n : ℕ)
    → n < 146097
    → month_at (day_at n) ≡ 11
    → day_at n - month_start (month_at (day_at n)) + 1
      ≤ (if is_leap (pos (year_at n) +ℤ e *ℤ pos 400 +ℤ pos 1) then 29 else 28)
february e n h m =
    rw (rem_4 e (year_at n), rem_100 e (year_at n), rem_400 e (year_at n))
      (ground (arith, long_year n h, day_at_le n h))

other_month :
    (d : ℕ)
    → d ≤ 365
    → month_at d ≢ 11
    → d - month_start (month_at d) + 1 ≤ (
        if month_of (month_at d) == 4
          || month_of (month_at d) == 6
          || month_of (month_at d) == 9
          || month_of (month_at d) == 11
        then 30
        else 31)
other_month d l m = ground arith

is_february : (m : ℕ) → m ≤ 11 → (month_of m == 2 ≡ true) ↔ (m ≡ 11)
is_february m h = ground arith

month_of_le : (m : ℕ) → m ≤ 11 → (1 ≤ month_of m) × (month_of m ≤ 12)
month_of_le m h = ground arith

day_to :
    (e : ℤ) (n : ℕ) → n < 146097 → (dated e n).day ≤ month_length (dated e n).year (dated e n).month
day_to e n h =
    let m = month_at (day_at n) in
    let l = month_at_le (day_at n) (day_at_le n h) in
    elim (Bool-cases (month_of m == 2)) [
      | inl f ↦ let last = (is_february m l).0 f in rw (f, year_after m last) (february e n h last)
      | inr f ↦
          rw f (other_month (day_at n) (day_at_le n h) (λ last. cc ((is_february m l).1 last, f)))
    ]
  where
    year_after : (m : ℕ) → m ≡ 11 → leb (month_of m) 2 ≡ true
    year_after m last = rw last refl

-- The date that a day since the epoch is given exists in the Gregorian calendar, and counting the
-- days to that date gives the day again.
pub date_of-IsDate : (days : ℤ) → IsDate (date_of days) × (days_of (date_of days) ≡ days)
date_of-IsDate days =
    let s = days +ℤ epoch_shift in
    let n = of_day s in
    let h = of_day_lt s in
    let l = month_at_le (day_at n) (day_at_le n h) in
    (
      rw (date_of-dated days) (record {
        month_from = (month_of_le (month_at (day_at n)) l).0;
        month_to = (month_of_le (month_at (day_at n)) l).1;
        day_from = omega arith;
        day_to = day_to (era_of s) n h;
      }),
      days_of-date_of days,
    )
