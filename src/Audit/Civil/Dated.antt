-- ===== src/Audit/Civil/Dated.antt =====
-- The parts of a date of an era, and the way back (`date_of` and `days_of` of
-- crates/pic-x-std/src/audit/civil.rs).
use pic_x.Base.{
  ℕ, ◌+◌, ◌-◌, ◌*◌, ◌/◌, ◌≤◌, ◌<◌, ◌≡◌, refl, ◌∙◌, Bool, true, false, leb, ltb, if◌then◌else◌,
  arith,
}
use pic_x.Base.Int.{ℤ, pos, ◌+ℤ◌, ◌-ℤ◌, ◌*ℤ◌, ltb_ℤ}
use pic_x.Audit.Civil.{Date, date_of, days_of, epoch_shift, ◌/ℤ◌, to_u32}
use pic_x.Audit.Civil.Eras.{era_of, of_day, day_in_era, of_day_lt, day_again, in_era, year_in_era}

-- The parts of a date, of a day counted in its era, as natural numbers.
abbrev pub year_at : ℕ → ℕ
year_at n = (n - n / 1460 + n / 36524 - n / 146096) / 365

abbrev pub year_start : ℕ → ℕ
year_start y = 365 * y + y / 4 - y / 100

abbrev pub day_at : ℕ → ℕ
day_at n = n - year_start (year_at n)

abbrev pub month_at : ℕ → ℕ
month_at d = (5 * d + 2) / 153

abbrev pub month_start : ℕ → ℕ
month_start m = (153 * m + 2) / 5

abbrev pub month_of : ℕ → ℕ
month_of m = if ltb m 10 then m + 3 else m - 9

pub year_at_lt : (n : ℕ) → n < 146097 → year_at n < 400
year_at_lt n h = omega arith

year_start_le : (n : ℕ) → n < 146097 → year_start (year_at n) ≤ n
year_start_le n h = omega arith

pub day_at_le : (n : ℕ) → n < 146097 → day_at n ≤ 365
day_at_le n h = omega arith

pub month_at_le : (d : ℕ) → d ≤ 365 → month_at d ≤ 11
month_at_le d h = omega arith

pub month_start_le : (d : ℕ) → d ≤ 365 → month_start (month_at d) ≤ d
month_start_le d h = omega arith

pub day_le : (d : ℕ) → d ≤ 365 → d ≤ 30 + month_start (month_at d)
day_le d h = omega arith

-- The integers of the code are these numbers, there and back.
year_int :
    (n : ℕ)
    → n < 146097
    → (pos n -ℤ pos n /ℤ 1460 +ℤ pos n /ℤ 36524 -ℤ pos n /ℤ 146096) /ℤ 365 ≡ pos (year_at n)
unfolding ◌+ℤ◌ ◌-ℤ◌
year_int n h = ground arith

day_int :
    (n y : ℕ)
    → year_start y ≤ n
    → pos n -ℤ (pos 365 *ℤ pos y +ℤ pos y /ℤ 4 -ℤ pos y /ℤ 100) ≡ pos (n - year_start y)
unfolding ◌+ℤ◌ ◌-ℤ◌ ◌*ℤ◌
day_int n y h = ground arith

month_int : (d : ℕ) → (pos 5 *ℤ pos d +ℤ pos 2) /ℤ 153 ≡ pos (month_at d)
unfolding ◌+ℤ◌ ◌*ℤ◌
month_int d = ground arith

number_int :
    (d m : ℕ)
    → d ≤ 365
    → month_start m ≤ d
    → to_u32 (pos d -ℤ (pos 153 *ℤ pos m +ℤ pos 2) /ℤ 5 +ℤ pos 1) ≡ d - month_start m + 1
unfolding ◌+ℤ◌ ◌-ℤ◌ ◌*ℤ◌
number_int d m h k = ground arith

month_u32 :
    (m : ℕ)
    → m ≤ 11
    → to_u32 (if ltb_ℤ (pos m) (pos 10) then pos m +ℤ pos 3 else pos m -ℤ pos 9) ≡ month_of m
unfolding ◌+ℤ◌ ◌-ℤ◌
month_u32 m h = ground arith

month_back :
    (m : ℕ)
    → m ≤ 11
    → (if leb (month_of m) 2 then pos (month_of m) +ℤ pos 9 else pos (month_of m) -ℤ pos 3) ≡ pos m
unfolding ◌+ℤ◌ ◌-ℤ◌
month_back m h = ground arith

day_back :
    (d m : ℕ)
    → month_start m ≤ d
    → (pos 153 *ℤ pos m +ℤ pos 2) /ℤ 5 +ℤ pos (d - month_start m + 1) -ℤ pos 1 ≡ pos d
unfolding ◌+ℤ◌ ◌-ℤ◌ ◌*ℤ◌
day_back d m k = ground arith

era_back :
    (n y : ℕ)
    → year_start y ≤ n
    → pos y *ℤ pos 365 +ℤ pos y /ℤ 4 -ℤ pos y /ℤ 100 +ℤ pos (n - year_start y) ≡ pos n
unfolding ◌+ℤ◌ ◌-ℤ◌ ◌*ℤ◌
era_back n y h = ground arith

year_back :
    (b : Bool) (y : ℤ) → (let z = if b then y +ℤ pos 1 else y in if b then z -ℤ pos 1 else z) ≡ y
unfolding ◌+ℤ◌ ◌-ℤ◌
year_back true y = ground arith
year_back false y = refl

pub shift_back : (s : ℤ) → s +ℤ epoch_shift -ℤ epoch_shift ≡ s
unfolding ◌+ℤ◌ ◌-ℤ◌
shift_back s = ground arith

-- The date of a day of an era, and its day.
abbrev from_era : ℤ → ℤ → Date
from_era era day_of_era =
    let year_of_era =
      (day_of_era -ℤ day_of_era /ℤ 1460 +ℤ day_of_era /ℤ 36524 -ℤ day_of_era /ℤ 146096) /ℤ 365 in
    let year = year_of_era +ℤ era *ℤ pos 400 in
    let day_of_year =
      day_of_era -ℤ (pos 365 *ℤ year_of_era +ℤ year_of_era /ℤ 4 -ℤ year_of_era /ℤ 100) in
    let shifted_month = (pos 5 *ℤ day_of_year +ℤ pos 2) /ℤ 153 in
    let day = to_u32 (day_of_year -ℤ (pos 153 *ℤ shifted_month +ℤ pos 2) /ℤ 5 +ℤ pos 1) in
    let month =
      to_u32
        (if ltb_ℤ shifted_month (pos 10) then shifted_month +ℤ pos 3 else shifted_month -ℤ pos 9) in
    record { year = if leb month 2 then year +ℤ pos 1 else year; month = month; day = day }

date_of_era :
    (days : ℤ)
    → let s = days +ℤ epoch_shift in
      date_of days ≡ from_era (era_of s) (s -ℤ era_of s *ℤ pos 146097)
unfolding date_of
date_of_era days = refl

abbrev pub dated : ℤ → ℕ → Date
dated e n =
    let month = month_of (month_at (day_at n)) in
    let year = pos (year_at n) +ℤ e *ℤ pos 400 in
    record {
      year = if leb month 2 then year +ℤ pos 1 else year;
      month = month;
      day = day_at n - month_start (month_at (day_at n)) + 1;
    }

from_era-dated : (e : ℤ) (n : ℕ) → n < 146097 → from_era e (pos n) ≡ dated e n
from_era-dated e n h =
    let d = day_at n in
    let l = day_at_le n h in
    rw
      (
        year_int n h,
        day_int n (year_at n) (year_start_le n h),
        month_int d,
        number_int d (month_at d) l (month_start_le d l),
        month_u32 (month_at d) (month_at_le d l),
      )
      refl

pub days_of-dated :
    (e : ℤ) (n : ℕ) → n < 146097 → days_of (dated e n) ≡ e *ℤ pos 146097 +ℤ pos n -ℤ epoch_shift
unfolding days_of
days_of-dated e n h =
    let d = day_at n in
    let l = day_at_le n h in
    let y = year_at_lt n h in
    rw
      (
        year_back (leb (month_of (month_at d)) 2) (pos (year_at n) +ℤ e *ℤ pos 400),
        in_era e (year_at n) y,
        year_in_era e (year_at n) y,
        month_back (month_at d) (month_at_le d l),
        day_back d (month_at d) (month_start_le d l),
        era_back n (year_at n) (year_start_le n h),
      )
      refl

pub date_of-dated :
    (days : ℤ) → let s = days +ℤ epoch_shift in date_of days ≡ dated (era_of s) (of_day s)
date_of-dated days =
    let s = days +ℤ epoch_shift in
    date_of_era days ∙ rw (day_in_era s) (from_era-dated (era_of s) (of_day s) (of_day_lt s))

-- Counting the days to the date of a day gives the day again.
pub days_of-date_of : (days : ℤ) → days_of (date_of days) ≡ days
days_of-date_of days =
    let s = days +ℤ epoch_shift in
    rw
      (
        date_of-dated days,
        days_of-dated (era_of s) (of_day s) (of_day_lt s),
        day_again s,
        shift_back days,
      )
      refl
