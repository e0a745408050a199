-- ===== src/Audit/Civil.antt =====
-- crates/pic-x-std/src/audit/civil.rs: days since the Unix epoch, dates, and RFC 3339 timestamps, by
-- Hinnant's algorithm. The i64 arithmetic is kept as integers; the code's values stay within i64 for
-- timestamps that a clock can give.
pub mod Eras
pub mod Dated
pub mod Calendar
pub mod Range
use pic_x.Base.{
  ℕ, suc, ◌+◌, ◌-◌, ◌*◌, ◌/◌, ◌%◌, ◌^◌, Text, codes, Option, none, some, List, [], ◌∷◌, ◌++◌, Bool,
  ◌&&◌, leb, if◌then◌else◌, split, parse_unsigned, decimal, zero_padded,
}
use pic_x.Base.Int.{ℤ, pos, negsuc, ◌+ℤ◌, ◌-ℤ◌, ◌*ℤ◌, ltb_ℤ}

abbrev pub day_seconds : ℕ
day_seconds = 86400

abbrev pub epoch_shift : ℤ
epoch_shift = pos 719468

pub record Date : Type 0 where
  pub year : ℤ
  pub month : ℕ
  pub day : ℕ

-- `/` of the code, which rounds towards zero; the divisor is a positive constant.
infixl 70 ◌/ℤ◌
abbrev pub ◌/ℤ◌ : ℤ → ℕ → ℤ
pos n /ℤ m = pos (n / m)
negsuc n /ℤ m = pos 0 -ℤ pos (suc n / m)

abbrev pub div_euclid : ℤ → ℕ → ℤ
div_euclid (pos n) m = pos (n / m)
div_euclid (negsuc n) m = negsuc (n / m)

abbrev pub rem_euclid : ℤ → ℕ → ℕ
rem_euclid (pos n) m = n % m
rem_euclid (negsuc n) m = m - 1 - n % m

-- `as u32`
abbrev pub to_u32 : ℤ → ℕ
to_u32 (pos n) = n % 2 ^ 32
to_u32 (negsuc n) = 2 ^ 32 - 1 - n % 2 ^ 32

unfoldable pub day_of : ℤ → ℤ
day_of seconds = div_euclid seconds day_seconds

abbrev is_negative : ℤ → Bool
is_negative n = ltb_ℤ n (pos 0)

unfoldable pub date_of : ℤ → Date
date_of days =
    let shifted = days +ℤ epoch_shift in
    let era = (if is_negative shifted then shifted -ℤ pos 146096 else shifted) /ℤ 146097 in
    let day_of_era = shifted -ℤ era *ℤ pos 146097 in
    let year_of_era =
      (day_of_era -ℤ day_of_era /ℤ 1460 +ℤ day_of_era /ℤ 36524 -ℤ day_of_era /ℤ 146096) /ℤ 365 in
    let year = year_of_era +ℤ era *ℤ pos 400 in
    let day_of_year =
      day_of_era -ℤ (pos 365 *ℤ year_of_era +ℤ year_of_era /ℤ 4 -ℤ year_of_era /ℤ 100) in
    let shifted_month = (pos 5 *ℤ day_of_year +ℤ pos 2) /ℤ 153 in
    let day = to_u32 (day_of_year -ℤ (pos 153 *ℤ shifted_month +ℤ pos 2) /ℤ 5 +ℤ pos 1) in
    let month =
      to_u32
        (if ltb_ℤ shifted_month (pos 10) then shifted_month +ℤ pos 3 else shifted_month -ℤ pos 9) in
    record { year = if leb month 2 then year +ℤ pos 1 else year; month = month; day = day }

unfoldable pub days_of : Date → ℤ
days_of date =
    let year = if leb date.month 2 then date.year -ℤ pos 1 else date.year in
    let era = (if is_negative year then year -ℤ pos 399 else year) /ℤ 400 in
    let year_of_era = year -ℤ era *ℤ pos 400 in
    let shifted_month =
      if leb date.month 2 then pos date.month +ℤ pos 9 else pos date.month -ℤ pos 3 in
    let day_of_year = (pos 153 *ℤ shifted_month +ℤ pos 2) /ℤ 5 +ℤ pos date.day -ℤ pos 1 in
    let day_of_era =
      year_of_era *ℤ pos 365 +ℤ year_of_era /ℤ 4 -ℤ year_of_era /ℤ 100 +ℤ day_of_year in
    era *ℤ pos 146097 +ℤ day_of_era -ℤ epoch_shift

-- `{:04}` counts the sign.
abbrev written_year : ℤ → Text
written_year (pos n) = zero_padded 4 (decimal n)
written_year (negsuc n) = b'-' ∷ zero_padded 3 (decimal (suc n))

abbrev two : ℕ → Text
two n = zero_padded 2 (decimal n)

unfoldable pub to_iso : Date → Text
to_iso date = written_year date.year ++ b'-' ∷ two date.month ++ b'-' ∷ two date.day

unfoldable pub to_rfc3339 : ℤ → Text
to_rfc3339 seconds =
    let time = rem_euclid seconds day_seconds in
    to_iso (date_of (day_of seconds))
    ++ b'T' ∷ two (time / 3600)
    ++ b':' ∷ two (time % 3600 / 60)
    ++ b':' ∷ two (time % 60)
    ++ b'Z' ∷ []

abbrev pub in_range : ℕ → ℕ → Option Date → Option Date
in_range month day date =
    if leb 1 month && leb month 12 && leb 1 day && leb day 31 then date else none

abbrev pub of_parts : Option ℕ → Option ℕ → Option ℕ → Option Date
of_parts (some year) (some month) (some day) =
    in_range month day (some (record { year = pos year; month = month; day = day }))
of_parts _ _ _ = none

-- A part has no `-`, so the year that is read is never negative.
abbrev pub from_parts : List Text → Option Date
from_parts (year ∷ month ∷ day ∷ []) =
    of_parts (parse_unsigned (2 ^ 63 - 1) year) (parse_unsigned (2 ^ 32 - 1) month)
      (parse_unsigned (2 ^ 32 - 1) day)
from_parts _ = none

unfoldable pub from_iso : Text → Option Date
from_iso text = from_parts (split b'-' text)
