-- ===== src/Audit/Civil/Eras.antt =====
-- The 400 years that the calendar repeats after (crates/pic-x-std/src/audit/civil.rs): the era that a
-- day or a year is in, before the epoch as after it.
use pic_x.Base.{ℕ, ◌-◌, ◌%◌, ◌<◌, ◌≡◌, if◌then◌else◌, arith}
use pic_x.Base.Int.{ℤ, pos, negsuc, ◌+ℤ◌, ◌-ℤ◌, ◌*ℤ◌, ltb_ℤ}
use pic_x.Audit.Civil.{◌/ℤ◌}

-- The four-hundred years that a day is in, and the day in them.
abbrev pub era_of : ℤ → ℤ
era_of s = (if ltb_ℤ s (pos 0) then s -ℤ pos 146096 else s) /ℤ 146097

abbrev pub of_day : ℤ → ℕ
of_day (pos n) = n % 146097
of_day (negsuc n) = 146096 - n % 146097

pub day_in_era : (s : ℤ) → s -ℤ era_of s *ℤ pos 146097 ≡ pos (of_day s)
unfolding ◌-ℤ◌ ◌*ℤ◌
day_in_era (pos n) = ground arith
day_in_era (negsuc n) = ground arith

pub of_day_lt : (s : ℤ) → of_day s < 146097
of_day_lt (pos n) = omega arith
of_day_lt (negsuc n) = omega arith

pub day_again : (s : ℤ) → era_of s *ℤ pos 146097 +ℤ pos (of_day s) ≡ s
unfolding ◌-ℤ◌ ◌*ℤ◌ ◌+ℤ◌
day_again (pos n) = ground arith
day_again (negsuc n) = ground arith

-- The year in the era, and the era of a year.
pub in_era :
    (e : ℤ) (y : ℕ)
    → y < 400
    → ((if ltb_ℤ (pos y +ℤ e *ℤ pos 400) (pos 0)
          then pos y +ℤ e *ℤ pos 400 -ℤ pos 399
          else pos y +ℤ e *ℤ pos 400)
        /ℤ 400)
      ≡ e
unfolding ◌-ℤ◌ ◌*ℤ◌ ◌+ℤ◌
in_era (pos e) y h = ground arith
in_era (negsuc e) y h = ground arith

pub year_in_era : (e : ℤ) (y : ℕ) → y < 400 → pos y +ℤ e *ℤ pos 400 -ℤ e *ℤ pos 400 ≡ pos y
unfolding ◌-ℤ◌ ◌*ℤ◌ ◌+ℤ◌
year_in_era (pos e) y h = ground arith
year_in_era (negsuc e) y h = ground arith
