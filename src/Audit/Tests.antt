-- ===== src/Audit/Tests.antt =====
-- Dates that a calendar shows, and the theorems about dates at concrete ones.
use pic_x.Audit.Event.{mask, max_tail, tail, render_mask}
use pic_x.Audit.Event.Masks.{render_mask-tail}
use pic_x.Base.{
  ℕ, [], ◌++◌, ◌⊎◌, drop, length, ◌≤◌, ◌<◌, ◌≡◌, refl, codes, some, split, split_at, digits_from,
  decimal_from,
}
use pic_x.Base.Int.{pos, negsuc, ◌+ℤ◌, ◌-ℤ◌, ◌*ℤ◌}
use pic_x.Audit.Civil.Calendar.{IsDate, date_of-IsDate}
use pic_x.Audit.Civil.{Date, day_of, to_rfc3339, from_iso, date_of, days_of, to_iso}

leap_day : to_rfc3339 (pos 951782400) ≡ codes "2000-02-29T00:00:00Z"
unfolding to_rfc3339 to_iso date_of day_of decimal_from ◌+ℤ◌ ◌-ℤ◌ ◌*ℤ◌
leap_day = refl

before_epoch : to_rfc3339 (negsuc 0) ≡ codes "1969-12-31T23:59:59Z"
unfolding to_rfc3339 to_iso date_of day_of decimal_from ◌+ℤ◌ ◌-ℤ◌ ◌*ℤ◌
before_epoch = refl

-- The last day of February of a leap year before the epoch.
date_of-IsDate_example :
    IsDate (date_of (negsuc 671)) × (days_of (date_of (negsuc 671)) ≡ negsuc 671)
date_of-IsDate_example = date_of-IsDate (negsuc 671)

abbrev written_on : Date
written_on = record { year = pos 2025; month = 8; day = 9 }

reads : from_iso (codes "2025-08-09") ≡ some written_on
unfolding from_iso split split_at digits_from
reads = refl

render_mask-tail_example :
    (n : ℕ) × (render_mask (tail (codes "4111222233334444") 9)
      ≡ mask ++ drop n (codes "4111222233334444"))
    × (length (drop n (codes "4111222233334444")) ≤ max_tail)
    × ((length (drop n (codes "4111222233334444")) < length (codes "4111222233334444"))
        ⊎ (codes "4111222233334444" ≡ []))
render_mask-tail_example = render_mask-tail (codes "4111222233334444") 9
