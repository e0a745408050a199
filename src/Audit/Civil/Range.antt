-- ===== src/Audit/Civil/Range.antt =====
-- Where a date that was read lies.
use pic_x.Base.{
  ℕ, ◌-◌, ◌^◌, ◌≤◌, ◌≡◌, Text, List, [], ◌∷◌, Option, none, some, arith, split, parse_unsigned,
}
use pic_x.Audit.Civil.{Date, from_iso, in_range, of_parts, from_parts}

in_range-some :
    (month day : ℕ) (o : Option Date) (d : Date)
    → in_range month day o ≡ some d
    → (1 ≤ month) × (month ≤ 12) × (1 ≤ day) × (day ≤ 31) × (o ≡ some d)
in_range-some month day o d h = ground arith

of_parts-some :
    (y m n : Option ℕ) (d : Date)
    → of_parts y m n ≡ some d
    → (1 ≤ d.month) × (d.month ≤ 12) × (1 ≤ d.day) × (d.day ≤ 31)
of_parts-some none m n d h = cc
of_parts-some (some y) none n d h = cc
of_parts-some (some y) (some m) none d h = cc
of_parts-some (some y) (some m) (some n) d h =
    let (a, b, c, e, i) = in_range-some m n _ d h in
    let p : m ≡ d.month = cc in
    let q : n ≡ d.day = cc in
    (omega (arith, p), omega (arith, p), omega (arith, q), omega (arith, q))

from_parts-some :
    (l : List Text) (d : Date)
    → from_parts l ≡ some d
    → (1 ≤ d.month) × (d.month ≤ 12) × (1 ≤ d.day) × (d.day ≤ 31)
from_parts-some [] d h = cc
from_parts-some (y ∷ []) d h = cc
from_parts-some (y ∷ m ∷ []) d h = cc
from_parts-some (y ∷ m ∷ n ∷ []) d h =
    of_parts-some (parse_unsigned (2 ^ 63 - 1) y) (parse_unsigned (2 ^ 32 - 1) m)
      (parse_unsigned (2 ^ 32 - 1) n) d h
from_parts-some (y ∷ m ∷ n ∷ o ∷ l) d h = cc

-- A date that was read has a month from 1 to 12 and a day from 1 to 31.
pub from_iso-some :
    (text : Text) (d : Date)
    → from_iso text ≡ some d
    → (1 ≤ d.month) × (d.month ≤ 12) × (1 ≤ d.day) × (d.day ≤ 31)
unfolding from_iso
from_iso-some text d h = from_parts-some (split b'-' text) d h
