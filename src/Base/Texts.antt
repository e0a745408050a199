-- ===== src/Base/Texts.antt =====
-- Text as the list of its code points, its equality test, and association lists keyed by text.
use Prim.Native.Nat.{ℕ, zero, suc, ◌+◌, ◌-◌, ◌*◌, ◌/◌, ◌%◌}
use Prim.Native.Char.{code}
use Prim.Native.String.{String}
use mathlib.Core.Path.{◌≡◌, refl}
use mathlib.Core.Logic.{◌↔◌}
use mathlib.Core.Bool.{Bool, true, false, ◌&&◌, ◌||◌}
use mathlib.Core.List.{List, [], ◌∷◌, ◌++◌, map}
use mathlib.Core.Option.{Option, none, some}
use native.Mathlib.Omega.{arith}
use pic_x.Base.Tests.{◌==◌, leb, ltb, if◌then◌else◌}

abbrev pub Text : Type 0
Text = List ℕ

-- The code points of a literal.
abbrev pub codes : String → Text
codes String.[] = []
codes (String.◌∷◌ c s) = code c ∷ codes s

unfoldable pub text_eq : Text → Text → Bool
text_eq [] [] = true
text_eq [] (d ∷ t) = false
text_eq (c ∷ s) [] = false
text_eq (c ∷ s) (d ∷ t) = (c == d) && text_eq s t

pub text_eq_sound : (s t : Text) → text_eq s t ≡ true → s ≡ t
unfolding text_eq
text_eq_sound [] [] h = refl
text_eq_sound [] (d ∷ t) h = cc
text_eq_sound (c ∷ s) [] h = cc
text_eq_sound (c ∷ s) (d ∷ t) h = ground (arith, text_eq_sound s t)

pub text_eq_refl : (s : Text) → text_eq s s ≡ true
unfolding text_eq
text_eq_refl [] = refl
text_eq_refl (c ∷ s) = ground (arith, text_eq_refl s)

pub text_eq_iff : (s t : Text) → (text_eq s t ≡ true) ↔ (s ≡ t)
text_eq_iff s t = (text_eq_sound s t, λ e. rw e (text_eq_refl t))

-- `list.contains(&text)`
unfoldable pub has_text : List Text → Text → Bool
has_text [] t = false
has_text (s ∷ l) t = text_eq s t || has_text l t

-- `map.get(key)` on an association list.
unfoldable pub lookup {ℓ} : {V : Type ℓ} → Text → List (Text × V) → Option V
lookup k [] = none
lookup k ((j, v) ∷ m) = if text_eq j k then some v else lookup k m

-- `text.starts_with(prefix)`, the prefix first.
unfoldable pub starts_with : Text → Text → Bool
starts_with [] s = true
starts_with (c ∷ p) [] = false
starts_with (c ∷ p) (d ∷ s) = (c == d) && starts_with p s

-- `char::is_whitespace`: the code points with the Unicode property White_Space.
abbrev pub is_whitespace : ℕ → Bool
is_whitespace c =
    (leb 9 c && leb c 13)
    || (c == 32)
    || (c == 0x85)
    || (c == 0xA0)
    || (c == 0x1680)
    || (leb 0x2000 c && leb c 0x200A)
    || (c == 0x2028)
    || (c == 0x2029)
    || (c == 0x202F)
    || (c == 0x205F)
    || (c == 0x3000)

-- `text.split(separator)`: the first part, and the parts behind a separator.
unfoldable pub split_at : ℕ → Text → Text × List Text
split_at sep [] = ([], [])
split_at sep (c ∷ s) =
    let rest = split_at sep s in if c == sep then ([], rest.0 ∷ rest.1) else (c ∷ rest.0, rest.1)

unfoldable pub split : ℕ → Text → List Text
unfolding split_at
split sep s = let r = split_at sep s in r.0 ∷ r.1

-- What stands behind the last line feed is no line if it is nothing.
unfoldable pub without_last : List Text → List Text
without_last [] = []
without_last ([] ∷ []) = []
without_last ((c ∷ l) ∷ []) = (c ∷ l) ∷ []
without_last (l ∷ m ∷ ls) = l ∷ without_last (m ∷ ls)

-- A line loses the carriage return at its end.
unfoldable pub without_cr : Text → Text
without_cr [] = []
without_cr (c ∷ []) = if c == 13 then [] else c ∷ []
without_cr (c ∷ d ∷ s) = c ∷ without_cr (d ∷ s)

-- `text.lines()`
unfoldable pub lines : Text → List Text
unfolding split without_last without_cr
lines s = map without_cr (without_last (split 10 s))

-- `text.trim_start()` and `text.trim_end()`; `text.trim()` is both.
unfoldable pub trim_start : Text → Text
trim_start [] = []
trim_start (c ∷ s) = if is_whitespace c then trim_start s else c ∷ s

abbrev pub is_empty_text : Text → Bool
is_empty_text [] = true
is_empty_text (_ ∷ _) = false

unfoldable pub trim_end : Text → Text
trim_end [] = []
trim_end (c ∷ s) =
    let rest = trim_end s in if is_empty_text rest && is_whitespace c then [] else c ∷ rest

abbrev pub trim : Text → Text
trim s = trim_start (trim_end s)

-- `text.trim_end_matches` and `text.trim_start_matches` of the characters with a test.
unfoldable pub trim_end_matches : (ℕ → Bool) → Text → Text
trim_end_matches test [] = []
trim_end_matches test (c ∷ s) =
    let rest = trim_end_matches test s in if is_empty_text rest && test c then [] else c ∷ rest

unfoldable pub trim_start_matches : (ℕ → Bool) → Text → Text
trim_start_matches test [] = []
trim_start_matches test (c ∷ s) =
    let rest = trim_start_matches test s in if test c then rest else c ∷ s

-- `text.strip_suffix` of one character with a test.
unfoldable pub strip_last : (ℕ → Bool) → Text → Option Text
strip_last test [] = none
strip_last test (c ∷ []) = if test c then some [] else none
strip_last test (c ∷ d ∷ s) =
    let rest = strip_last test (d ∷ s) in elim rest [ none ↦ none | some t ↦ some (c ∷ t) ]

-- `text.split_once(separator)` on a character.
unfoldable pub split_once_at : ℕ → Text → Option (Text × Text)
split_once_at sep [] = none
split_once_at sep (c ∷ s) =
    let rest = split_once_at sep s in
    if c == sep then some ([], s) else elim rest [ none ↦ none | some p ↦ some (c ∷ p.0, p.1) ]

-- `text.strip_prefix(prefix)`, the prefix first.
unfoldable pub strip_prefix : Text → Text → Option Text
strip_prefix [] s = some s
strip_prefix (c ∷ p) [] = none
strip_prefix (c ∷ p) (d ∷ s) = let rest = strip_prefix p s in if c == d then rest else none

-- `text.strip_suffix(suffix)`, the suffix first.
unfoldable pub strip_suffix : Text → Text → Option Text
strip_suffix p [] = if text_eq [] p then some [] else none
strip_suffix p (c ∷ s) =
    let rest = strip_suffix p s in
    if text_eq (c ∷ s) p then some [] else elim rest [ none ↦ none | some t ↦ some (c ∷ t) ]

abbrev pub is_digit : ℕ → Bool
is_digit c = leb b'0' c && leb c b'9'

-- `parse` of an unsigned integer: digits alone, and a number within the type.
unfoldable pub digits_from : ℕ → ℕ → Text → Option ℕ
digits_from bound acc [] = some acc
digits_from bound acc (c ∷ s) =
    let next = acc * 10 + (c - b'0') in
    let rest = digits_from bound next s in if is_digit c && leb next bound then rest else none

abbrev pub some_digits : ℕ → Text → Option ℕ
some_digits bound [] = none
some_digits bound (c ∷ s) = digits_from bound 0 (c ∷ s)

abbrev pub parse_unsigned : ℕ → Text → Option ℕ
parse_unsigned bound [] = none
parse_unsigned bound (c ∷ s) = if c == b'+' then some_digits bound s else some_digits bound (c ∷ s)

-- The decimal digits of a number below 10 ^ 20, in front of what is there.
unfoldable pub decimal_from : ℕ → ℕ → Text → Text
decimal_from zero n acc = acc
decimal_from (suc fuel) n acc =
    let rest = decimal_from fuel (n / 10) ((b'0' + n % 10) ∷ acc) in
    if ltb n 10 then (b'0' + n) ∷ acc else rest

abbrev pub decimal : ℕ → Text
decimal n = decimal_from 20 n []

-- `{:0width}` of a number whose digits are given.
abbrev pub zeros : ℕ → Text
zeros zero = []
zeros (suc n) = b'0' ∷ zeros n

abbrev pub text_length : Text → ℕ
text_length [] = 0
text_length (_ ∷ s) = suc (text_length s)

abbrev pub zero_padded : ℕ → Text → Text
zero_padded width s = zeros (width - text_length s) ++ s
