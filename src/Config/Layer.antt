-- ===== src/Config/Layer.antt =====
-- One layer of settings, and what it says of one of them (crates/pic-x-core/src/config.rs).
use pic_x.Base.{
  Text, Option, none, some, List, [], ◌∷◌, Bool, not, if◌then◌else◌, ◌==◌, text_eq, is_empty_text,
  retain, trim_end_matches, Result, ok, err,
}
use pic_x.Config.Parse.{ParseError}

-- Why a layer is refused: the setting that could not be read, or the half of a pair that is missing.
pub data LayerError : Type 0 where
  reading : Text → ParseError → LayerError
  only_certificate only_key : Text → LayerError

-- The pairs of a layer. Of a key that comes twice the last value counts, as in a `BTreeMap` that is
-- collected, and a value that is empty is none.
abbrev pub Pairs : Type 0
Pairs = List (Text × Text)

abbrev is_supplied : Text × Text → Bool
is_supplied p = not (is_empty_text p.1)

unfoldable pub last_of : Text → Pairs → Option Text
last_of key [] = none
last_of key ((j, v) ∷ m) =
    let later = last_of key m in
    elim later [ some w ↦ some w | none ↦ if text_eq j key then some v else none ]

unfoldable pub get : Text → Pairs → Option Text
get key inputs = last_of key (retain is_supplied inputs)

abbrev pub with_context {ℓ} : {A : Type ℓ} → Text → Result ParseError A → Result LayerError A
with_context key (ok a) = ok a
with_context key (err e) = err (reading key e)

-- What a setting gives, with the value from before where the layer does not supply it.
abbrev pub given :
    {A : Type 0} → Text → (Text → Result ParseError A) → A → Option Text → Result LayerError A
given key parse previous none = ok previous
given key parse previous (some value) = with_context key (parse value)

unfoldable pub setting_of :
    {A : Type 0} → Pairs → Text → (Text → Result ParseError A) → A → Result LayerError A
setting_of s key parse previous = given key parse previous (get key s)

abbrev pub some_text : Text → Result ParseError (Option Text)
some_text value = ok (some value)

-- Without the slashes at its end.
abbrev pub without_slashes : Text → Text
without_slashes value = trim_end_matches (λ c. c == b'/') value

abbrev pub base : Text → Result ParseError Text
base value = ok (without_slashes value)

abbrev pub some_base : Text → Result ParseError (Option Text)
some_base value = ok (some (without_slashes value))

-- `BTreeSet::insert` of a key that the layer supplies.
abbrev pub declare : Text → Option Text → List Text → List Text
declare key none set = set
declare key (some _) set = key ∷ set
