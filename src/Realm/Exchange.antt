-- ===== src/Realm/Exchange.antt =====
-- crates/pic-x-realm/src/exchange.rs: the token endpoint, from the form of a request to the record that
-- comes before the answer. Here the errors and the form.
pub mod Escapes
pub mod Expiry
pub mod Mapping
pub mod Preflight
pub mod Endpoint
pub mod Source
mod Tests
use pic_x.Base.{
  ℕ, ◌+◌, ◌-◌, ◌*◌, Text, codes, Option, none, some, List, [], ◌∷◌, Bool, true, false, not, ◌&&◌,
  if◌then◌else◌, ◌==◌, leb, retain, lookup, split, split_once_at, is_empty_text, Result, ok, err,
}
use pic_x.Base.Fallible.{◌>>=◌, ◌>>◌, ensure, ok_or}
use pic_x.Realm.Profile.{Bytes, Crates, is_absent}

-- `ExchangeError`, by its code. Descriptions are left out.
pub data ExchangeError : Type 0 where
  invalid_request invalid_grant invalid_target unsupported_token_type temporarily_unavailable
        server_error :
      ExchangeError

abbrev pub status : ExchangeError → ℕ
status temporarily_unavailable = 503
status server_error = 500
status _ = 400

abbrev pub code : ExchangeError → Text
code invalid_request = codes "invalid_request"
code invalid_grant = codes "invalid_grant"
code invalid_target = codes "invalid_target"
code unsupported_token_type = codes "unsupported_token_type"
code temporarily_unavailable = codes "temporarily_unavailable"
code server_error = codes "server_error"

abbrev between : ℕ → ℕ → ℕ → Bool
between low high c = leb low c && leb c high

abbrev pub from_hex : ℕ → Result ExchangeError ℕ
from_hex byte =
    if between 48 57 byte
    then ok (byte - 48)
    else if between 97 102 byte
    then ok (byte - 97 + 10)
    else if between 65 70 byte
    then ok (byte - 65 + 10)
    else err invalid_request

-- A plus sign stands for a space.
abbrev pub plain : ℕ → ℕ
plain byte = if byte == 43 then 32 else byte

abbrev then_byte : ℕ → Result ExchangeError Bytes → Result ExchangeError Bytes
then_byte b rest = do r ← rest; ok (b ∷ r)

-- The loop of `percent_decode`. An escape needs two bytes behind it.
unfoldable pub percent_bytes : Bytes → Result ExchangeError Bytes
percent_bytes [] = ok []
percent_bytes (b ∷ []) = if b == 37 then err invalid_request else ok (plain b ∷ [])
percent_bytes (b ∷ h ∷ []) =
    let rest = percent_bytes (h ∷ []) in
    if b == 37 then err invalid_request else then_byte (plain b) rest
percent_bytes (b ∷ h ∷ l ∷ s) =
    let behind = percent_bytes s in
    let next = percent_bytes (h ∷ l ∷ s) in
    if b == 37
    then (do high ← from_hex h; low ← from_hex l; then_byte (16 * high + low) behind)
    else then_byte (plain b) next

abbrev pub Form : Type 0
Form = List (Text × Text)

abbrev pair_of : Text → Text × Text
pair_of pair = elim (split_once_at 61 pair) [ none ↦ (pair, []) | some p ↦ p ]

module _ (crates : Crates) where
  open crates use {utf8, to_bytes}

  unfoldable pub percent_decode : Text → Result ExchangeError Text
  percent_decode value = do
    bytes ← percent_bytes (to_bytes value)
    ok_or (utf8 bytes) invalid_request

  unfoldable pub add_pairs : Form → List Text → Result ExchangeError Form
  add_pairs form [] = ok form
  add_pairs form (pair ∷ rest) = do
    key ← percent_decode (pair_of pair).0
    value ← percent_decode (pair_of pair).1
    ensure (is_absent (lookup key form)) invalid_request
    add_pairs ((key, value) ∷ form) rest

  unfoldable pub parse_form : Bytes → Result ExchangeError Form
  parse_form body = do
    text ← ok_or (utf8 body) invalid_request
    add_pairs [] (retain (λ pair. not (is_empty_text pair)) (split 38 text))

abbrev pub non_empty : Option Text → Option Text
non_empty none = none
non_empty (some value) = if is_empty_text value then none else some value

unfoldable pub require : Form → Text → Result ExchangeError Text
require form name = ok_or (non_empty (lookup name form)) invalid_request
