-- ===== src/Realm/Conformance.antt =====
-- crates/pic-x-realm/src/conformance.rs: disclosed claims against an execution contract.
-- The contract's entries come from the `pic` crate, and so does the policy that asks for the check.
pub mod Decides
use pic_x.Base.{
  Text, codes, List, [], ◌∷◌, ◌++◌, Option, none, some, Bool, true, false, text_eq, lookup, any,
  Result, ok, err, if◌then◌else◌, ◌==◌,
}
use pic_x.Json.{Value, null, boolean, number, other_number, text, array, object, items, Map, as_str}

-- `TupleValue`: a required text, or the membership that the key itself spells.
pub data TupleValue : Type 0 where
  required_text : Text → TupleValue
  membership : TupleValue

-- `execution_contract.values()`, in its order.
abbrev pub Contract : Type 0
Contract = List (Text × TupleValue)

pub data Mismatch : Type 0 where
  missing : Text → Text → Mismatch
  contradicts : Text → Text → Text → Mismatch
  says_nothing : Mismatch

-- `item.as_str() == Some(wanted)`
abbrev pub is_text : Text → Value → Bool
is_text wanted (text s) = text_eq s wanted
is_text wanted _ = false

unfoldable pub matches_text : Value → Text → Bool
matches_text (text s) wanted = text_eq s wanted
matches_text (array vs) wanted = any (is_text wanted) (items vs)
matches_text _ wanted = false

unfoldable pub contains_member : Value → Text → Bool
contains_member (text s) member = text_eq s member
contains_member (array vs) member = any (is_text member) (items vs)
contains_member _ member = false

-- `key.split_once(':')`
unfoldable pub split_once : Text → Option (Text × Text)
split_once [] = none
split_once (c ∷ s) =
    if c == b':'
    then some ([], s)
    else elim (split_once s) [ none ↦ none | some p ↦ some (c ∷ p.0, p.1) ]

-- How `serde_json` prints a value is a parameter.
module _ (to_string : Value → Text) where
  abbrev pub render : Value → Text
  render (text s) = s
  render v = to_string v

  abbrev check_text : Text → Text → Option Value → Option Mismatch
  check_text key wanted none = some (missing key wanted)
  check_text key wanted (some disclosed) =
      if matches_text disclosed wanted
      then none
      else some (contradicts key wanted (render disclosed))

  abbrev check_member : Text → Text → Option Value → Option Mismatch
  check_member name member none = some (missing name member)
  check_member name member (some disclosed) =
      if contains_member disclosed member
      then none
      else some (contradicts name member (render disclosed))

  abbrev check_split : Map → Text → Option (Text × Text) → Option Mismatch
  check_split claims key none = some (missing key (codes "membership"))
  check_split claims key (some (name, member)) = check_member name member (lookup name claims)

  -- What one entry of the contract has against the claims, if anything.
  unfoldable pub check_entry : Map → Text → TupleValue → Option Mismatch
  check_entry claims key (required_text wanted) = check_text key wanted (lookup key claims)
  check_entry claims key membership = check_split claims key (split_once key)

  -- `ContractConformance::check`: the first entry that has something ends it.
  unfoldable pub check : Map → Contract → Result Mismatch (Unit {0})
  check claims [] = ok tt
  check claims ((key, value) ∷ rest) = elim (check_entry claims key value) [
    | some mismatch ↦ err mismatch
    | none ↦ check claims rest
  ]

  -- `ContractConformance::reason`, from what the validator accepted.
  unfoldable pub reason : Option Map → Contract → Result Mismatch (Unit {0})
  reason none contract = err says_nothing
  reason (some claims) contract = check claims contract

  -- `SettlementPolicy::conformance`
  unfoldable pub conformance : Option Map → Contract → Bool
  conformance accepted contract = elim (reason accepted contract) [ ok _ ↦ true | err _ ↦ false ]
