-- ===== src/Realm/Tests.antt =====
-- The theorems about the realm's checks, at concrete claims and contracts.
use pic_x.Base.{◌≡◌, refl, Text, codes, [], ◌∷◌, ◌++◌, some, true, ok, err, ◌↔◌, text_eq, lookup}
use pic_x.Json.{Value, text, array, cons, nil, Map}
use pic_x.Realm.Conformance.{
  Contract, TupleValue, required_text, membership, missing, check, check_entry, conformance,
  matches_text,
}
use pic_x.Realm.Conformance.Decides.{Satisfies, Meets, check_iff, check-err, conformance_iff}

abbrev printed : Value → Text
printed v = codes "?"

abbrev claims : Map
claims =
    (codes "env", text (codes "prod")) ∷ (codes "group", array (cons (text (codes "ops")) nil)) ∷ []

abbrev contract : Contract
contract = (codes "env", required_text (codes "prod")) ∷ (codes "group:ops", membership) ∷ []

check_iff_example : (check printed claims contract ≡ ok tt) ↔ Meets printed claims contract
check_iff_example = check_iff printed claims contract

-- A contract that asks for a group the claims do not name after an entry that they meet.
abbrev stricter : Contract
stricter =
    (codes "env", required_text (codes "prod")) ∷ (codes "role", required_text (codes "admin")) ∷ []

refused : check printed claims stricter ≡ err (missing (codes "role") (codes "admin"))
unfolding check check_entry lookup matches_text text_eq
refused = refl

check-err_example :
    (before after : Contract) × (key : Text) × (value : TupleValue) × (stricter
      ≡ before ++ (key, value) ∷ after)
    × Meets printed claims before
    × (¬ Satisfies claims key value)
    × (check_entry printed claims key value ≡ some (missing (codes "role") (codes "admin")))
check-err_example =
    check-err printed claims stricter (missing (codes "role") (codes "admin")) refused

conformance_iff_example :
    (conformance printed (some claims) contract ≡ true)
    ↔ ((disclosed : Map) × (some claims ≡ some disclosed) × Meets printed disclosed contract)
conformance_iff_example = conformance_iff printed (some claims) contract
