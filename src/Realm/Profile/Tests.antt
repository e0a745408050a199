-- ===== src/Realm/Profile/Tests.antt =====
-- A credential that commits to one disclosure. The other crates' place is taken by functions that read
-- every text as itself, and every document as one claim.
use pic_x.Base.{
  ℕ, ◌≡◌, refl, codes, [], ◌∷◌, some, true, ok, ◌↔◌, text_eq, has_text, lookup, retain, map_opt,
  starts_with,
}
use pic_x.Base.Int.{pos}
use pic_x.Json.{
  Value, Map, text, array, object, number, nil, cons, end, field, get_field, items, fields,
}
use pic_x.Realm.Profile.{Crates, committed, always_disclosed, validate_validity_claims}
use pic_x.Realm.Profile.Validate.{disclose, process_disclosures}
use pic_x.Base.{split, split_at, find, any}
use pic_x.Base.Int.{◌-ℤ◌, ◌+ℤ◌}
use pic_x.Realm.Profile.{split_presentation, bound_jwk}
use pic_x.Realm.Profile.Validate.{
  Accepted, Validator, decode_jws_segments, verify_issuer_signature, jws_signature_parts,
  expected_jose_algorithm, verification_key_from_jwk, workload_key_from_cnf,
  validate_evidence_with_key, validate, validate_and_remember,
}
use pic_x.Realm.Profile.Remembering.{IsCoherent, part, validate-IsCoherent}
use pic_x.Realm.Profile.Validity.{IsInForce, validate_validity_claims_iff}
use pic_x.Realm.Profile.Disclosed.{Discloses, process_disclosures-Discloses}

abbrev plain : Crates
plain = record {
  Key = ℕ;
  utf8 = λ b. some b;
  to_bytes = λ t. t;
  b64url_decode = λ t. some t;
  sha256_b64url = λ t. t;
  from_json = λ b. some (
      array
        (cons (text (codes "salt")) (cons (text (codes "team")) (cons (text (codes "ops")) nil))));
  public_key_from_jwk = λ j. some 0;
  rsa_verifier = λ b. 1;
  jose_algorithm = λ j. some (codes "EdDSA");
  verify = λ k d s. true;
}

abbrev payload : Value
payload = object (
    field (codes "exp") (number (pos 100))
      (field (codes "_sd") (array (cons (text (codes "D1")) nil)) end))

validate_validity_claims_iff_example :
    (validate_validity_claims payload (pos 120) ≡ ok tt) ↔ IsInForce payload (pos 120)
validate_validity_claims_iff_example = validate_validity_claims_iff payload (pos 120)

abbrev claims : Map
claims = (codes "team", text (codes "ops")) ∷ (codes "exp", number (pos 100)) ∷ []

disclosed : process_disclosures plain payload (codes "D1" ∷ []) ≡ ok claims
unfolding process_disclosures disclose committed always_disclosed get_field items fields lookup
    has_text text_eq retain map_opt starts_with
disclosed = refl

process_disclosures-Discloses_example :
    Discloses plain (committed payload) (codes "D1" ∷ []) (always_disclosed payload) claims
process_disclosures-Discloses_example =
    process_disclosures-Discloses plain payload (codes "D1" ∷ []) claims disclosed

-- Every segment is one document, which names its issuer, the bound key and its expiry.
abbrev bound_key : Value
bound_key = object (field (codes "kty") (text (codes "OKP")) end)

abbrev document : Value
document = object (
    field (codes "alg") (text (codes "EdDSA")) (
      field (codes "iss") (text (codes "lab")) (
        field (codes "exp") (number (pos 100))
          (field (codes "cnf") (object (field (codes "jwk") bound_key end)) end))))

abbrev accepting : Crates
accepting = record plain { from_json = λ b. some document }

abbrev validator : Validator
validator = record {
  attesters =
      record { id = codes "a1"; issuer = codes "lab"; proof_types = codes "sd-jwt" ∷ [] } ∷ [];
  keys_for = λ id. some (bound_key ∷ []);
  now = pos 50;
}

abbrev entry : Accepted
entry = record {
  evidence = codes "h.p.s~";
  jwk = bound_key;
  processed = record {
    attester_id = codes "a1";
    issuer = codes "lab";
    claims = always_disclosed document;
  };
}

accepted : IsCoherent accepting validator (some entry)
unfolding validate_evidence_with_key split_presentation decode_jws_segments verify_issuer_signature
    jws_signature_parts expected_jose_algorithm verification_key_from_jwk validate_validity_claims
    process_disclosures disclose committed workload_key_from_cnf bound_jwk get_field items lookup
    has_text text_eq retain map_opt split split_at find any ◌-ℤ◌ ◌+ℤ◌
accepted = (0, refl)

validate-IsCoherent_example :
    ((validate accepting validator (codes "h.p.s~") (some entry)).0
      ≡ part accepting (λ r. r.0) (validate_evidence_with_key accepting validator (codes "h.p.s~")))
    × IsCoherent accepting validator (validate accepting validator (codes "h.p.s~") (some entry)).1
    × ((validate_and_remember accepting validator (codes "h.p.s~") (some entry)).0
        ≡ part accepting
            (λ r. r.1)
            (validate_evidence_with_key accepting validator (codes "h.p.s~")))
    × IsCoherent accepting validator
        (validate_and_remember accepting validator (codes "h.p.s~") (some entry)).1
validate-IsCoherent_example =
    validate-IsCoherent accepting validator (codes "h.p.s~") (some entry) accepted
