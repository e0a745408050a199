-- ===== src/Realm/Profile/Validate.antt =====
-- The checks of crates/pic-x-realm/src/por.rs that call other crates, and the whole validation.
use pic_x.Base.{
  Text, codes, List, [], ◌∷◌, ◌++◌, Option, none, some, Bool, true, false, not, ◌&&◌, text_eq,
  has_text, lookup, any, find, retain, split, length, Result, ok, err, if◌then◌else◌, leb, ltb,
  Exec,
}
use pic_x.Base.Int.{ℤ}
use pic_x.Base.Fallible.{◌>>=◌, ◌>>◌, ensure, ok_or}
use pic_x.Realm.Der.{der_rsa_public_key}
use pic_x.Json.{Value, Map, as_str, as_array, get}
use pic_x.Realm.Profile.{
  Bytes, Reject, too_large, not_utf8, not_compact, header_not_base64url, header_not_json,
  payload_not_base64url, payload_not_json, no_issuer, untrusted_issuer, wrong_proof_type,
  no_algorithm, algorithm_none, signature_not_base64url, keys_unavailable, no_keys, no_matching_kid,
  signature_invalid, unsupported_sd_alg, not_committed, digest_twice, disclosure_not_base64url,
  disclosure_not_array, disclosure_wrong_shape, claim_not_string, reserved_claim, overwrites_claim,
  no_bound_key, bound_key_unusable, Attester, Crates, max_evidence_bytes, split_presentation,
  three_parts, bound_jwk, get_str, validate_validity_claims, committed, always_disclosed,
  is_reserved, object_property, is_absent,
}

-- What a validated presentation disclosed.
pub record Processed : Type 0 where
  pub attester_id : Text
  pub issuer : Text
  pub claims : Map

-- A presentation that was accepted, with the evidence it came from.
pub record Accepted : Type 0 where
  pub evidence : Bytes
  pub jwk : Value
  pub processed : Processed

-- The fields of `SdJwtProfileValidator` that do not change: the attesters, their published keys
-- (nothing where the key source fails), and the time.
pub record Validator : Type 0 where
  pub attesters : List Attester
  pub keys_for : Text → Option (List Value)
  pub now : ℤ

module _ (crates : Crates) where
  open crates use {
    Key, utf8, to_bytes, b64url_decode, sha256_b64url, from_json, public_key_from_jwk, rsa_verifier,
    jose_algorithm, verify,
  }

  abbrev decode_json : Reject → Reject → Text → Result Reject Value
  decode_json bad_base64 bad_json segment = do
    bytes ← ok_or (b64url_decode segment) bad_base64
    ok_or (from_json bytes) bad_json

  unfoldable pub decode_jws_segments : Text → Result Reject (Value × Value)
  decode_jws_segments jws = do
    p ← ok_or (three_parts (split b'.' jws)) not_compact
    header ← decode_json header_not_base64url header_not_json p.0
    payload ← decode_json payload_not_base64url payload_not_json p.1
    ok (header, payload)

  unfoldable pub jws_signature_parts : Text → Result Reject (Bytes × Bytes)
  jws_signature_parts jws = do
    p ← ok_or (three_parts (split b'.' jws)) not_compact
    signature ← ok_or (b64url_decode p.2) signature_not_base64url
    ok (to_bytes (p.0 ++ b'.' ∷ p.1), signature)

  abbrev pub is_rsa : Value → Bool
  is_rsa jwk = elim (get_str jwk (codes "kty")) [
    | none ↦ false
    | some kty ↦ text_eq kty (codes "RSA")
  ]

  -- The JOSE algorithm that a key of this shape produces.
  unfoldable pub expected_jose_algorithm : Value → Option Text
  expected_jose_algorithm jwk = if is_rsa jwk then some (codes "RS256") else jose_algorithm jwk

  abbrev pub algorithm_matches : Text → Value → Bool
  algorithm_matches algorithm jwk = elim (expected_jose_algorithm jwk) [
    | none ↦ false
    | some expected ↦ text_eq expected algorithm
  ]

  -- Keys below 2048 bits are refused.
  abbrev rsa_key : Bytes → Bytes → Option Key
  rsa_key modulus exponent =
      if ltb (length modulus) 256
      then none
      else some (rsa_verifier (der_rsa_public_key modulus exponent))

  abbrev decoded_part : Value → Text → Option Bytes
  decoded_part jwk name = elim (get_str jwk name) [ none ↦ none | some s ↦ b64url_decode s ]

  unfoldable pub rsa_key_from_jwk : Value → Option Key
  rsa_key_from_jwk jwk = elim (decoded_part jwk (codes "n")) [
    | none ↦ none
    | some modulus ↦ elim (decoded_part jwk (codes "e")) [
      | none ↦ none
      | some exponent ↦ rsa_key modulus exponent
    ]
  ]

  -- A key with a private component is none to verify with.
  unfoldable pub verification_key_from_jwk : Value → Option Key
  verification_key_from_jwk jwk =
      if not (is_absent (get jwk (codes "d")))
      then none
      else if is_rsa jwk
      then rsa_key_from_jwk jwk
      else public_key_from_jwk jwk

  -- One published key, against the algorithm that the header names.
  abbrev pub verifies : Text → Bytes → Bytes → Value → Bool
  verifies algorithm input signature jwk =
      algorithm_matches algorithm jwk && (elim (verification_key_from_jwk jwk) [
        | none ↦ false
        | some key ↦ verify key input signature
      ])

  -- A `kid` narrows the candidates; without one every published key is tried.
  abbrev pub is_candidate : Option Text → Value → Bool
  is_candidate none jwk = true
  is_candidate (some wanted) jwk = elim (get_str jwk (codes "kid")) [
    | none ↦ false
    | some kid ↦ text_eq kid wanted
  ]

  abbrev is_empty : {A : Type 0} → List A → Bool
  is_empty [] = true
  is_empty (_ ∷ _) = false

  unfoldable pub verify_issuer_signature :
      Text → Value → Attester → (Text → Option (List Value)) → Result Reject (Unit {0})
  verify_issuer_signature issuer_signed header attester keys_for = do
    algorithm ← ok_or (get_str header (codes "alg")) no_algorithm
    ensure (not (text_eq algorithm (codes "none"))) algorithm_none
    p ← jws_signature_parts issuer_signed
    candidates ← ok_or (keys_for attester.id) keys_unavailable
    ensure (not (is_empty candidates)) no_keys
    let selected = retain (is_candidate (get_str header (codes "kid"))) candidates
    ensure (not (is_empty selected)) no_matching_kid
    ensure (any (verifies algorithm p.0 p.1) selected) signature_invalid

  abbrev pub disclosure_parts : Text → Result Reject (Text × Value)
  disclosure_parts disclosure = do
    decoded ← ok_or (b64url_decode disclosure) disclosure_not_base64url
    parsed ← ok_or (from_json decoded) disclosure_not_array
    parts ← ok_or (as_array parsed) disclosure_not_array
    p ← ok_or (object_property parts) disclosure_wrong_shape
    name ← ok_or (as_str p.0) claim_not_string
    ok (name, p.1)

  -- The loop of `process_disclosures`, over the digests that are used and the claims so far.
  unfoldable pub disclose : List Text → List Text → Map → List Text → Result Reject Map
  disclose digests used claims [] = ok claims
  disclose digests used claims (disclosure ∷ rest) = do
    let computed = sha256_b64url disclosure
    ensure (has_text digests computed) not_committed
    ensure (not (has_text used computed)) digest_twice
    p ← disclosure_parts disclosure
    ensure (not (is_reserved p.0)) reserved_claim
    ensure (is_absent (lookup p.0 claims)) overwrites_claim
    disclose digests (computed ∷ used) ((p.0, p.1) ∷ claims) rest

  unfoldable pub process_disclosures : Value → List Text → Result Reject Map
  process_disclosures payload disclosures =
      disclose (committed payload) [] (always_disclosed payload) disclosures

  unfoldable pub workload_key_from_cnf : Value → Result Reject Key
  workload_key_from_cnf payload = do
    jwk ← ok_or (bound_jwk payload) no_bound_key
    ok_or (public_key_from_jwk jwk) bound_key_unusable

  unfoldable pub rebuild_workload_key : Value → Result Reject Key
  rebuild_workload_key jwk = ok_or (public_key_from_jwk jwk) bound_key_unusable

  abbrev pub sd_alg_supported : Option Text → Bool
  sd_alg_supported none = true
  sd_alg_supported (some named) = text_eq named (codes "sha-256")

  unfoldable pub validate_evidence_with_key :
      Validator → Bytes → Result Reject (Key × Processed × Value)
  validate_evidence_with_key v evidence = do
    ensure (leb (length evidence) max_evidence_bytes) too_large
    presentation ← ok_or (utf8 evidence) not_utf8
    p ← split_presentation presentation
    q ← decode_jws_segments p.0
    let payload = q.1
    issuer ← ok_or (get_str payload (codes "iss")) no_issuer
    attester ← ok_or (find (λ a. text_eq a.issuer issuer) v.attesters) untrusted_issuer
    ensure (has_text attester.proof_types (codes "sd-jwt")) wrong_proof_type
    verify_issuer_signature p.0 q.0 attester v.keys_for
    ensure (sd_alg_supported (get_str payload (codes "_sd_alg"))) unsupported_sd_alg
    validate_validity_claims payload v.now
    claims ← process_disclosures payload p.1
    jwk ← ok_or (bound_jwk payload) no_bound_key
    key ← workload_key_from_cnf payload
    ok (key, record { attester_id = attester.id; issuer = issuer; claims = claims }, jwk)

  -- `evidence == evidence`
  abbrev pub cached_for : Bytes → Option Accepted → Option Accepted
  cached_for evidence none = none
  cached_for evidence (some entry) = if text_eq entry.evidence evidence then some entry else none

  abbrev pub remember :
      {A : Type 0}
      → (Key × Processed × Value → A)
      → Bytes
      → Option Accepted
      → Result Reject (Key × Processed × Value)
      → Result Reject A × Option Accepted
  remember answer evidence accepted (err e) = (err e, accepted)
  remember answer evidence accepted (ok r) =
      (ok (answer r), some (record { evidence = evidence; jwk = r.2; processed = r.1 }))

  -- `PorValidator::validate`, over the cell that holds what was accepted.
  unfoldable pub validate : Validator → Bytes → Exec Reject (Option Accepted) Key
  validate v evidence accepted = elim (cached_for evidence accepted) [
    | some entry ↦ (rebuild_workload_key entry.jwk, accepted)
    | none ↦ remember (λ r. r.0) evidence accepted (validate_evidence_with_key v evidence)
  ]

  unfoldable pub validate_and_remember : Validator → Bytes → Exec Reject (Option Accepted) Processed
  validate_and_remember v evidence accepted = elim (cached_for evidence accepted) [
    | some entry ↦ (ok entry.processed, accepted)
    | none ↦ remember (λ r. r.1) evidence accepted (validate_evidence_with_key v evidence)
  ]
