-- ===== src/Realm/Profile.antt =====
-- crates/pic-x-realm/src/por.rs: the SD-JWT presentation that carries executor-profile evidence.
-- What the file calls of other crates is a parameter: base64url, SHA-256, JSON, UTF-8, and the keys
-- and signatures of the `pic` and `ring` crates.
pub mod Disclosed
mod Tests
pub mod Remembering
pub mod Validate
pub mod Validity
use pic_x.Base.{
  ℕ, ◌+◌, ◌*◌, ◌≤◌, Text, codes, List, [], ◌∷◌, ◌++◌, Option, none, some, Bool, true, false, not,
  ◌&&◌, ◌||◌, text_eq, has_text, lookup, any, find, retain, map_opt, starts_with, split, length,
  Result, ok, err, if◌then◌else◌, ltb, leb, ◌==◌, map,
}
use pic_x.Base.Int.{ℤ, pos, ◌+ℤ◌, ◌-ℤ◌, ltb_ℤ}
use pic_x.Base.Fallible.{◌>>=◌, ◌>>◌, ensure, ok_or}
use pic_x.Json.{Value, Map, as_str, as_i64, as_array, as_object, get}

abbrev pub Bytes : Type 0
Bytes = List ℕ

-- Why a presentation is rejected: `RejectReason::PorRejected`, by its message.
pub data Reject : Type 0 where
  too_large not_utf8 no_terminator no_issuer_jwt too_many_disclosures not_compact : Reject
  header_not_base64url header_not_json payload_not_base64url payload_not_json : Reject
  no_issuer untrusted_issuer wrong_proof_type no_algorithm algorithm_none signature_not_base64url :
      Reject
  keys_unavailable no_keys no_matching_kid signature_invalid unsupported_sd_alg : Reject
  expired no_expiry not_yet_valid issued_in_future : Reject
  not_committed digest_twice disclosure_not_base64url disclosure_not_array disclosure_wrong_shape :
      Reject
  claim_not_string reserved_claim overwrites_claim no_bound_key bound_key_unusable : Reject

-- What the validator reads of `TrustedAttesterConfig`.
pub record Attester : Type 0 where
  pub id : Text
  pub issuer : Text
  pub proof_types : List Text

-- The functions of other crates. `Key` is the type of verification keys.
pub record Crates : Type 1 where
  pub Key : Type 0
  pub utf8 : Bytes → Option Text
  pub to_bytes : Text → Bytes
  pub b64url_decode : Text → Option Bytes
  pub sha256_b64url : Text → Text
  pub from_json : Bytes → Option Value
  pub public_key_from_jwk : Value → Option Key
  pub rsa_verifier : Bytes → Key
  pub jose_algorithm : Value → Option Text
  pub verify : Key → Bytes → Bytes → Bool

abbrev pub max_evidence_bytes : ℕ
max_evidence_bytes = 64 * 1024

abbrev pub max_disclosures : ℕ
max_disclosures = 128

abbrev pub clock_skew_seconds : ℤ
clock_skew_seconds = pos 60

abbrev pub is_nonempty : Text → Bool
is_nonempty [] = false
is_nonempty (_ ∷ _) = true

abbrev pub ends_with_tilde : Text → Bool
ends_with_tilde [] = false
ends_with_tilde (c ∷ []) = c == b'~'
ends_with_tilde (c ∷ d ∷ s) = ends_with_tilde (d ∷ s)

abbrev first_segment : List Text → Option (Text × List Text)
first_segment [] = none
first_segment (s ∷ rest) = if is_nonempty s then some (s, rest) else none

-- The issuer-signed JWT and the disclosures of `<jwt>~<disclosure>~…~`.
unfoldable pub split_presentation : Text → Result Reject (Text × List Text)
split_presentation presentation = do
  ensure (ends_with_tilde presentation) no_terminator
  p ← ok_or (first_segment (split b'~' presentation)) no_issuer_jwt
  let disclosures = retain is_nonempty p.1
  ensure (leb (length disclosures) max_disclosures) too_many_disclosures
  ok (p.0, disclosures)

abbrev pub three_parts : List Text → Option (Text × Text × Text)
three_parts (a ∷ b ∷ c ∷ []) = some (a, b, c)
three_parts _ = none

-- `payload.get("cnf").and_then(|cnf| cnf.get("jwk"))`
unfoldable pub bound_jwk : Value → Option Value
bound_jwk payload = elim (get payload (codes "cnf")) [
  | none ↦ none
  | some cnf ↦ get cnf (codes "jwk")
]

abbrev pub get_str : Value → Text → Option Text
get_str v k = elim (get v k) [ none ↦ none | some w ↦ as_str w ]

abbrev pub get_i64 : Value → Text → Option ℤ
get_i64 v k = elim (get v k) [ none ↦ none | some w ↦ as_i64 w ]

-- `now + CLOCK_SKEW_SECONDS < t` of a claim that is there and numeric.
abbrev pub is_future : ℤ → Option ℤ → Bool
is_future now none = false
is_future now (some t) = ltb_ℤ (now +ℤ clock_skew_seconds) t

unfoldable pub validate_validity_claims : Value → ℤ → Result Reject (Unit {0})
validate_validity_claims payload now = do
  expiry ← ok_or (get_i64 payload (codes "exp")) no_expiry
  ensure (ltb_ℤ (now -ℤ clock_skew_seconds) expiry) expired
  ensure (not (is_future now (get_i64 payload (codes "nbf")))) not_yet_valid
  ensure (not (is_future now (get_i64 payload (codes "iat")))) issued_in_future

-- The digests that the credential commits to: the texts in `_sd`.
unfoldable pub committed : Value → List Text
committed payload = elim (get payload (codes "_sd")) [
  | none ↦ []
  | some v ↦ elim (as_array v) [ none ↦ [] | some vs ↦ map_opt as_str vs ]
]

-- Every claim but the SD-JWT machinery is always disclosed.
unfoldable pub always_disclosed : Value → Map
always_disclosed payload = elim (as_object payload) [
  | none ↦ []
  | some m ↦ retain (λ p. not (text_eq p.0 (codes "_sd")) && not (text_eq p.0 (codes "_sd_alg"))) m
]

abbrev pub is_reserved : Text → Bool
is_reserved name = starts_with (codes "_sd") name || text_eq name (codes "...")

abbrev pub object_property : List Value → Option (Value × Value)
object_property (_ ∷ name ∷ value ∷ []) = some (name, value)
object_property _ = none

abbrev pub is_absent : {A : Type 0} → Option A → Bool
is_absent none = true
is_absent (some _) = false
