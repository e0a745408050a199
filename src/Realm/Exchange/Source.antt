-- ===== src/Realm/Exchange/Source.antt =====
-- The source access token of an exchange: which profile takes it, and what it has to show
-- (crates/pic-x-realm/src/exchange.rs, and the profiles of crates/pic-x-core/src/realm.rs).
pub mod Accepted
pub mod Shown
use pic_x.Base.{
  ℕ, Text, codes, Option, none, some, List, [], ◌∷◌, ◌++◌, Bool, true, false, not, ◌&&◌, ◌||◌,
  if◌then◌else◌, text_eq, has_text, find, retain, any, split, ltb, Result, ok, err,
}
use pic_x.Base.Fallible.{◌>>=◌, ◌>>◌, ensure, ok_or}
use pic_x.Base.Int.{ℤ, ltb_ℤ}
use pic_x.Json.{Value, text, array, items, as_str, as_i64, get}
use pic_x.Realm.Profile.{Bytes, Crates, three_parts, get_str}
use pic_x.Realm.Profile.Validate.{verification_key_from_jwk, is_candidate}
use pic_x.Realm.Exchange.{ExchangeError, invalid_grant, temporarily_unavailable, server_error}

pub record ExchangeTokenValidation : Type 0 where
  pub allowed_algorithms : List Text
  pub require_expiration : Bool
  pub require_token_type : Option Text

pub record ExchangeProfileSource : Type 0 where
  pub token_type : Text
  pub format : Text
  pub issuer : Text
  pub discovery_url : Option Text
  pub audience : Text
  pub validation : ExchangeTokenValidation

pub record ClaimMapping : Type 0 where
  pub from : Option Text
  pub value : Option Text
  pub value_type : Option Text
  pub encoding : Option Text

pub record PrivilegeEmit : Type 0 where
  pub scope : Text
  pub operation : Text
  pub resource_type : Text
  pub resource_id : Text

pub record PrivilegeRule : Type 0 where
  pub name : Text
  pub priority : ℤ
  pub pattern : Text
  pub emit : PrivilegeEmit

pub record ExchangeProfileConfig : Type 0 where
  pub id : Text
  pub source : ExchangeProfileSource
  pub identity_context : List (Text × ClaimMapping)
  pub scopes : ClaimMapping
  pub privileges_source : Text
  pub rules : List PrivilegeRule
  pub on_unmatched_scope : Text

pub record DecodedJwt : Type 0 where
  pub header : Value
  pub payload : Value
  pub signing_input : Text
  pub signature : Bytes

unfoldable pub claim_along : Value → List Text → Option Value
claim_along v [] = some v
claim_along v (segment ∷ rest) = elim (get v segment) [ none ↦ none | some w ↦ claim_along w rest ]

abbrev pub claim_at_path : Value → Text → Option Value
claim_at_path v path = claim_along v (split b'.' path)

abbrev text_of : Option Value → Option Text
text_of none = none
text_of (some v) = as_str v

abbrev integer_of : Option Value → Option ℤ
integer_of none = none
integer_of (some v) = as_i64 v

abbrev pub header_string : DecodedJwt → Text → Option Text
header_string jwt name = get_str jwt.header name

abbrev pub claim_string : DecodedJwt → Text → Option Text
claim_string jwt name = text_of (claim_at_path jwt.payload name)

abbrev pub claim_i64 : DecodedJwt → Text → Option ℤ
claim_i64 jwt name = integer_of (claim_at_path jwt.payload name)

-- A text that is there and is this one.
abbrev pub is_exactly : Option Text → Text → Bool
is_exactly none expected = false
is_exactly (some t) expected = text_eq t expected

abbrev pub is_audience : Option Value → Text → Bool
is_audience (some (text t)) expected = text_eq t expected
is_audience (some (array vs)) expected = any (λ v. is_exactly (as_str v) expected) (items vs)
is_audience _ expected = false

abbrev pub audience_contains : DecodedJwt → Text → Bool
audience_contains jwt expected = is_audience (claim_at_path jwt.payload (codes "aud")) expected

abbrev pub takes : DecodedJwt → ExchangeProfileConfig → Bool
takes jwt profile =
    text_eq profile.source.token_type (codes "oauth-access-token")
    && is_exactly (claim_string jwt (codes "iss")) profile.source.issuer
    && audience_contains jwt profile.source.audience

unfoldable pub select_initial_profile :
    List ExchangeProfileConfig → DecodedJwt → Result ExchangeError ExchangeProfileConfig
select_initial_profile profiles jwt = ok_or (find (takes jwt) profiles) invalid_grant

-- A required `typ`, if one is required.
abbrev pub check_token_type : Option Text → DecodedJwt → Result ExchangeError (Unit {0})
check_token_type none jwt = ok tt
check_token_type (some required) jwt = do
  typ ← ok_or (header_string jwt (codes "typ")) invalid_grant
  ensure (text_eq typ required) invalid_grant

-- The clock is read only where an expiration is required; it fails before the epoch.
abbrev pub check_expiration : Bool → Option ℤ → DecodedJwt → Result ExchangeError (Unit {0})
check_expiration false clock jwt = ok tt
check_expiration true clock jwt = do
  exp ← ok_or (claim_i64 jwt (codes "exp")) invalid_grant
  now ← ok_or clock server_error
  ensure (ltb_ℤ now exp) invalid_grant

-- A key that names another algorithm is passed over.
abbrev pub serves : Text → Value → Bool
serves algorithm jwk = elim (get_str jwk (codes "alg")) [
  | none ↦ true
  | some published ↦ text_eq published algorithm
]

abbrev pub is_empty : {A : Type 0} → List A → Bool
is_empty [] = true
is_empty (_ ∷ _) = false

module _ (crates : Crates) where
  open crates use {to_bytes, b64url_decode, from_json, verify}

  abbrev decode_json_segment : Text → Result ExchangeError Value
  decode_json_segment segment = do
    bytes ← ok_or (b64url_decode segment) invalid_grant
    ok_or (from_json bytes) invalid_grant

  unfoldable pub decode : Text → Result ExchangeError DecodedJwt
  decode token = do
    p ← ok_or (three_parts (split b'.' token)) invalid_grant
    header ← decode_json_segment p.0
    payload ← decode_json_segment p.1
    signature ← ok_or (b64url_decode p.2) invalid_grant
    let jwt : DecodedJwt = record {
      header = header;
      payload = payload;
      signing_input = p.0 ++ b'.' ∷ p.1;
      signature = signature;
    }
    ok jwt

  abbrev pub signed_by : DecodedJwt → Text → Value → Bool
  signed_by jwt algorithm jwk =
      serves algorithm jwk && (elim (verification_key_from_jwk crates jwk) [
        | none ↦ false
        | some key ↦ verify key (to_bytes jwt.signing_input) jwt.signature
      ])

  -- `keys_for` is what the cache of the providers' keys answers.
  unfoldable pub verify_source_signature :
      (Text → Option (List Value))
      → DecodedJwt
      → ExchangeProfileConfig
      → Result ExchangeError (Unit {0})
  verify_source_signature keys_for jwt profile = do
    published ← ok_or (keys_for profile.id) temporarily_unavailable
    algorithm ← ok_or (header_string jwt (codes "alg")) invalid_grant
    let candidates = retain (is_candidate crates (header_string jwt (codes "kid"))) published
    ensure (not (is_empty candidates)) invalid_grant
    ensure (any (signed_by jwt algorithm) candidates) invalid_grant

  unfoldable pub validate_source_jwt :
      (Text → Option (List Value))
      → Option ℤ
      → DecodedJwt
      → ExchangeProfileConfig
      → Result ExchangeError (Unit {0})
  validate_source_jwt keys_for clock jwt profile = do
    alg ← ok_or (header_string jwt (codes "alg")) invalid_grant
    ensure (has_text profile.source.validation.allowed_algorithms alg) invalid_grant
    check_token_type profile.source.validation.require_token_type jwt
    ensure (is_exactly (claim_string jwt (codes "iss")) profile.source.issuer) invalid_grant
    ensure (audience_contains jwt profile.source.audience) invalid_grant
    check_expiration profile.source.validation.require_expiration clock jwt
    verify_source_signature keys_for jwt profile
