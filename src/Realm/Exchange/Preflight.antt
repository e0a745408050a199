-- ===== src/Realm/Exchange/Preflight.antt =====
-- What a candidate token has to be before it is settled (preflight_candidate_key_metadata,
-- crates/pic-x-realm/src/exchange.rs). What the pic crate decodes of the token is a parameter.
use pic_x.Base.{
  ℕ, Text, codes, Option, none, some, Bool, false, not, text_eq, lookup, Result, ok, err,
}
use pic_x.Base.Fallible.{◌>>=◌, ◌>>◌, ensure, ok_or}
use pic_x.Base.Int.{ℤ}
use pic_x.Audit.Trail.{eq_ℤ}
use pic_x.Json.{Value, Map, get}
use pic_x.Realm.Profile.{Bytes, Crates}
use pic_x.Realm.Profile.Validate.{Validator, validate_and_remember}
use pic_x.Realm.Exchange.{ExchangeError, invalid_grant}
use pic_x.Realm.Exchange.Source.{is_exactly}

-- The parts of a decoded candidate that are looked at: the header and claims of the token, the two COSE
-- envelopes, the transition and the predecessor's checkpoint.
pub record Candidate : Type 0 where
  pub alg : Text
  pub jti : Option Text
  pub exp : Option ℤ
  pub por_type : Text
  pub evidence : Bytes
  pub position : ℕ
  pub next_challenge : Bytes
  pub previous_challenge : Bytes
  pub continuity_algorithm : Option Text
  pub continuity_kid : Option Text
  pub transition_algorithm : Option Text
  pub transition_kid : Option Text
  pub lineage_id : Option Text
  pub expires_at : Option ℤ

pub record CandidateMetadata : Type 0 where
  pub lineage_id : Option Text
  pub expires_at : ℤ
  pub proposed_position : ℕ

abbrev pub require_cose_algorithm : Option Text → Text → Result ExchangeError (Unit {0})
require_cose_algorithm actual expected = ensure (is_exactly actual expected) invalid_grant

abbrev pub require_matching_cose_kid : Option Text → Option Text → Result ExchangeError (Unit {0})
require_matching_cose_kid none transition = err invalid_grant
require_matching_cose_kid (some continuity) transition =
    ensure (is_exactly transition continuity) invalid_grant

-- A lineage, where the predecessor names one, is the token's own.
abbrev pub require_lineage : Option Text → Option Text → Result ExchangeError (Unit {0})
require_lineage none jti = ok tt
require_lineage (some expected) jti = ensure (is_exactly jti expected) invalid_grant

abbrev pub is_expiry : Option ℤ → ℤ → Bool
is_expiry none expected = false
is_expiry (some exp) expected = eq_ℤ exp expected

abbrev accepted_as : {A : Type 0} {R : Type 0} → Result R A → Result ExchangeError A
accepted_as (ok a) = ok a
accepted_as (err e) = err invalid_grant

abbrev jwk_in : Option Value → Option Value
jwk_in none = none
jwk_in (some cnf) = get cnf (codes "jwk")

-- `processed.claims.get("cnf").and_then(|cnf| cnf.get("jwk"))`
abbrev pub confirmed_key : Map → Option Value
confirmed_key claims = jwk_in (lookup (codes "cnf") claims)

module _ (crates : Crates) (accepted_type : Text)
    (expected_algorithms : Value → Option (Text × Option Text)) where
  unfoldable pub check_candidate : Validator → Candidate → Result ExchangeError CandidateMetadata
  check_candidate validator c = do
    ensure (text_eq c.por_type accepted_type) invalid_grant
    processed ← accepted_as (validate_and_remember crates validator c.evidence none).0
    jwk ← ok_or (confirmed_key processed.claims) invalid_grant
    expected ← ok_or (expected_algorithms jwk) invalid_grant
    ensure (text_eq c.alg expected.0) invalid_grant
    cose_algorithm ← ok_or expected.1 invalid_grant
    require_cose_algorithm c.continuity_algorithm cose_algorithm
    require_cose_algorithm c.transition_algorithm cose_algorithm
    require_matching_cose_kid c.continuity_kid c.transition_kid
    ensure (not (text_eq c.next_challenge c.previous_challenge)) invalid_grant
    require_lineage c.lineage_id c.jti
    expires_at ← ok_or c.expires_at invalid_grant
    ensure (is_expiry c.exp expires_at) invalid_grant
    let metadata : CandidateMetadata = record {
      lineage_id = c.lineage_id;
      expires_at = expires_at;
      proposed_position = c.position;
    }
    ok metadata
