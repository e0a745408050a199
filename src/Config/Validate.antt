-- ===== src/Config/Validate.antt =====
-- The checks of a configuration before a deployment starts (`validate`, crates/pic-x-core/src/config.rs).
-- Here what they say is wrong, and the two rules that the server and its realms share.
pub mod Attesters
pub mod Profiles
pub mod Material
pub mod Realms
pub mod Whole
pub mod Overlap
pub mod Unique
pub mod Guarded
pub mod Relied
mod Tests
use pic_x.Base.{
  Text, codes, Bool, true, false, not, ◌&&◌, ◌||◌, ◌==◌, ltb, starts_with, Result, ok, err,
}
use pic_x.Base.Fallible.{◌>>=◌, ◌>>◌, ensure}
use pic_x.Keys.{Duration}
use pic_x.Limits.{from_secs}

-- Whose URL is not https.
pub data UrlOwner : Type 0 where
  server_issuer : UrlOwner
  realm_issuer : Text → UrlOwner
  attester_issuer attester_jwks_uri : Text → Text → UrlOwner

-- Whose lifecycle does not overlap.
pub data RingOwner : Type 0 where
  the_server : RingOwner
  operations_ring token_ring : Text → RingOwner

pub data LifecycleError : Type 0 where
  never_gets_a_turn leaves_signatures_unpublished outruns_caches : LifecycleError

pub data AttesterError : Type 0 where
  no_attester_id attester_twice no_issuer no_jwks_uri no_proof_types no_sd_jwt_proof no_formats
        no_sd_jwt_format :
      AttesterError

pub data ProfileError : Type 0 where
  no_profile_id profile_twice unsupported_token_type unsupported_format no_source_issuer
        no_source_audience no_algorithms expiration_not_required no_token_type not_exactly_one
        no_scopes scopes_not_a_set unsupported_source no_rules rule_without_name rule_twice
        priority_twice rule_without_pattern emits_nothing unsupported_on_unmatched :
      ProfileError

pub data TlsError : Type 0 where
  list_without_authority not_a_file : TlsError

-- The surface of a listener.
pub data Surface : Type 0 where
  public_surface admin_surface telemetry_surface : Surface

pub data ConfigError : Type 0 where
  allow_without_authority no_public_address prefix_without_slash not_development admin_reachable
        admin_names_nobody :
      ConfigError
  empty_address : Surface → ConfigError
  not_https : UrlOwner → Text → ConfigError
  bad_material : Surface → TlsError → ConfigError
  lifecycle_not_stated : Text → ConfigError
  bad_lifecycle : RingOwner → LifecycleError → ConfigError
  realm_twice realm_unusable no_secret_provider no_secret_named : Text → ConfigError
  bad_attester : Text → Text → AttesterError → ConfigError
  bad_profile : Text → Text → ProfileError → ConfigError
  pseudonyms_without_provider pseudonyms_without_key no_key_version : ConfigError

-- `Duration` is ordered by its seconds, then its nanoseconds.
abbrev pub lt_duration : Duration → Duration → Bool
lt_duration a b = ltb a.secs b.secs || ((a.secs == b.secs) && ltb a.nanos b.nanos)

abbrev pub key_set_max_age : Duration
key_set_max_age = from_secs 300

unfoldable pub require_public_https : Bool → UrlOwner → Text → Result ConfigError (Unit {0})
require_public_https development owner url =
    ensure (development || starts_with (codes "https://") url) (not_https owner url)

unfoldable pub check_key_lifecycle :
    Bool → RingOwner → Duration → Duration → Duration → Result ConfigError (Unit {0})
check_key_lifecycle development who publish_ahead rotate_every retain = do
  ensure (lt_duration publish_ahead rotate_every) (bad_lifecycle who never_gets_a_turn)
  ensure (not (lt_duration retain rotate_every)) (bad_lifecycle who leaves_signatures_unpublished)
  ensure (not (lt_duration publish_ahead key_set_max_age && not development))
      (bad_lifecycle who outruns_caches)
