-- ===== src/Config/Validate/Realms.antt =====
-- The realms of a configuration (`validate_realms`, crates/pic-x-core/src/config.rs).
use pic_x.Base.{
  ℕ, Text, codes, Option, none, some, List, [], ◌∷◌, Bool, true, false, not, ◌&&◌, ◌||◌, ◌==◌, leb,
  has_text, starts_with, is_empty_text, text_length, is_digit, Result, ok,
}
use pic_x.Base.Fallible.{◌>>◌, ensure}
use pic_x.Config.Parse.{SecretProvider, nowhere}
use pic_x.Config.Realm.{RealmConfig}
use pic_x.Config.Validate.{
  ConfigError, realm_twice, realm_unusable, no_secret_provider, no_secret_named, realm_issuer,
  operations_ring, token_ring, require_public_https, check_key_lifecycle,
}
use pic_x.Config.Validate.Attesters.{validate_trusted_attesters}
use pic_x.Config.Validate.Profiles.{validate_exchange_profiles}
use pic_x.Config.Validate.Material.{is_some}

abbrev pub name_char : ℕ → Bool
name_char c = (leb b'a' c && leb c b'z') || is_digit c || (c == b'-')

unfoldable pub all_chars : (ℕ → Bool) → Text → Bool
all_chars test [] = true
all_chars test (c ∷ s) = test c && all_chars test s

unfoldable pub ends_with_hyphen : Text → Bool
ends_with_hyphen [] = false
ends_with_hyphen (c ∷ []) = c == b'-'
ends_with_hyphen (c ∷ d ∷ s) = ends_with_hyphen (d ∷ s)

-- The length is counted in bytes; where all characters are of the allowed ones, each is one.
abbrev pub shaped : Text → Bool
shaped name =
    not (is_empty_text name)
    && leb (text_length name) 40
    && all_chars name_char name
    && not (starts_with (codes "-") name)
    && not (ends_with_hyphen name)

abbrev pub is_nowhere : SecretProvider → Bool
is_nowhere nowhere = true
is_nowhere _ = false

-- `if test { check }`
abbrev pub unless_not : Bool → Result ConfigError (Unit {0}) → Result ConfigError (Unit {0})
unless_not true check = check
unless_not false check = ok tt

abbrev pub check_realm_pseudonyms : RealmConfig → Result ConfigError (Unit {0})
check_realm_pseudonyms r = do
  ensure (not (is_nowhere r.secrets_provider)) (no_secret_provider r.name)
  ensure (is_some r.audit_pseudonym_key_ref) (no_secret_named r.name)

module _ (development : Bool) where
  abbrev pub check_realm_issuer : RealmConfig → Option Text → Result ConfigError (Unit {0})
  check_realm_issuer r none = ok tt
  check_realm_issuer r (some issuer) = require_public_https development (realm_issuer r.name) issuer

  abbrev pub check_operations_ring : RealmConfig → Result ConfigError (Unit {0})
  check_operations_ring r =
      check_key_lifecycle development (operations_ring r.name) r.operations_keys_publish_ahead
        r.operations_keys_rotate_every r.operations_keys_retain

  abbrev pub check_token_ring : RealmConfig → Result ConfigError (Unit {0})
  check_token_ring r =
      check_key_lifecycle development (token_ring r.name) r.token_keys_publish_ahead
        r.token_keys_rotate_every r.token_keys_retain

  -- The checks of one realm behind those of its name.
  unfoldable pub check_realm : RealmConfig → Result ConfigError (Unit {0})
  check_realm r = do
    check_realm_issuer r r.issuer
    unless_not r.operations_keys_enabled (check_operations_ring r)
    unless_not r.token_keys_enabled (check_token_ring r)
    unless_not r.audit_pseudonym_enabled (check_realm_pseudonyms r)
    validate_exchange_profiles r.name r.exchange_profiles
    validate_trusted_attesters development r.name r.trusted_attesters

  unfoldable pub check_realms : List Text → List RealmConfig → Result ConfigError (Unit {0})
  check_realms seen [] = ok tt
  check_realms seen (r ∷ rest) = do
    ensure (not (has_text seen r.name)) (realm_twice r.name)
    ensure (shaped r.name) (realm_unusable r.name)
    check_realm r
    check_realms (r.name ∷ seen) rest

  unfoldable pub validate_realms : List RealmConfig → Result ConfigError (Unit {0})
  validate_realms realms = check_realms [] realms
