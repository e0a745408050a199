-- ===== src/Config/Resolve.antt =====
-- A realm resolved against the configuration it inherits from (`resolve_realm`,
-- crates/pic-x-core/src/config.rs). The upper case of a text is a parameter.
use pic_x.Base.{
  Text, codes, Option, none, some, List, ◌++◌, Bool, true, false, if◌then◌else◌, ◌==◌, text_eq, map,
  Result, ok, err,
}
use pic_x.Base.Fallible.{◌>>=◌}
use pic_x.Keys.{Duration}
use pic_x.Limits.{from_secs}
use pic_x.Realm.Exchange.Expiry.{later}
use pic_x.Config.Parse.{
  ParseError, parse_bool, parse_duration, parse_duration_allow_zero,
  parse_token_initial_expiry_policy, parse_provider, parse_destination, collect,
}
use pic_x.Config.Realm.{RealmInput, RealmConfig}
use pic_x.Config.Layer.{without_slashes}
use pic_x.Config.State.{Config}

-- A field of a realm that cannot be read or was not stated, or an algorithm that no key can sign with.
pub data RealmError : Type 0 where
  in_field : Text → Text → ParseError → RealmError
  not_stated : Text → Text → RealmError
  cannot_produce : Text → Text → RealmError

abbrev pub in_realm : {A : Type 0} → Text → Text → Result ParseError A → Result RealmError A
in_realm name field (ok a) = ok a
in_realm name field (err e) = err (in_field name field e)

-- A field that is read where it is declared, and taken over from the server where it is not.
unfoldable pub inherited :
    {A : Type 0}
    → Text
    → Text
    → (Text → Result ParseError A)
    → A
    → Option Text
    → Result RealmError A
inherited name field parse server none = ok server
inherited name field parse server (some value) = in_realm name field (parse value)

-- A field of the token ring: it has to be stated by a realm that signs tokens.
unfoldable pub require_token : Text → Text → Bool → Option Text → Result RealmError Duration
require_token name field signs (some value) = in_realm name field (parse_duration value)
require_token name field false none = ok (from_secs 0)
require_token name field true none = err (not_stated name field)

unfoldable pub signing_algorithm : Text → Option Text → Result RealmError Text
signing_algorithm name none = ok (codes "EdDSA")
signing_algorithm name (some other) =
    if text_eq other (codes "EdDSA")
    then ok (codes "EdDSA")
    else if text_eq other (codes "ES256")
    then ok (codes "ES256")
    else err (cannot_produce name other)

abbrev pub or_else {ℓ} : {A : Type ℓ} → Option A → Option A → Option A
or_else none other = other
or_else (some a) other = some a

abbrev pub unwrap_or {ℓ} : {A : Type ℓ} → Option A → A → A
unwrap_or none a = a
unwrap_or (some b) _ = b

abbrev under : Text → Text → Text
under base name = without_slashes base ++ codes "/realms/" ++ name

abbrev derived_issuer : Option Text → Text → Option Text
derived_issuer none name = none
derived_issuer (some base) name = some (under base name)

abbrev pub mount_path_of : Text → Text
mount_path_of name = codes "/realms/" ++ name

abbrev hyphen_to_underscore : Text → Text
hyphen_to_underscore s = map (λ c. if c == b'-' then b'_' else c) s

module _ (to_uppercase : Text → Text) where
  abbrev env_prefix : Text → Text → Text
  env_prefix server name = server ++ codes "_" ++ hyphen_to_underscore (to_uppercase name)

  unfoldable pub resolve_realm : Config → RealmInput → Result RealmError RealmConfig
  resolve_realm c input = do
    let name = input.name
    listed ← inherited name (codes "listed") parse_bool false input.listed
    secrets_provider ←
        inherited name (codes "secrets.provider") parse_provider c.secrets.secrets_provider
          input.secrets_provider
    audit_destination ←
        inherited name (codes "audit.sink") parse_destination c.audit.audit_destination
          input.audit_sink
    signs ← inherited name (codes "keys.enabled") parse_bool true input.token_keys_enabled
    publish_ahead ← require_token name (codes "publish_ahead") signs input.token_keys_publish_ahead
    rotate_every ← require_token name (codes "rotate_every") signs input.token_keys_rotate_every
    retain ← require_token name (codes "retain") signs input.token_keys_retain
    lifetime ← require_token name (codes "token_lifetime") signs input.token_lifetime
    policy ←
        inherited name (codes "token_initial_expiry_policy") parse_token_initial_expiry_policy later
          input.token_initial_expiry_policy
    stale ←
        inherited name (codes "key_cache_stale_for") parse_duration_allow_zero (from_secs 3600)
          input.key_cache_stale_for
    algorithm ← signing_algorithm name input.token_signing_algorithm
    operations ←
        inherited name (codes "operations.keys.enabled") parse_bool c.keys.keys_enabled
          input.operations_keys_enabled
    operations_ahead ←
        inherited name (codes "operations.keys.publish_ahead") parse_duration
          c.keys.keys_publish_ahead input.operations_keys_publish_ahead
    operations_every ←
        inherited name (codes "operations.keys.rotate_every") parse_duration
          c.keys.keys_rotate_every input.operations_keys_rotate_every
    operations_retain ←
        inherited name (codes "operations.keys.retain") parse_duration c.keys.keys_retain
          input.operations_keys_retain
    retention ←
        inherited name (codes "audit.retention") parse_duration c.audit.audit_retention
          input.audit_retention
    pseudonym ←
        inherited name (codes "audit.pseudonym.enabled") parse_bool c.audit.audit_pseudonym_enabled
          input.audit_pseudonym_enabled
    ok (record {
      name = name;
      mount_path = mount_path_of name;
      issuer = or_else input.issuer (derived_issuer c.surfaces.issuer name);
      listed = listed;
      token_keys_enabled = signs;
      token_keys_publish_ahead = publish_ahead;
      token_keys_rotate_every = rotate_every;
      token_keys_retain = retain;
      token_lifetime = lifetime;
      token_initial_expiry_policy = policy;
      key_cache_stale_for = stale;
      token_signing_algorithm = algorithm;
      operations_keys_enabled = operations;
      operations_keys_publish_ahead = operations_ahead;
      operations_keys_rotate_every = operations_every;
      operations_keys_retain = operations_retain;
      audit_destination = audit_destination;
      audit_retention = retention;
      audit_pseudonym_enabled = pseudonym;
      audit_pseudonym_key_ref =
          or_else input.audit_pseudonym_key_ref c.audit.audit_pseudonym_key_ref;
      audit_pseudonym_key_version =
          unwrap_or input.audit_pseudonym_key_version c.audit.audit_pseudonym_key_version;
      secrets_provider = secrets_provider;
      secrets_env_prefix =
          unwrap_or input.secrets_env_prefix (env_prefix c.secrets.secrets_env_prefix name);
      exchange_profiles = input.exchange_profiles;
      trusted_attesters = input.trusted_attesters;
    })

  unfoldable pub with_realms : Config → List RealmInput → Result RealmError Config
  with_realms c inputs = do
    realms ← collect (resolve_realm c) inputs
    ok (record c { realms = realms })
