-- ===== src/Config/Realm.antt =====
-- The configuration of a realm (crates/pic-x-core/src/realm.rs), as it is declared and as it is resolved.
use pic_x.Base.{Text, Option, List, Bool}
use pic_x.Keys.{Duration}
use pic_x.Config.Parse.{SecretProvider, AuditDestination}
use pic_x.Realm.Exchange.Expiry.{TokenInitialExpiryPolicy}
use pic_x.Realm.Exchange.Source.{ExchangeProfileConfig}

pub record TrustedAttesterConfig : Type 0 where
  pub id : Text
  pub issuer : Text
  pub jwks_uri : Text
  pub proof_types : List Text
  pub formats : List Text

pub record RealmInput : Type 0 where
  pub name : Text
  pub issuer : Option Text
  pub listed : Option Text
  pub token_keys_enabled : Option Text
  pub token_keys_publish_ahead : Option Text
  pub token_keys_rotate_every : Option Text
  pub token_keys_retain : Option Text
  pub operations_keys_enabled : Option Text
  pub operations_keys_publish_ahead : Option Text
  pub operations_keys_rotate_every : Option Text
  pub operations_keys_retain : Option Text
  pub audit_sink : Option Text
  pub audit_retention : Option Text
  pub audit_pseudonym_enabled : Option Text
  pub audit_pseudonym_key_ref : Option Text
  pub audit_pseudonym_key_version : Option Text
  pub secrets_provider : Option Text
  pub secrets_env_prefix : Option Text
  pub token_lifetime : Option Text
  pub token_initial_expiry_policy : Option Text
  pub key_cache_stale_for : Option Text
  pub token_signing_algorithm : Option Text
  pub exchange_profiles : List ExchangeProfileConfig
  pub trusted_attesters : List TrustedAttesterConfig

pub record RealmConfig : Type 0 where
  pub name : Text
  pub mount_path : Text
  pub issuer : Option Text
  pub listed : Bool
  pub token_keys_enabled : Bool
  pub token_keys_publish_ahead : Duration
  pub token_keys_rotate_every : Duration
  pub token_keys_retain : Duration
  pub token_lifetime : Duration
  pub token_initial_expiry_policy : TokenInitialExpiryPolicy
  pub key_cache_stale_for : Duration
  pub token_signing_algorithm : Text
  pub operations_keys_enabled : Bool
  pub operations_keys_publish_ahead : Duration
  pub operations_keys_rotate_every : Duration
  pub operations_keys_retain : Duration
  pub audit_destination : AuditDestination
  pub audit_retention : Duration
  pub audit_pseudonym_enabled : Bool
  pub audit_pseudonym_key_ref : Option Text
  pub audit_pseudonym_key_version : Text
  pub secrets_provider : SecretProvider
  pub secrets_env_prefix : Text
  pub exchange_profiles : List ExchangeProfileConfig
  pub trusted_attesters : List TrustedAttesterConfig
