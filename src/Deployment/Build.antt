-- ===== src/Deployment/Build.antt =====
-- A realm built from its configuration (`build_realm`, src/main.rs), and all of them (`realms_for`,
-- crates/pic-x-server/src/app.rs). Whether a trail's directory could be prepared and what a secret store
-- answers are parameters.
use pic_x.Base.{ℕ, Text, Option, none, some, List, Bool, if◌then◌else◌, Result, ok, err}
use pic_x.Base.Fallible.{◌>>=◌, ◌>>◌, ensure, ok_or}
use pic_x.Keys.{ed25519, algorithm_named}
use pic_x.Config.Parse.{
  SecretProvider, nowhere, directory, environment, AuditDestination, tracing, file, collect,
}
use pic_x.Config.Realm.{RealmConfig}
use pic_x.Config.State.{Config}
use pic_x.Config.Paths.{
  realm_keys_directory, realm_token_keys_directory, realm_audit_directory, realm_secrets_directory,
  keys_directory,
}
use pic_x.Deployment.Registry.{
  KeyRing, RealmSink, to_log, to_files, Pseudonyms, Realm, Realms, realms_new,
}

pub data BuildError : Type 0 where
  cannot_sign cannot_prepare names_no_secret resolves_from_nowhere cannot_resolve no_factory :
      BuildError

-- `DirectorySecretStore` and `EnvironmentSecretStore`, by what they are made with.
pub data SecretStore : Type 0 where
  in_directory in_environment : Text → SecretStore

-- `key_manager_for`: the ring of the server.
unfoldable pub key_manager_for : Config → KeyRing
key_manager_for c = record {
  directory = keys_directory c;
  policy = record {
    publish_ahead = c.keys.keys_publish_ahead;
    rotate_every = c.keys.keys_rotate_every;
    retain = c.keys.keys_retain;
    verify_retain = c.audit.audit_retention;
  };
  algorithm = ed25519;
}

abbrev pub operations_ring_of : Config → RealmConfig → Option KeyRing
operations_ring_of c r =
    if r.operations_keys_enabled
    then some (record {
      directory = realm_keys_directory c r.name;
      policy = record {
        publish_ahead = r.operations_keys_publish_ahead;
        rotate_every = r.operations_keys_rotate_every;
        retain = r.operations_keys_retain;
        verify_retain = r.audit_retention;
      };
      algorithm = ed25519;
    })
    else none

abbrev token_ring : Config → RealmConfig → Result BuildError (Option KeyRing)
token_ring c r = do
  algorithm ← ok_or (algorithm_named r.token_signing_algorithm) cannot_sign
  ok (
      some (record {
        directory = realm_token_keys_directory c r.name;
        policy = record {
          publish_ahead = r.token_keys_publish_ahead;
          rotate_every = r.token_keys_rotate_every;
          retain = r.token_keys_retain;
          verify_retain = r.token_keys_retain;
        };
        algorithm = algorithm;
      }))

abbrev pub token_ring_of : Config → RealmConfig → Result BuildError (Option KeyRing)
token_ring_of c r = if r.token_keys_enabled then token_ring c r else ok none

abbrev store_at : Config → RealmConfig → SecretProvider → Result BuildError SecretStore
store_at c r nowhere = err resolves_from_nowhere
store_at c r directory = ok (in_directory (realm_secrets_directory c r.name))
store_at c r environment = ok (in_environment r.secrets_env_prefix)

module _ (prepare : Text → Bool) (resolve : SecretStore → Text → Option (List ℕ)) where
  abbrev pub sink_to :
      Config → RealmConfig → AuditDestination → Option KeyRing → Result BuildError RealmSink
  sink_to c r tracing ring = ok to_log
  sink_to c r file ring = do
    ensure (prepare (realm_audit_directory c r.name)) cannot_prepare
    ok (to_files (realm_audit_directory c r.name) r.audit_retention ring)

  abbrev pseudonyms : Config → RealmConfig → Result BuildError (Option Pseudonyms)
  pseudonyms c r = do
    reference ← ok_or r.audit_pseudonym_key_ref names_no_secret
    store ← store_at c r r.secrets_provider
    key ← ok_or (resolve store reference) cannot_resolve
    ok (some (record { key = key; version = r.audit_pseudonym_key_version }))

  abbrev pub pseudonyms_of : Config → RealmConfig → Result BuildError (Option Pseudonyms)
  pseudonyms_of c r = if r.audit_pseudonym_enabled then pseudonyms c r else ok none

  unfoldable pub build_realm : Config → RealmConfig → Result BuildError Realm
  build_realm c r = do
    token_keys ← token_ring_of c r
    audit ← sink_to c r r.audit_destination (operations_ring_of c r)
    pseudonymizer ← pseudonyms_of c r
    ok (record {
      name = r.name;
      mount_path = r.mount_path;
      issuer = r.issuer;
      listed = r.listed;
      operations_keys = operations_ring_of c r;
      token_keys = token_keys;
      audit = audit;
      pseudonymizer = pseudonymizer;
      exchange_profiles = r.exchange_profiles;
      trusted_attesters = r.trusted_attesters;
      token_lifetime = r.token_lifetime;
      token_initial_expiry_policy = r.token_initial_expiry_policy;
      key_cache_stale_for = r.key_cache_stale_for;
      token_signing_algorithm = r.token_signing_algorithm;
    })

  -- Every realm through the factory of the build.
  unfoldable pub realms_for : Config → Result BuildError Realms
  realms_for c = do realms ← collect (build_realm c) c.realms; ok (realms_new realms)
