-- ===== src/Config/Fixture.antt =====
-- Layers, and a deployment with two realms, that the tests share.
use pic_x.Base.{Text, codes, Option, none, some, List, [], ◌∷◌, Bool, true, Result, ok, err}
use pic_x.Limits.{IpAddr}
use pic_x.Peer.{PeerIdentity, common_name}
use pic_x.Realm.Exchange.Source.{ExchangeProfileConfig}
use pic_x.Base.Int.{pos}
use pic_x.Config.Realm.{RealmInput}
use pic_x.Config.State.{Build, Config, default, tls_settings}
use pic_x.Config.Keys.{
  setting_public_http_addr, setting_log_level, setting_keys_publish_ahead,
  setting_keys_rotate_every, setting_keys_retain, setting_public_tls_cert, setting_public_tls_key,
  setting_public_tls_client_ca, setting_shutdown_timeout,
}
use pic_x.Config.Apply.{Layers}

abbrev pub no_address : Text → Option IpAddr
no_address s = none

abbrev pub build : Build
build = record {
  commit = codes "c0ffee";
  version = codes "1.2.3";
  copyright_year = codes "2022";
  copyright_holder = codes "Nitro";
}

-- The environment replaces the certificate that the file gives, and with it the file's client authority.
abbrev pub layers : Layers
layers = record {
  file =
      (setting_public_http_addr, codes "0.0.0.0:80")
      ∷ (setting_log_level, codes "debug")
      ∷ (setting_public_tls_cert, codes "file.pem")
      ∷ (setting_public_tls_key, codes "file.key")
      ∷ (setting_public_tls_client_ca, codes "ca.pem")
      ∷ (setting_shutdown_timeout, codes "2m")
      ∷ [];
  environment =
      (setting_public_tls_cert, codes "env.pem")
      ∷ (setting_public_tls_key, codes "env.key")
      ∷ (setting_log_level, codes "warn")
      ∷ (codes "EXTRA", codes "on")
      ∷ [];
  command_line = (setting_log_level, []) ∷ (setting_public_http_addr, codes "127.0.0.1:8080") ∷ [];
}

abbrev pub profile : ExchangeProfileConfig
profile = record {
  id = codes "p";
  source = record {
    token_type = codes "oauth-access-token";
    format = codes "jwt";
    issuer = codes "idp";
    discovery_url = none;
    audience = codes "pic";
    validation = record {
      allowed_algorithms = codes "ES256" ∷ [];
      require_expiration = true;
      require_token_type = some (codes "at+jwt");
    };
  };
  identity_context = [];
  scopes = record {
    from = some (codes "scope");
    value = none;
    value_type = some (codes "set");
    encoding = none;
  };
  privileges_source = codes "scopes";
  rules =
      record {
        name = codes "read";
        priority = pos 1;
        pattern = codes "read";
        emit = record {
          scope = codes "s";
          operation = codes "get";
          resource_type = codes "doc";
          resource_id = codes "*";
        };
      }
      ∷ [];
  on_unmatched_scope = codes "reject";
}

abbrev pub input : Text → RealmInput
input name = record {
  name = name;
  issuer = none;
  listed = some (codes "yes");
  token_keys_enabled = none;
  token_keys_publish_ahead = some (codes "10m");
  token_keys_rotate_every = some (codes "30d");
  token_keys_retain = some (codes "60d");
  operations_keys_enabled = none;
  operations_keys_publish_ahead = none;
  operations_keys_rotate_every = none;
  operations_keys_retain = none;
  audit_sink = none;
  audit_retention = none;
  audit_pseudonym_enabled = none;
  audit_pseudonym_key_ref = none;
  audit_pseudonym_key_version = none;
  secrets_provider = none;
  secrets_env_prefix = none;
  token_lifetime = some (codes "1h");
  token_initial_expiry_policy = none;
  key_cache_stale_for = some (codes "0s");
  token_signing_algorithm = some (codes "ES256");
  exchange_profiles = profile ∷ [];
  trusted_attesters = [];
}

abbrev pub inputs : List RealmInput
inputs = input (codes "a") ∷ input (codes "b") ∷ []

-- A deployment with a ring of its own and an administrative surface that other hosts reach.
abbrev pub start : Config
start = record default {
  surfaces = record default.surfaces {
    issuer = some (codes "https://x");
    public_http_addr = some (codes "0.0.0.0:80");
    admin_addr = some (codes "10.0.0.1:9443");
    admin_allow = common_name (codes "operator") ∷ [];
  };
  tls = record default.tls {
    admin_tls = some (record (tls_settings (codes "admin.pem") (codes "/admin.key")) {
      client_ca = some (codes "ca.pem");
    });
  };
  keys = record default.keys {
    keys_enabled = true;
    keys_lifecycle_declared =
        setting_keys_publish_ahead ∷ setting_keys_rotate_every ∷ setting_keys_retain ∷ [];
  };
}

abbrev pub operator : PeerIdentity
operator = record {
  subject = codes "CN=operator";
  common_name = some (codes "operator");
  fingerprint = codes "00";
  serial = codes "1";
}

abbrev pub every_file : Text → Bool
every_file path = true

-- What a chain that went well ends with, or something else.
abbrev pub or_else {ℓ κ} : {E : Type ℓ} {A : Type κ} → A → Result E A → A
or_else a (ok b) = b
or_else a (err e) = a
