-- ===== src/Config/State.antt =====
-- The configuration of a deployment (crates/pic-x-core/src/config.rs), its fields grouped by the part that
-- they configure, and the TLS material of a surface (crates/pic-x-core/src/tls.rs).
use pic_x.Base.{Text, codes, ◌*◌, Option, none, List, [], Bool, true, false}
use pic_x.Keys.{Duration}
use pic_x.Limits.{Limits, from_secs}
use pic_x.Limits
use pic_x.Peer.{AllowedPeer}
use pic_x.Config.Parse.{
  LogLevel, info, LogFormat, json, TlsVersion, v1_3, SecretProvider, nowhere, AuditDestination,
  tracing,
}
use pic_x.Config.Realm.{RealmConfig}

pub record Build : Type 0 where
  pub commit : Text
  pub version : Text
  pub copyright_year : Text
  pub copyright_holder : Text

pub record General : Type 0 where
  pub working_dir : Option Text
  pub autogenerate : Bool
  pub development_mode : Bool

pub record Surfaces : Type 0 where
  pub issuer : Option Text
  pub public_path_prefix : Text
  pub public_http_addr : Option Text
  pub telemetry_addr : Option Text
  pub admin_addr : Option Text
  pub admin_allow : List AllowedPeer
  pub log_level : LogLevel
  pub log_format : LogFormat
  pub disclose_build : Bool

pub record Reloading : Type 0 where
  pub tls_reload : Bool
  pub tls_reload_interval : Duration

pub record Secrets : Type 0 where
  pub shutdown_timeout : Duration
  pub secrets_provider : SecretProvider
  pub secrets_directory : Option Text
  pub secrets_env_prefix : Text

pub record Audit : Type 0 where
  pub audit_pseudonym_enabled : Bool
  pub audit_pseudonym_key_ref : Option Text
  pub audit_pseudonym_key_version : Text
  pub audit_destination : AuditDestination
  pub audit_directory : Option Text
  pub audit_retention : Duration

pub record Lifecycle : Type 0 where
  pub keys_enabled : Bool
  pub keys_directory : Option Text
  pub keys_publish_ahead : Duration
  pub keys_rotate_every : Duration
  pub keys_retain : Duration
  pub keys_maintenance_interval : Duration
  -- the settings of the lifecycle that some layer stated
  pub keys_lifecycle_declared : List Text

pub record TlsSettings : Type 0 where
  pub certificate : Text
  pub key : Text
  pub client_ca : Option Text
  pub crl : Option Text
  pub allow : List AllowedPeer
  pub min_version : TlsVersion
  pub reload : Option Duration

-- `TlsSettings::new`
abbrev pub tls_settings : Text → Text → TlsSettings
tls_settings certificate key = record {
  certificate = certificate;
  key = key;
  client_ca = none;
  crl = none;
  allow = [];
  min_version = v1_3;
  reload = none;
}

pub record Tls : Type 0 where
  pub public_tls : Option TlsSettings
  pub admin_tls : Option TlsSettings
  pub telemetry_tls : Option TlsSettings

-- Without the sections that a build adds.
pub record Config : Type 0 where
  pub build : Build
  pub general : General
  pub surfaces : Surfaces
  pub tls : Tls
  pub reloading : Reloading
  pub limits : Limits
  pub secrets : Secrets
  pub audit : Audit
  pub keys : Lifecycle
  pub realms : List RealmConfig
  pub declared : List Text
  pub declared_values : List (Text × Text)

-- `Config::default`
abbrev pub default : Config
default = record {
  build = record {
    commit = codes "unknown";
    version = codes "0.0.0";
    copyright_year = codes "0000";
    copyright_holder = codes "PIC-X";
  };
  general = record { working_dir = none; autogenerate = false; development_mode = false };
  surfaces = record {
    issuer = none;
    public_path_prefix = [];
    public_http_addr = none;
    telemetry_addr = none;
    admin_addr = none;
    admin_allow = [];
    log_level = info;
    log_format = json;
    disclose_build = true;
  };
  tls = record { public_tls = none; admin_tls = none; telemetry_tls = none };
  reloading = record { tls_reload = true; tls_reload_interval = from_secs 30 };
  limits = Limits.new;
  secrets = record {
    shutdown_timeout = from_secs 30;
    secrets_provider = nowhere;
    secrets_directory = none;
    secrets_env_prefix = codes "PIC_X_SECRET";
  };
  audit = record {
    audit_pseudonym_enabled = false;
    audit_pseudonym_key_ref = none;
    audit_pseudonym_key_version = codes "v1";
    audit_destination = tracing;
    audit_directory = none;
    audit_retention = from_secs (90 * 24 * 60 * 60);
  };
  keys = record {
    keys_enabled = false;
    keys_directory = none;
    keys_publish_ahead = from_secs (60 * 60);
    keys_rotate_every = from_secs (30 * 24 * 60 * 60);
    keys_retain = from_secs (365 * 24 * 60 * 60);
    keys_maintenance_interval = from_secs 60;
    keys_lifecycle_declared = [];
  };
  realms = [];
  declared = [];
  declared_values = [];
}
