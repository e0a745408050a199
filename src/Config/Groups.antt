-- ===== src/Config/Groups.antt =====
-- A layer applied to each group of a configuration (`apply_pairs`, crates/pic-x-core/src/config.rs). Where a
-- layer cannot be read no configuration comes back, so what was set before is not kept.
use pic_x.Base.{Text, Option, List, Result, ok}
use pic_x.Base.Fallible.{◌>>=◌}
use pic_x.Limits.{IpAddr, Limits}
use pic_x.Config.Parse.{
  parse_bool, parse_duration, parse_count, parse_per_peer, parse_exempt, parse_lifetime,
  parse_bytes, parse_allowed, parse_level, parse_format, parse_provider, parse_destination,
}
use pic_x.Config.Keys.{
  setting_version, setting_copyright_year, setting_copyright_holder, setting_working_dir,
  setting_autogenerate, setting_development_mode, setting_issuer, setting_public_path_prefix,
  setting_public_http_addr, setting_telemetry_addr, setting_admin_addr, setting_admin_allow,
  setting_log_level, setting_log_format, setting_public_disclose_build, setting_tls_reload,
  setting_tls_reload_interval, setting_limits_connections, setting_limits_connections_per_peer,
  setting_limits_peer_exempt, setting_limits_connection_lifetime,
  setting_limits_write_stall_timeout, setting_limits_concurrent_requests,
  setting_limits_request_timeout, setting_limits_handshake_timeout, setting_limits_header_timeout,
  setting_limits_body_bytes, setting_limits_header_bytes, setting_shutdown_timeout,
  setting_secrets_provider, setting_secrets_directory, setting_secrets_env_prefix,
  setting_audit_pseudonym_enabled, setting_audit_pseudonym_key_ref,
  setting_audit_pseudonym_key_version, setting_audit_sink, setting_audit_directory,
  setting_audit_retention, setting_keys_enabled, setting_keys_directory, setting_keys_publish_ahead,
  setting_keys_rotate_every, setting_keys_retain, setting_keys_maintenance_interval,
}
use pic_x.Config.State.{Build, General, Surfaces, Reloading, Secrets, Audit, Lifecycle}
use pic_x.Config.Layer.{LayerError, Pairs, base, declare, get, setting_of, some_base, some_text}

unfoldable pub apply_build : Pairs → Build → Result LayerError Build
apply_build s c = do
  version ← setting_of s setting_version ok c.version
  copyright_year ← setting_of s setting_copyright_year ok c.copyright_year
  copyright_holder ← setting_of s setting_copyright_holder ok c.copyright_holder
  ok (record {
    commit = c.commit;
    version = version;
    copyright_year = copyright_year;
    copyright_holder = copyright_holder;
  })

unfoldable pub apply_general : Pairs → General → Result LayerError General
apply_general s c = do
  working_dir ← setting_of s setting_working_dir some_text c.working_dir
  autogenerate ← setting_of s setting_autogenerate parse_bool c.autogenerate
  development_mode ← setting_of s setting_development_mode parse_bool c.development_mode
  ok (record {
    working_dir = working_dir;
    autogenerate = autogenerate;
    development_mode = development_mode;
  })

unfoldable pub apply_surfaces : Pairs → Surfaces → Result LayerError Surfaces
apply_surfaces s c = do
  issuer ← setting_of s setting_issuer some_base c.issuer
  public_path_prefix ← setting_of s setting_public_path_prefix base c.public_path_prefix
  public_http_addr ← setting_of s setting_public_http_addr some_text c.public_http_addr
  telemetry_addr ← setting_of s setting_telemetry_addr some_text c.telemetry_addr
  admin_addr ← setting_of s setting_admin_addr some_text c.admin_addr
  admin_allow ← setting_of s setting_admin_allow parse_allowed c.admin_allow
  log_level ← setting_of s setting_log_level parse_level c.log_level
  log_format ← setting_of s setting_log_format parse_format c.log_format
  disclose_build ← setting_of s setting_public_disclose_build parse_bool c.disclose_build
  ok (record {
    issuer = issuer;
    public_path_prefix = public_path_prefix;
    public_http_addr = public_http_addr;
    telemetry_addr = telemetry_addr;
    admin_addr = admin_addr;
    admin_allow = admin_allow;
    log_level = log_level;
    log_format = log_format;
    disclose_build = disclose_build;
  })

unfoldable pub apply_reloading : Pairs → Reloading → Result LayerError Reloading
apply_reloading s c = do
  tls_reload ← setting_of s setting_tls_reload parse_bool c.tls_reload
  tls_reload_interval ←
      setting_of s setting_tls_reload_interval parse_duration c.tls_reload_interval
  ok (record { tls_reload = tls_reload; tls_reload_interval = tls_reload_interval })

module _ (parse_address : Text → Option IpAddr) where
  unfoldable pub apply_limits : Pairs → Limits → Result LayerError Limits
  apply_limits s c = do
    connections ← setting_of s setting_limits_connections parse_count c.connections
    connections_per_peer ←
        setting_of s setting_limits_connections_per_peer parse_per_peer c.connections_per_peer
    peer_exempt ← setting_of s setting_limits_peer_exempt (parse_exempt parse_address) c.peer_exempt
    connection_lifetime ←
        setting_of s setting_limits_connection_lifetime parse_lifetime c.connection_lifetime
    write_stall_timeout ←
        setting_of s setting_limits_write_stall_timeout parse_duration c.write_stall_timeout
    concurrent_requests ←
        setting_of s setting_limits_concurrent_requests parse_count c.concurrent_requests
    request_timeout ← setting_of s setting_limits_request_timeout parse_duration c.request_timeout
    handshake_timeout ←
        setting_of s setting_limits_handshake_timeout parse_duration c.handshake_timeout
    header_timeout ← setting_of s setting_limits_header_timeout parse_duration c.header_timeout
    body_bytes ← setting_of s setting_limits_body_bytes parse_bytes c.body_bytes
    header_bytes ← setting_of s setting_limits_header_bytes parse_bytes c.header_bytes
    ok (record {
      connections = connections;
      connections_per_peer = connections_per_peer;
      peer_exempt = peer_exempt;
      connection_lifetime = connection_lifetime;
      write_stall_timeout = write_stall_timeout;
      concurrent_requests = concurrent_requests;
      request_timeout = request_timeout;
      handshake_timeout = handshake_timeout;
      header_timeout = header_timeout;
      body_bytes = body_bytes;
      header_bytes = header_bytes;
    })

unfoldable pub apply_secrets : Pairs → Secrets → Result LayerError Secrets
apply_secrets s c = do
  shutdown_timeout ← setting_of s setting_shutdown_timeout parse_duration c.shutdown_timeout
  secrets_provider ← setting_of s setting_secrets_provider parse_provider c.secrets_provider
  secrets_directory ← setting_of s setting_secrets_directory some_text c.secrets_directory
  secrets_env_prefix ← setting_of s setting_secrets_env_prefix ok c.secrets_env_prefix
  ok (record {
    shutdown_timeout = shutdown_timeout;
    secrets_provider = secrets_provider;
    secrets_directory = secrets_directory;
    secrets_env_prefix = secrets_env_prefix;
  })

unfoldable pub apply_audit : Pairs → Audit → Result LayerError Audit
apply_audit s c = do
  audit_pseudonym_enabled ←
      setting_of s setting_audit_pseudonym_enabled parse_bool c.audit_pseudonym_enabled
  audit_pseudonym_key_ref ←
      setting_of s setting_audit_pseudonym_key_ref some_text c.audit_pseudonym_key_ref
  audit_pseudonym_key_version ←
      setting_of s setting_audit_pseudonym_key_version ok c.audit_pseudonym_key_version
  audit_destination ← setting_of s setting_audit_sink parse_destination c.audit_destination
  audit_directory ← setting_of s setting_audit_directory some_text c.audit_directory
  audit_retention ← setting_of s setting_audit_retention parse_duration c.audit_retention
  ok (record {
    audit_pseudonym_enabled = audit_pseudonym_enabled;
    audit_pseudonym_key_ref = audit_pseudonym_key_ref;
    audit_pseudonym_key_version = audit_pseudonym_key_version;
    audit_destination = audit_destination;
    audit_directory = audit_directory;
    audit_retention = audit_retention;
  })

abbrev pub declared_in : Pairs → List Text → List Text
declared_in s set = declare setting_keys_retain (get setting_keys_retain s) (
    declare setting_keys_rotate_every (get setting_keys_rotate_every s)
      (declare setting_keys_publish_ahead (get setting_keys_publish_ahead s) set))

unfoldable pub apply_keys : Pairs → Lifecycle → Result LayerError Lifecycle
apply_keys s c = do
  keys_enabled ← setting_of s setting_keys_enabled parse_bool c.keys_enabled
  keys_directory ← setting_of s setting_keys_directory some_text c.keys_directory
  keys_publish_ahead ← setting_of s setting_keys_publish_ahead parse_duration c.keys_publish_ahead
  keys_rotate_every ← setting_of s setting_keys_rotate_every parse_duration c.keys_rotate_every
  keys_retain ← setting_of s setting_keys_retain parse_duration c.keys_retain
  keys_maintenance_interval ←
      setting_of s setting_keys_maintenance_interval parse_duration c.keys_maintenance_interval
  ok (record {
    keys_enabled = keys_enabled;
    keys_directory = keys_directory;
    keys_publish_ahead = keys_publish_ahead;
    keys_rotate_every = keys_rotate_every;
    keys_retain = keys_retain;
    keys_maintenance_interval = keys_maintenance_interval;
    keys_lifecycle_declared = declared_in s c.keys_lifecycle_declared;
  })
