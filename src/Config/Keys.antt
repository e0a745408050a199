-- ===== src/Config/Keys.antt =====
-- The keys of the settings, from the head of crates/pic-x-core/src/config.rs.
use pic_x.Base.{Text, codes}

abbrev pub setting_version : Text
setting_version = codes "PIC_X_VERSION"

abbrev pub setting_copyright_year : Text
setting_copyright_year = codes "PIC_X_COPYRIGHT_YEAR"

abbrev pub setting_copyright_holder : Text
setting_copyright_holder = codes "PIC_X_COPYRIGHT_HOLDER"

abbrev pub setting_working_dir : Text
setting_working_dir = codes "PIC_X_WORKING_DIR"

abbrev pub setting_autogenerate : Text
setting_autogenerate = codes "PIC_X_AUTOGENERATE"

abbrev pub setting_development_mode : Text
setting_development_mode = codes "PIC_X_DEVELOPMENT_MODE"

abbrev pub setting_issuer : Text
setting_issuer = codes "PIC_X_ISSUER"

abbrev pub setting_public_path_prefix : Text
setting_public_path_prefix = codes "PIC_X_PUBLIC_PATH_PREFIX"

abbrev pub setting_public_http_addr : Text
setting_public_http_addr = codes "PIC_X_PUBLIC_HTTP_ADDR"

abbrev pub setting_telemetry_addr : Text
setting_telemetry_addr = codes "PIC_X_TELEMETRY_ADDR"

abbrev pub setting_admin_addr : Text
setting_admin_addr = codes "PIC_X_ADMIN_ADDR"

abbrev pub setting_admin_allow : Text
setting_admin_allow = codes "PIC_X_ADMIN_ALLOW"

abbrev pub setting_log_level : Text
setting_log_level = codes "PIC_X_LOG_LEVEL"

abbrev pub setting_log_format : Text
setting_log_format = codes "PIC_X_LOG_FORMAT"

abbrev pub setting_public_disclose_build : Text
setting_public_disclose_build = codes "PIC_X_PUBLIC_DISCLOSE_BUILD"

abbrev pub setting_tls_reload : Text
setting_tls_reload = codes "PIC_X_TLS_RELOAD"

abbrev pub setting_tls_reload_interval : Text
setting_tls_reload_interval = codes "PIC_X_TLS_RELOAD_INTERVAL"

abbrev pub setting_limits_connections : Text
setting_limits_connections = codes "PIC_X_LIMITS_CONNECTIONS"

abbrev pub setting_limits_connections_per_peer : Text
setting_limits_connections_per_peer = codes "PIC_X_LIMITS_CONNECTIONS_PER_PEER"

abbrev pub setting_limits_peer_exempt : Text
setting_limits_peer_exempt = codes "PIC_X_LIMITS_PEER_EXEMPT"

abbrev pub setting_limits_connection_lifetime : Text
setting_limits_connection_lifetime = codes "PIC_X_LIMITS_CONNECTION_LIFETIME"

abbrev pub setting_limits_write_stall_timeout : Text
setting_limits_write_stall_timeout = codes "PIC_X_LIMITS_WRITE_STALL_TIMEOUT"

abbrev pub setting_limits_concurrent_requests : Text
setting_limits_concurrent_requests = codes "PIC_X_LIMITS_CONCURRENT_REQUESTS"

abbrev pub setting_limits_request_timeout : Text
setting_limits_request_timeout = codes "PIC_X_LIMITS_REQUEST_TIMEOUT"

abbrev pub setting_limits_handshake_timeout : Text
setting_limits_handshake_timeout = codes "PIC_X_LIMITS_HANDSHAKE_TIMEOUT"

abbrev pub setting_limits_header_timeout : Text
setting_limits_header_timeout = codes "PIC_X_LIMITS_HEADER_TIMEOUT"

abbrev pub setting_limits_body_bytes : Text
setting_limits_body_bytes = codes "PIC_X_LIMITS_BODY_BYTES"

abbrev pub setting_limits_header_bytes : Text
setting_limits_header_bytes = codes "PIC_X_LIMITS_HEADER_BYTES"

abbrev pub setting_shutdown_timeout : Text
setting_shutdown_timeout = codes "PIC_X_SHUTDOWN_TIMEOUT"

abbrev pub setting_secrets_provider : Text
setting_secrets_provider = codes "PIC_X_SECRETS_PROVIDER"

abbrev pub setting_secrets_directory : Text
setting_secrets_directory = codes "PIC_X_SECRETS_DIRECTORY"

abbrev pub setting_secrets_env_prefix : Text
setting_secrets_env_prefix = codes "PIC_X_SECRETS_ENV_PREFIX"

abbrev pub setting_audit_pseudonym_enabled : Text
setting_audit_pseudonym_enabled = codes "PIC_X_AUDIT_PSEUDONYM_ENABLED"

abbrev pub setting_audit_pseudonym_key_ref : Text
setting_audit_pseudonym_key_ref = codes "PIC_X_AUDIT_PSEUDONYM_KEY_REF"

abbrev pub setting_audit_pseudonym_key_version : Text
setting_audit_pseudonym_key_version = codes "PIC_X_AUDIT_PSEUDONYM_KEY_VERSION"

abbrev pub setting_audit_sink : Text
setting_audit_sink = codes "PIC_X_AUDIT_SINK"

abbrev pub setting_audit_directory : Text
setting_audit_directory = codes "PIC_X_AUDIT_DIRECTORY"

abbrev pub setting_audit_retention : Text
setting_audit_retention = codes "PIC_X_AUDIT_RETENTION"

abbrev pub setting_keys_enabled : Text
setting_keys_enabled = codes "PIC_X_KEYS_ENABLED"

abbrev pub setting_keys_directory : Text
setting_keys_directory = codes "PIC_X_KEYS_DIRECTORY"

abbrev pub setting_keys_publish_ahead : Text
setting_keys_publish_ahead = codes "PIC_X_KEYS_PUBLISH_AHEAD"

abbrev pub setting_keys_rotate_every : Text
setting_keys_rotate_every = codes "PIC_X_KEYS_ROTATE_EVERY"

abbrev pub setting_keys_retain : Text
setting_keys_retain = codes "PIC_X_KEYS_RETAIN"

abbrev pub setting_keys_maintenance_interval : Text
setting_keys_maintenance_interval = codes "PIC_X_KEYS_MAINTENANCE_INTERVAL"

abbrev pub setting_public_tls_cert : Text
setting_public_tls_cert = codes "PIC_X_PUBLIC_TLS_CERT"

abbrev pub setting_public_tls_key : Text
setting_public_tls_key = codes "PIC_X_PUBLIC_TLS_KEY"

abbrev pub setting_public_tls_client_ca : Text
setting_public_tls_client_ca = codes "PIC_X_PUBLIC_TLS_CLIENT_CA"

abbrev pub setting_public_tls_crl : Text
setting_public_tls_crl = codes "PIC_X_PUBLIC_TLS_CRL"

abbrev pub setting_public_tls_allow : Text
setting_public_tls_allow = codes "PIC_X_PUBLIC_TLS_ALLOW"

abbrev pub setting_public_tls_min_version : Text
setting_public_tls_min_version = codes "PIC_X_PUBLIC_TLS_MIN_VERSION"

abbrev pub setting_admin_tls_cert : Text
setting_admin_tls_cert = codes "PIC_X_ADMIN_TLS_CERT"

abbrev pub setting_admin_tls_key : Text
setting_admin_tls_key = codes "PIC_X_ADMIN_TLS_KEY"

abbrev pub setting_admin_tls_client_ca : Text
setting_admin_tls_client_ca = codes "PIC_X_ADMIN_TLS_CLIENT_CA"

abbrev pub setting_admin_tls_crl : Text
setting_admin_tls_crl = codes "PIC_X_ADMIN_TLS_CRL"

abbrev pub setting_admin_tls_min_version : Text
setting_admin_tls_min_version = codes "PIC_X_ADMIN_TLS_MIN_VERSION"

abbrev pub setting_telemetry_tls_cert : Text
setting_telemetry_tls_cert = codes "PIC_X_TELEMETRY_TLS_CERT"

abbrev pub setting_telemetry_tls_key : Text
setting_telemetry_tls_key = codes "PIC_X_TELEMETRY_TLS_KEY"

abbrev pub setting_telemetry_tls_min_version : Text
setting_telemetry_tls_min_version = codes "PIC_X_TELEMETRY_TLS_MIN_VERSION"
