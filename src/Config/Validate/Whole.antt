-- ===== src/Config/Validate/Whole.antt =====
-- The whole check of a configuration (`validate`, crates/pic-x-core/src/config.rs).
use pic_x.Base.{
  Text, codes, Option, none, some, Bool, true, false, not, ◌&&◌, ◌||◌, has_text, starts_with,
  is_empty_text, Result, ok,
}
use pic_x.Base.Fallible.{◌>>◌, ensure}
use pic_x.Config.Parse.{is_loopback}
use pic_x.Config.Keys.{setting_keys_publish_ahead, setting_keys_rotate_every, setting_keys_retain}
use pic_x.Config.State.{Config, TlsSettings, Lifecycle}
use pic_x.Config.Resolve.{unwrap_or}
use pic_x.Config.Validate.{
  ConfigError, Surface, allow_without_authority, no_public_address, prefix_without_slash,
  not_development, admin_reachable, admin_names_nobody, empty_address, server_issuer,
  lifecycle_not_stated, the_server, pseudonyms_without_provider, pseudonyms_without_key,
  no_key_version, public_surface, admin_surface, telemetry_surface, require_public_https,
  check_key_lifecycle,
}
use pic_x.Config.Validate.Attesters.{is_nil, blank}
use pic_x.Config.Validate.Material.{is_some, is_mutual, validate_surface}
use pic_x.Config.Validate.Realms.{is_nowhere, unless_not, validate_realms}

abbrev pub working_dir : Config → Text
working_dir c = unwrap_or c.general.working_dir (codes ".volume")

abbrev lists_without_authority : Option TlsSettings → Bool
lists_without_authority none = false
lists_without_authority (some tls) = not (is_nil tls.allow) && not (is_some tls.client_ca)

abbrev check_address : Surface → Option Text → Result ConfigError (Unit {0})
check_address surface none = ok tt
check_address surface (some addr) = ensure (not (blank addr)) (empty_address surface)

abbrev check_issuer : Bool → Option Text → Result ConfigError (Unit {0})
check_issuer development none = ok tt
check_issuer development (some issuer) = require_public_https development server_issuer issuer

unfoldable pub validate_development : Config → Result ConfigError (Unit {0})
validate_development c =
    ensure (not (c.general.autogenerate && not c.general.development_mode)) not_development

abbrev pub is_mutual_tls : Option TlsSettings → Bool
is_mutual_tls none = false
is_mutual_tls (some tls) = is_mutual tls

-- The surface at an address: who may reach it, by whether it asks for a client certificate.
abbrev pub check_admin : Bool → Bool → Bool → Text → Result ConfigError (Unit {0})
check_admin development names_nobody false address =
    ensure (is_loopback address || development) admin_reachable
check_admin development names_nobody true address =
    ensure (not (names_nobody && not development)) admin_names_nobody

abbrev pub check_admin_at : Bool → Bool → Bool → Option Text → Result ConfigError (Unit {0})
check_admin_at development names_nobody demands none = ok tt
check_admin_at development names_nobody demands (some address) =
    check_admin development names_nobody demands address

unfoldable pub validate_admin_access : Config → Result ConfigError (Unit {0})
validate_admin_access c =
    check_admin_at c.general.development_mode (is_nil c.surfaces.admin_allow)
      (is_mutual_tls c.tls.admin_tls) c.surfaces.admin_addr

abbrev pub check_lifecycle : Bool → Lifecycle → Result ConfigError (Unit {0})
check_lifecycle development keys = do
  ensure (has_text keys.keys_lifecycle_declared setting_keys_publish_ahead)
      (lifecycle_not_stated setting_keys_publish_ahead)
  ensure (has_text keys.keys_lifecycle_declared setting_keys_rotate_every)
      (lifecycle_not_stated setting_keys_rotate_every)
  ensure (has_text keys.keys_lifecycle_declared setting_keys_retain)
      (lifecycle_not_stated setting_keys_retain)
  check_key_lifecycle development the_server keys.keys_publish_ahead keys.keys_rotate_every
      keys.keys_retain

unfoldable pub validate_key_lifecycle : Config → Result ConfigError (Unit {0})
validate_key_lifecycle c =
    unless_not c.keys.keys_enabled (check_lifecycle c.general.development_mode c.keys)

abbrev check_pseudonyms : Config → Result ConfigError (Unit {0})
check_pseudonyms c = do
  ensure (not (is_nowhere c.secrets.secrets_provider)) pseudonyms_without_provider
  ensure (is_some c.audit.audit_pseudonym_key_ref) pseudonyms_without_key
  ensure (not (blank c.audit.audit_pseudonym_key_version)) no_key_version

abbrev pub check_surfaces : (Text → Bool) → Config → Result ConfigError (Unit {0})
check_surfaces is_file c = do
  ensure (not (lists_without_authority c.tls.public_tls)) allow_without_authority
  ensure (is_some c.surfaces.public_http_addr) no_public_address
  check_address public_surface c.surfaces.public_http_addr
  check_address telemetry_surface c.surfaces.telemetry_addr
  check_address admin_surface c.surfaces.admin_addr
  check_issuer c.general.development_mode c.surfaces.issuer
  ensure
      (is_empty_text c.surfaces.public_path_prefix
        || starts_with (codes "/") c.surfaces.public_path_prefix)
      prefix_without_slash
  validate_surface is_file (working_dir c) public_surface c.tls.public_tls
  validate_surface is_file (working_dir c) admin_surface c.tls.admin_tls
  validate_surface is_file (working_dir c) telemetry_surface c.tls.telemetry_tls

module _ (is_file : Text → Bool) where
  unfoldable pub validate : Config → Result ConfigError (Unit {0})
  validate c = do
    check_surfaces is_file c
    validate_development c
    validate_admin_access c
    validate_key_lifecycle c
    validate_realms c.general.development_mode c.realms
    unless_not c.audit.audit_pseudonym_enabled (check_pseudonyms c)
