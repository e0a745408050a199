-- ===== src/Config/Paths.antt =====
-- Where a deployment keeps things (crates/pic-x-core/src/config.rs), under its working directory.
use pic_x.Base.{Text, codes, ◌++◌}
use pic_x.Config.State.{Config}
use pic_x.Config.Resolve.{unwrap_or}
use pic_x.Config.Validate.Material.{resolve_path}
use pic_x.Config.Validate.Whole.{working_dir}

abbrev pub secrets_directory : Config → Text
secrets_directory c =
    resolve_path (working_dir c)
      (unwrap_or c.secrets.secrets_directory (codes "operations/secrets"))

abbrev pub audit_directory : Config → Text
audit_directory c =
    resolve_path (working_dir c) (unwrap_or c.audit.audit_directory (codes "operations/audit"))

abbrev pub keys_directory : Config → Text
keys_directory c =
    resolve_path (working_dir c) (unwrap_or c.keys.keys_directory (codes "operations/keys"))

abbrev in_realm : Text → Text → Text
in_realm realm rest = codes "realms/" ++ realm ++ rest

abbrev pub realm_keys_directory : Config → Text → Text
realm_keys_directory c realm =
    resolve_path (working_dir c) (in_realm realm (codes "/operations/keys"))

abbrev pub realm_token_keys_directory : Config → Text → Text
realm_token_keys_directory c realm = resolve_path (working_dir c) (in_realm realm (codes "/keys"))

abbrev pub realm_audit_directory : Config → Text → Text
realm_audit_directory c realm =
    resolve_path (working_dir c) (in_realm realm (codes "/operations/audit"))

abbrev pub realm_secrets_directory : Config → Text → Text
realm_secrets_directory c realm =
    resolve_path (working_dir c) (in_realm realm (codes "/operations/secrets"))
