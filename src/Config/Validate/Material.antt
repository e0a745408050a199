-- ===== src/Config/Validate/Material.antt =====
-- The TLS material of a surface, its paths and the check that its files are there (crates/pic-x-core/src/tls.rs).
-- Whether a path names a file is a parameter.
use pic_x.Base.{
  Text, codes, Option, none, some, Bool, true, false, not, ◌&&◌, ◌||◌, ◌++◌, if◌then◌else◌, [], ◌∷◌,
  starts_with, is_empty_text, ◌==◌, Result, ok, err,
}
use pic_x.Base.Fallible.{◌>>◌, ensure}
use pic_x.Keys.{Duration}
use pic_x.Config.State.{TlsSettings}
use pic_x.Config.Validate.{
  ConfigError, Surface, TlsError, list_without_authority, not_a_file, bad_material,
}

abbrev pub is_some {ℓ} : {A : Type ℓ} → Option A → Bool
is_some none = false
is_some (some _) = true

unfoldable pub ends_with_slash : Text → Bool
ends_with_slash [] = false
ends_with_slash (c ∷ []) = c == b'/'
ends_with_slash (c ∷ d ∷ s) = ends_with_slash (d ∷ s)

-- `Path::is_absolute` and `Path::join`, where paths are separated by slashes.
abbrev pub is_absolute : Text → Bool
is_absolute path = starts_with (codes "/") path

abbrev pub join : Text → Text → Text
join dir path =
    if is_absolute path
    then path
    else if is_empty_text dir || ends_with_slash dir
    then dir ++ path
    else dir ++ codes "/" ++ path

abbrev pub resolve_path : Text → Text → Text
resolve_path working_dir path = if is_absolute path then path else join working_dir path

abbrev resolve_option : Text → Option Text → Option Text
resolve_option working_dir none = none
resolve_option working_dir (some path) = some (resolve_path working_dir path)

unfoldable pub resolved_in : TlsSettings → Text → TlsSettings
resolved_in tls working_dir = record tls {
  certificate = resolve_path working_dir tls.certificate;
  key = resolve_path working_dir tls.key;
  client_ca = resolve_option working_dir tls.client_ca;
  crl = resolve_option working_dir tls.crl;
}

abbrev pub is_mutual : TlsSettings → Bool
is_mutual tls = is_some tls.client_ca

-- `Config::resolved_tls`
unfoldable pub resolved_tls : Bool → Duration → Text → Option TlsSettings → Option TlsSettings
resolved_tls reload interval working_dir none = none
resolved_tls reload interval working_dir (some tls) =
    some (record (resolved_in tls working_dir) { reload = if reload then some interval else none })

module _ (is_file : Text → Bool) where
  abbrev require_file : Text → Option Text → Result TlsError (Unit {0})
  require_file working_dir none = ok tt
  require_file working_dir (some path) = ensure (is_file (resolve_path working_dir path)) not_a_file

  unfoldable pub validate_in : TlsSettings → Text → Result TlsError (Unit {0})
  validate_in tls working_dir = do
    ensure (not (is_some tls.crl && not (is_some tls.client_ca))) list_without_authority
    require_file working_dir (some tls.certificate)
    require_file working_dir (some tls.key)
    require_file working_dir tls.client_ca
    require_file working_dir tls.crl

  abbrev with_surface : Surface → Result TlsError (Unit {0}) → Result ConfigError (Unit {0})
  with_surface surface (ok _) = ok tt
  with_surface surface (err e) = err (bad_material surface e)

  abbrev pub validate_surface : Text → Surface → Option TlsSettings → Result ConfigError (Unit {0})
  validate_surface working_dir surface none = ok tt
  validate_surface working_dir surface (some tls) =
      with_surface surface (validate_in tls working_dir)
