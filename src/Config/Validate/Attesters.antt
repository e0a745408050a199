-- ===== src/Config/Validate/Attesters.antt =====
-- The attesters that a realm trusts (`validate_trusted_attesters`, crates/pic-x-core/src/config.rs).
use pic_x.Base.{
  Text, codes, List, [], ◌∷◌, Bool, true, false, not, has_text, trim, is_empty_text, Result, ok,
}
use pic_x.Base.Fallible.{◌>>◌, ensure}
use pic_x.Config.Realm.{TrustedAttesterConfig}
use pic_x.Config.Validate.{
  ConfigError, no_attester_id, attester_twice, no_issuer, no_jwks_uri, no_proof_types,
  no_sd_jwt_proof, no_formats, no_sd_jwt_format, bad_attester, attester_issuer, attester_jwks_uri,
  require_public_https,
}

abbrev pub is_nil {ℓ} : {A : Type ℓ} → List A → Bool
is_nil [] = true
is_nil (_ ∷ _) = false

abbrev pub blank : Text → Bool
blank s = is_empty_text (trim s)

module _ (development : Bool) (realm : Text) where
  abbrev check_attester : List Text → Text → TrustedAttesterConfig → Result ConfigError (Unit {0})
  check_attester seen id a = do
    ensure (not (is_empty_text id)) (bad_attester realm id no_attester_id)
    ensure (not (has_text seen id)) (bad_attester realm id attester_twice)
    ensure (not (blank a.issuer)) (bad_attester realm id no_issuer)
    ensure (not (blank a.jwks_uri)) (bad_attester realm id no_jwks_uri)
    require_public_https development (attester_issuer id realm) a.issuer
    require_public_https development (attester_jwks_uri id realm) a.jwks_uri
    ensure (not (is_nil a.proof_types)) (bad_attester realm id no_proof_types)
    ensure (has_text a.proof_types (codes "sd-jwt")) (bad_attester realm id no_sd_jwt_proof)
    ensure (not (is_nil a.formats)) (bad_attester realm id no_formats)
    ensure (has_text a.formats (codes "sd-jwt")) (bad_attester realm id no_sd_jwt_format)

  unfoldable pub check_attesters :
      List Text → List TrustedAttesterConfig → Result ConfigError (Unit {0})
  check_attesters seen [] = ok tt
  check_attesters seen (a ∷ rest) = do
    check_attester seen (trim a.id) a
    check_attesters (trim a.id ∷ seen) rest

  unfoldable pub validate_trusted_attesters :
      List TrustedAttesterConfig → Result ConfigError (Unit {0})
  validate_trusted_attesters attesters = check_attesters [] attesters
