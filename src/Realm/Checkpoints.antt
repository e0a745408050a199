-- ===== src/Realm/Checkpoints.antt =====
-- crates/pic-x-realm/src/checkpoints.rs: which checkpoints a realm takes as its own. What the pic crate
-- makes of an envelope and of a key is a parameter, and so is what the key ring publishes.
pub mod Vouched
use pic_x.Base.{Text, codes, Option, none, some, List, Bool, true, false, any, retain, text_eq}
use pic_x.Keys.Published.{Jwk}
use pic_x.Json.{Value, null, text, object, end, field}
use pic_x.Realm.Profile.{Bytes}

-- The envelope of a checkpoint, and verification under a key.
pub record Envelopes : Type 1 where
  pub Cose : Type 0
  pub Key : Type 0
  pub from_bytes : Bytes → Option Cose
  pub kid : Cose → Option Text
  pub public_key_from_jwk : Value → Option Key
  pub verify_with : Cose → Key → Bool

abbrev text_or_null : Option Text → Value
text_or_null none = null
text_or_null (some t) = text t

-- `json!({"kty": ..., "crv": ..., "x": ..., "y": ...})`
abbrev pub bare_key : Jwk → Value
bare_key jwk = object (
    field (codes "kty") (text jwk.kty) (
      field (codes "crv") (text_or_null jwk.crv)
        (field (codes "x") (text jwk.x) (field (codes "y") (text_or_null jwk.y) end))))

-- The envelope's name is this key's, if it has one.
abbrev pub is_named : Option Text → Jwk → Bool
is_named none jwk = true
is_named (some kid) jwk = text_eq jwk.kid kid

module _ (envelopes : Envelopes) where
  open envelopes use {Cose, Key, from_bytes, kid, public_key_from_jwk, verify_with}

  abbrev pub verified : Cose → Option Key → Bool
  verified cose none = false
  verified cose (some key) = verify_with cose key

  abbrev pub verifies : Cose → Jwk → Bool
  verifies cose jwk = verified cose (public_key_from_jwk (bare_key jwk))

  abbrev pub is_signed_by : Option Cose → Option (List Jwk) → Bool
  is_signed_by none published = false
  is_signed_by (some cose) none = false
  is_signed_by (some cose) (some published) =
      any (verifies cose) (retain (is_named (kid cose)) published)

  -- `RealmSignedCheckpoints`, by what its ring publishes, if the ring answers.
  unfoldable pub is_current_checkpoint : Option (List Jwk) → Bytes → Bool
  is_current_checkpoint published exact_pca_bytes =
      is_signed_by (from_bytes exact_pca_bytes) published
