-- ===== src/Keys/Published.antt =====
-- What a key ring publishes: `Jwk` of crates/pic-x-core/src/keys.rs, and the forms of an entry that
-- crates/pic-x-std/src/keys.rs derives from its public half.
use pic_x.Base.{
  Text, codes, Option, none, some, [], ◌++◌, ◌==◌, if◌then◌else◌, length, drop, take, get_or, ◌&&◌,
}
use pic_x.Keys.{RingAlgorithm, ed25519, es256, Entry}
use pic_x.Keys.Encoding.{base64url, from_base64url}

-- `Jwk`
pub record Jwk : Type 0 where
  pub kid : Text
  pub kty : Text
  pub crv : Option Text
  pub x : Text
  pub y : Option Text
  pub alg : Text
  pub usage : Text

abbrev pub jose : RingAlgorithm → Text
jose ed25519 = codes "EdDSA"
jose es256 = codes "ES256"

abbrev pub curve : RingAlgorithm → Text
curve ed25519 = codes "Ed25519"
curve es256 = codes "P-256"

abbrev pub okp : Text → Text → Text → Text → Jwk
okp kid crv alg x = record {
  kid = kid;
  kty = codes "OKP";
  crv = some crv;
  x = x;
  y = none;
  alg = alg;
  usage = codes "sig";
}

abbrev pub ec : Text → Text → Text → Text → Text → Jwk
ec kid crv alg x y = record {
  kid = kid;
  kty = codes "EC";
  crv = some crv;
  x = x;
  y = some y;
  alg = alg;
  usage = codes "sig";
}

-- The two coordinates of `0x04 || x || y`, empty where the point has another shape.
unfoldable pub split_p256_point : Text → Text × Text
unfolding base64url from_base64url
split_p256_point public_key = elim (from_base64url public_key) [
  | none ↦ ([], [])
  | some point ↦
      if (length point == 65) && (get_or point 0 0 == 4)
      then (base64url (take 32 (drop 1 point)), base64url (take 32 (drop 33 point)))
      else ([], [])
]

unfoldable pub to_jwk : Entry → Jwk
unfolding split_p256_point
to_jwk e = elim e.algorithm [
  | ed25519 ↦ okp e.kid (curve ed25519) (jose ed25519) e.public_key
  | es256 ↦
      let point = split_p256_point e.public_key in
      ec e.kid (curve es256) (jose es256) point.0 point.1
]

-- The RFC 7638 form that is hashed: the required members in order, with no white space.
unfoldable pub canonical : RingAlgorithm → Text → Text
unfolding split_p256_point
canonical ed25519 public_key =
    codes "{\"crv\":\""
    ++ curve ed25519
    ++ codes "\",\"kty\":\"OKP\",\"x\":\""
    ++ public_key
    ++ codes "\"}"
canonical es256 public_key =
    let point = split_p256_point public_key in
    codes "{\"crv\":\""
    ++ curve es256
    ++ codes "\",\"kty\":\"EC\",\"x\":\""
    ++ point.0
    ++ codes "\",\"y\":\""
    ++ point.1
    ++ codes "\"}"
