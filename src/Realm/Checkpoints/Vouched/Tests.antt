-- ===== src/Realm/Checkpoints/Vouched/Tests.antt =====
-- A checkpoint that names a published key.
use pic_x.Base.{ℕ, ◌≡◌, ◌↔◌, Text, codes, none, some, [], ◌∷◌, true}
use pic_x.Keys.Published.{Jwk}
use pic_x.Realm.Checkpoints.{Envelopes, is_current_checkpoint}
use pic_x.Realm.Checkpoints.Vouched.{IsVouched, is_current_checkpoint_iff}

-- An envelope is the name of its key.
abbrev by_name : Envelopes
by_name = record {
  Cose = Text;
  Key = ℕ;
  from_bytes = λ b. some b;
  kid = λ c. some c;
  public_key_from_jwk = λ v. some 7;
  verify_with = λ c k. true;
}

abbrev a_key : Jwk
a_key = record {
  kid = codes "k1";
  kty = codes "OKP";
  crv = some (codes "Ed25519");
  x = codes "x";
  y = none;
  alg = codes "EdDSA";
  usage = codes "sig";
}

is_current_checkpoint_iff_example :
    (is_current_checkpoint by_name (some (a_key ∷ [])) (codes "k1") ≡ true)
    ↔ IsVouched by_name (some (a_key ∷ [])) (codes "k1")
is_current_checkpoint_iff_example =
    is_current_checkpoint_iff by_name (some (a_key ∷ [])) (codes "k1")
