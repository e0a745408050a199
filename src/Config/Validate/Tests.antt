-- ===== src/Config/Validate/Tests.antt =====
-- The check of a configuration on a deployment with two realms.
use pic_x.Base.{
  ℕ, lookup, split, split_at, Text, codes, Option, some, List, [], ◌∷◌, ◌≡◌, refl, here, true, any,
  starts_with, has_text, text_eq, ok, trim_start, trim_end, strip_last, digits_from,
  trim_end_matches, trim_start_matches, retain,
}
use pic_x.Peer.{matches, is_allowed_by}
use pic_x.Admin.{permits}
use pic_x.Admin
use pic_x.Base.Int.{pos}
use pic_x.Json.{Value, text, object, number, end, field, get_field, items}
use pic_x.Realm.Profile.{Crates}
use pic_x.Realm.Profile.Validate.{verification_key_from_jwk}
use pic_x.Realm.Exchange.Source.{
  DecodedJwt, claim_along, verify_source_signature, validate_source_jwt,
}
use pic_x.Config.Validate.Relied.{IsBounded, validate-IsBounded}
use pic_x.Config.Realm.{RealmConfig}
use pic_x.Config.Parse.{
  collect, parse_bool, parse_duration, parse_duration_allow_zero, named, is_loopback, rsplit_host,
}
use pic_x.Config.Resolve.{inherited, require_token, signing_algorithm, resolve_realm, with_realms}
use pic_x.Config.Deployed.{deployed, valid}
use pic_x.Config.Fixture.{every_file, operator, profile}
use pic_x.Config.Validate.Whole.{is_mutual_tls}
use pic_x.Config.Validate.Overlap.{RingsOverlap, validate-RingsOverlap}
use pic_x.Config.Validate.Guarded.{IsNamed, policy_for, validate-Guarded}

validate-RingsOverlap_example : RingsOverlap deployed
validate-RingsOverlap_example = validate-RingsOverlap every_file deployed valid

validate-Guarded_example :
    (is_mutual_tls deployed.tls.admin_tls ≡ true)
    × IsNamed deployed.surfaces.admin_allow (some operator)
unfolding is_loopback rsplit_host starts_with text_eq trim_start trim_end trim_end_matches
    trim_start_matches permits policy_for Admin.new matches is_allowed_by any with_realms
    resolve_realm inherited require_token signing_algorithm collect parse_bool parse_duration
    parse_duration_allow_zero named has_text strip_last digits_from
validate-Guarded_example =
    validate-Guarded (Unit {0}) (Unit {0}) every_file deployed (codes "10.0.0.1:9443")
      (some operator) valid refl refl refl refl

-- A token of the profile's provider, with functions in place of the other crates.
abbrev document : Value
document = object (
    field (codes "alg") (text (codes "ES256")) (
      field (codes "typ") (text (codes "at+jwt")) (
        field (codes "iss") (text (codes "idp"))
          (field (codes "aud") (text (codes "pic")) (field (codes "exp") (number (pos 100)) end)))))

abbrev lenient : Crates
lenient = record {
  Key = ℕ;
  utf8 = λ b. some b;
  to_bytes = λ t. t;
  b64url_decode = λ t. some t;
  sha256_b64url = λ t. t;
  from_json = λ b. some document;
  public_key_from_jwk = λ j. some 0;
  rsa_verifier = λ b. 1;
  jose_algorithm = λ j. some (codes "ES256");
  verify = λ k d s. true;
}

abbrev token : DecodedJwt
token = record {
  header = document;
  payload = document;
  signing_input = codes "a.b";
  signature = codes "c";
}

abbrev provider : Text → Option (List Value)
provider id = some (object (field (codes "kid") (text (codes "k1")) end) ∷ [])

abbrev first_realm : List RealmConfig → RealmConfig → RealmConfig
first_realm [] r = r
first_realm (x ∷ l) r = x

accepted : validate_source_jwt lenient provider (some (pos 50)) token profile ≡ ok tt
unfolding validate_source_jwt verify_source_signature verification_key_from_jwk claim_along
    get_field items text_eq has_text any retain lookup split split_at
accepted = refl

validate-IsBounded_example : IsBounded profile (some (pos 50)) token
unfolding with_realms resolve_realm inherited require_token signing_algorithm collect parse_bool
    parse_duration parse_duration_allow_zero named has_text text_eq trim_start trim_end strip_last
    digits_from
validate-IsBounded_example =
    validate-IsBounded every_file lenient provider deployed _ profile (some (pos 50)) token valid
      here here accepted
