-- ===== src/Realm/Exchange/Tests.antt =====
-- An exchange where the other crates' place is taken by functions that read every text as itself, every
-- document as one claim set, and take every signature.
use pic_x.Base.{
  arith, ℕ, ◌≡◌, refl, ◌≢◌, ◌↔◌, if◌then◌else◌, Text, codes, Option, none, some, List, [], ◌∷◌,
  true, false, All, any, find, has_text, lookup, retain, split, split_at, split_once_at, text_eq,
  ok,
}
use pic_x.Base.Int.{pos, ◌+ℤ◌}
use pic_x.Keys.{Duration}
use pic_x.Keys.Encoding.{base64url}
use pic_x.Json.{Value, text, object, number, end, field, get_field, items}
use pic_x.Realm.Profile.{Bytes, Crates}
use pic_x.Realm.Profile.Validate.{verification_key_from_jwk}
use pic_x.Realm.Exchange.{percent_bytes, percent_decode, add_pairs, parse_form, require}
use pic_x.Realm.Exchange.Escapes.{escaped, percent_bytes-escaped}
use pic_x.Realm.Exchange.Expiry.{later, checked_add, lifetime_of, proposal_expiry, initial_expiry}
use pic_x.Realm.Exchange.Expiry.Future.{IsGiven, initial_expiry-IsGiven}
use pic_x.Realm.Exchange.Source.{
  ExchangeProfileConfig, DecodedJwt, claim_along, decode, select_initial_profile,
  verify_source_signature, validate_source_jwt,
}
use pic_x.Realm.Exchange.Source.Accepted.{IsAccepted, validate_source_jwt_iff}
use pic_x.Realm.Exchange.Mapping.{
  Pattern, Invariant, map_scopes, map_entries, map_authority, render_from, place, first_match,
  emit_all, compile_rules, map_invariants,
}
use pic_x.Realm.Exchange.Mapping.Granted.{IsGranted, HasMatch, map_invariants-IsGranted}
use pic_x.Realm.Exchange.Endpoint.{Realm, PicCrate, World, record_event, exchange_initial, exchange}
use pic_x.Realm.Exchange.Endpoint.Recorded.{Records, exchange-Records}

percent_bytes-escaped_example : percent_bytes (escaped (104 ∷ 255 ∷ [])) ≡ ok (104 ∷ 255 ∷ [])
percent_bytes-escaped_example = percent_bytes-escaped (104 ∷ 255 ∷ []) (omega arith)

-- The claims of each document: a requested lifetime of an hour among them.
abbrev document : Value
document = object (
    field (codes "alg") (text (codes "ES256")) (
      field (codes "iss") (text (codes "idp")) (
        field (codes "aud") (text (codes "pic")) (
          field (codes "scope") (text (codes "read"))
            (field (codes "tokenLifetimeSeconds") (number (pos 3600)) end)))))

abbrev reading : Crates
reading = record {
  Key = ℕ;
  utf8 = λ b. some b;
  to_bytes = λ t. t;
  b64url_decode = λ t. some t;
  sha256_b64url = λ t. t;
  from_json = λ b. some document;
  public_key_from_jwk = λ j. some 0;
  rsa_verifier = λ b. 1;
  jose_algorithm = λ j. some (codes "ES256");
  verify = λ k d s. true;
}

abbrev a_month : Duration
a_month = record { secs = 2592000; nanos = 0 }

asked : initial_expiry reading (codes "proposal") none (pos 1000) a_month later ≡ ok (pos 4600)
unfolding initial_expiry proposal_expiry get_field text_eq lifetime_of checked_add ◌+ℤ◌
asked = refl

initial_expiry-IsGiven_example :
    IsGiven reading (codes "proposal") none (pos 1000) a_month later (pos 4600)
initial_expiry-IsGiven_example =
    initial_expiry-IsGiven reading (codes "proposal") none (pos 1000) a_month later (pos 4600) asked

abbrev profile : ExchangeProfileConfig
profile = record {
  id = codes "p";
  source = record {
    token_type = codes "oauth-access-token";
    format = codes "jwt";
    discovery_url = none;
    issuer = codes "idp";
    audience = codes "pic";
    validation = record {
      allowed_algorithms = codes "ES256" ∷ [];
      require_expiration = false;
      require_token_type = none;
    };
  };
  identity_context = [];
  scopes = record {
    from = some (codes "scope");
    value = none;
    value_type = some (codes "set");
    encoding = none;
  };
  privileges_source = codes "scopes";
  rules =
      record {
        name = codes "read";
        priority = pos 1;
        pattern = codes "read";
        emit = record {
          scope = codes "${raw}";
          operation = codes "get";
          resource_type = codes "doc";
          resource_id = codes "*";
        };
      }
      ∷ [];
  on_unmatched_scope = codes "reject";
}

abbrev jwt : DecodedJwt
jwt = record {
  header = document;
  payload = document;
  signing_input = codes "a.b";
  signature = codes "c";
}

abbrev published : Text → Option (List Value)
published id = some (object (field (codes "kid") (text (codes "k1")) end) ∷ [])

validate_source_jwt_iff_example :
    (validate_source_jwt reading published none jwt profile ≡ ok tt)
    ↔ IsAccepted reading published none jwt profile
validate_source_jwt_iff_example = validate_source_jwt_iff reading published none jwt profile

-- A pattern that matches itself.
abbrev literal : Text → Option Pattern
literal pattern = some (λ scope. if text_eq pattern scope then some (λ name. none) else none)

abbrev granted : Invariant
granted = record {
  scope = codes "read";
  operation = codes "get";
  resource_type = codes "doc";
  resource_id = codes "*";
}

mapped : map_invariants literal profile (codes "read" ∷ []) ≡ ok (granted ∷ [])
unfolding map_invariants compile_rules place emit_all first_match render_from text_eq any
mapped = refl

map_invariants-IsGranted_example :
    (granted ∷ [] ≢ [])
    × All (IsGranted literal profile.rules (codes "read" ∷ [])) (granted ∷ [])
    × (profile.on_unmatched_scope ≡ codes "reject"
        → All (HasMatch literal profile.rules) (codes "read" ∷ []))
map_invariants-IsGranted_example =
    map_invariants-IsGranted literal profile (codes "read" ∷ []) (granted ∷ []) mapped

abbrev pic : PicCrate
pic = record {
  Contract = Text;
  Authority = Text;
  Payload = Text;
  token_type = codes "pic";
  proposal_type = codes "initial";
  accepted_type = codes "sd-jwt";
  from_continuity_proposal = λ t. some t;
  from_logical = λ m c. some c;
  payload = λ a c l e. a;
  issue = λ k c p. some (record { token = codes "token"; position = 0; lineage_id = none });
  read_candidate = λ t. none;
  expected_algorithms = λ j. none;
  settle = λ k c t. none;
}

abbrev realm : Realm
realm = record {
  name = codes "r";
  mount_path = codes "/r";
  issuer = none;
  exchange_profiles = profile ∷ [];
  token_lifetime = a_month;
  token_initial_expiry_policy = later;
  token_signing_algorithm = codes "ES256";
  token_keys = some (some (codes "k"));
  attesters = [];
  attester_keys = λ t. none;
  idp_keys = published;
}

abbrev body : Bytes
body =
    codes
      "grant_type=urn:ietf:params:oauth:grant-type:token-exchange&subject_token_type=urn:ietf:params:oauth:token-type:access_token&subject_token=h.p.s&continuity_proposal=c"

abbrev world : World
world = record {
  clock = pos 900 ∷ pos 1000 ∷ [];
  random = codes "challenge" ∷ codes "lineage" ∷ [];
  outcomes = [];
  log = [];
}

-- The exchange of `body` ends with a token.
answers :
    (exchange reading pic literal realm body world).0
    ≡ ok (record { token = codes "token"; position = 0; lineage_id = none })
unfolding exchange parse_form add_pairs percent_decode percent_bytes require exchange_initial decode
    select_initial_profile validate_source_jwt verify_source_signature verification_key_from_jwk
    map_authority map_entries map_scopes map_invariants compile_rules place emit_all first_match
    render_from initial_expiry proposal_expiry lifetime_of checked_add record_event base64url
    claim_along get_field items text_eq has_text any find retain lookup split split_at split_once_at
    ◌+ℤ◌
answers = refl

exchange-Records_example : Records world (exchange reading pic literal realm body world)
exchange-Records_example = exchange-Records reading pic literal realm body world
