-- ===== src/Realm/Exchange/Source/Accepted.antt =====
-- What a source access token has shown when it is accepted.
use pic_x.Base.{
  arith, ◌≡◌, refl, ◌↔◌, inl, inr, Bool-cases, Option-cases, Text, codes, Option, some, List, [],
  ◌∷◌, In, Bool, true, false, text_eq_refl, has_text, retain, any, any-In, In-any, In-retain,
  In-retain_inv, ok,
}
use pic_x.Base.Fallible.{ensure, ok_or, ok_or-ok, ensure-ok, through}
use pic_x.Base.Int.{ℤ}
use pic_x.Json.{Value}
use pic_x.Realm.Profile.{Crates}
use pic_x.Realm.Profile.Validate.{is_candidate, verification_key_from_jwk}
use pic_x.Realm.Exchange.{invalid_grant}
use pic_x.Realm.Exchange.Source.{
  ExchangeProfileConfig, DecodedJwt, claim_at_path, header_string, claim_string, is_exactly,
  audience_contains, check_token_type, check_expiration, is_empty, serves, signed_by,
  verify_source_signature, validate_source_jwt,
}
use pic_x.Realm.Exchange.Source.Shown.{
  IsFresh, HasTokenType, IsAddressed, IsNamed, IsFor, has_text-In, In-has_text, is_exactly-some,
  is_audience-IsAddressed, IsAddressed-is_audience, is_candidate_iff, serves_iff,
  check_token_type-ok, check_expiration-ok, HasTokenType-check_token_type, IsFresh-check_expiration,
}

-- A published key of the profile's provider that may have signed the token did.
pub record IsSigned (crates : Crates) (keys_for : Text → Option (List Value)) (jwt : DecodedJwt)
    (profile : ExchangeProfileConfig) (alg : Text) : Type 0 where
  pub published : List Value
  pub served : keys_for profile.id ≡ some published
  pub jwk : Value
  pub among : In jwk published
  pub is_named : IsNamed (header_string jwt (codes "kid")) jwk
  pub is_for : IsFor alg jwk
  pub key : crates.Key
  pub is_key : verification_key_from_jwk crates jwk ≡ some key
  pub verified : crates.verify key (crates.to_bytes jwt.signing_input) jwt.signature ≡ true

pub record IsAccepted (crates : Crates) (keys_for : Text → Option (List Value)) (clock : Option ℤ)
    (jwt : DecodedJwt) (profile : ExchangeProfileConfig) : Type 0 where
  pub alg : Text
  pub named : header_string jwt (codes "alg") ≡ some alg
  pub allowed : In alg profile.source.validation.allowed_algorithms
  pub typed : HasTokenType profile.source.validation.require_token_type jwt
  pub issued : claim_string jwt (codes "iss") ≡ some profile.source.issuer
  pub addressed : IsAddressed (claim_at_path jwt.payload (codes "aud")) profile.source.audience
  pub fresh : IsFresh profile.source.validation.require_expiration clock jwt
  pub signed : IsSigned crates keys_for jwt profile alg

any-is_empty : {A : Type 0} (f : A → Bool) (l : List A) → any f l ≡ true → is_empty l ≡ false
unfolding any
any-is_empty f [] h = cc
any-is_empty f (x ∷ l) h = refl

module _ (crates : Crates) (keys_for : Text → Option (List Value)) (clock : Option ℤ)
    (jwt : DecodedJwt) (profile : ExchangeProfileConfig) where
  -- The search that the check of the signature is.
  searched :
      (alg : Text)
      → header_string jwt (codes "alg") ≡ some alg
      → verify_source_signature crates keys_for jwt profile ≡ ok tt
      → (published : List Value) × (keys_for profile.id ≡ some published)
        × (any
              (signed_by crates jwt alg)
              (retain (is_candidate crates (header_string jwt (codes "kid"))) published)
            ≡ true)
  unfolding verify_source_signature
  searched alg n h = ground arith

  signed_by_iff :
      (alg : Text) (jwk : Value)
      → (signed_by crates jwt alg jwk ≡ true) ↔ (
          IsFor alg jwk
          × (key : crates.Key) × (verification_key_from_jwk crates jwk ≡ some key)
          × (crates.verify key (crates.to_bytes jwt.signing_input) jwt.signature ≡ true))
  signed_by_iff alg jwk = elim (Bool-cases (serves alg jwk)) [
    | inl s ↦ elim (Option-cases (verification_key_from_jwk crates jwk)) [
      | inl n ↦ ((λ h. cc (rw (s, n) at h)), λ (f, key, e, v). cc)
      | inr (key, k) ↦ (
        (λ h. ((serves_iff alg jwk).0 s, key, k, rw (s, k) at h)),
        λ (f, key', e, v). let is : key ≡ key' = cc in rw (s, k, is) v,
      )
    ]
    | inr s ↦ ((λ h. cc (rw s at h)), λ (f, key, e, v). let t = (serves_iff alg jwk).1 f in cc)
  ]

  verify_source_signature-ok :
      (alg : Text)
      → header_string jwt (codes "alg") ≡ some alg
      → verify_source_signature crates keys_for jwt profile ≡ ok tt
      → IsSigned crates keys_for jwt profile alg
  unfolding verify_source_signature
  verify_source_signature-ok alg n h =
      let fits = is_candidate crates (header_string jwt (codes "kid")) in
      let (published, served, found) = searched alg n h in
      let (jwk, m, s) = any-In (signed_by crates jwt alg) (retain fits published) found in
      let (among, fit) = In-retain_inv fits published m in
      let (is_for, key, is_key, verified) = (signed_by_iff alg jwk).0 s in
      record {
        published = published;
        served = served;
        jwk = jwk;
        among = among;
        is_named = (is_candidate_iff crates (header_string jwt (codes "kid")) jwk).0 fit;
        is_for = is_for;
        key = key;
        is_key = is_key;
        verified = verified;
      }

  IsSigned-verify_source_signature :
      (alg : Text)
      → header_string jwt (codes "alg") ≡ some alg
      → IsSigned crates keys_for jwt profile alg
      → verify_source_signature crates keys_for jwt profile ≡ ok tt
  unfolding verify_source_signature
  IsSigned-verify_source_signature alg n i =
      let kid = header_string jwt (codes "kid") in
      let fit = (is_candidate_iff crates kid i.jwk).1 i.is_named in
      let signs = (signed_by_iff alg i.jwk).1 (i.is_for, i.key, i.is_key, i.verified) in
      let found =
        In-any (signed_by crates jwt alg) (In-retain (is_candidate crates kid) i.among fit) signs in
      rw (i.served, n, any-is_empty (signed_by crates jwt alg) _ found, found) refl

  validate_source_jwt-ok :
      validate_source_jwt crates keys_for clock jwt profile ≡ ok tt
      → IsAccepted crates keys_for clock jwt profile
  unfolding validate_source_jwt
  validate_source_jwt-ok h =
      let v = profile.source.validation in
      let (alg, a, h1) = through (ok_or (header_string jwt (codes "alg")) invalid_grant) _ h in
      let (_, b, h2) = through (ensure (has_text v.allowed_algorithms alg) invalid_grant) _ h1 in
      let (_, c, h3) = through (check_token_type v.require_token_type jwt) _ h2 in
      let (_, d, h4) =
        through
          (ensure (is_exactly (claim_string jwt (codes "iss")) profile.source.issuer) invalid_grant)
          _ h3 in
      let (_, e, h5) =
        through (ensure (audience_contains jwt profile.source.audience) invalid_grant) _ h4 in
      let (_, f, h6) = through (check_expiration v.require_expiration clock jwt) _ h5 in
      let n = ok_or-ok (header_string jwt (codes "alg")) invalid_grant a in
      record {
        alg = alg;
        named = n;
        allowed = has_text-In v.allowed_algorithms alg (ensure-ok _ invalid_grant b);
        typed = check_token_type-ok v.require_token_type jwt c;
        issued =
            is_exactly-some (claim_string jwt (codes "iss")) profile.source.issuer
              (ensure-ok _ invalid_grant d);
        addressed = is_audience-IsAddressed _ profile.source.audience (ensure-ok _ invalid_grant e);
        fresh = check_expiration-ok v.require_expiration clock jwt f;
        signed = verify_source_signature-ok alg n h6;
      }

  IsAccepted-validate_source_jwt :
      IsAccepted crates keys_for clock jwt profile
      → validate_source_jwt crates keys_for clock jwt profile ≡ ok tt
  unfolding validate_source_jwt
  IsAccepted-validate_source_jwt i =
      let v = profile.source.validation in
      rw
        (
          i.named,
          In-has_text i.allowed,
          HasTokenType-check_token_type v.require_token_type jwt i.typed,
          i.issued,
          text_eq_refl profile.source.issuer,
          IsAddressed-is_audience _ profile.source.audience i.addressed,
          IsFresh-check_expiration v.require_expiration clock jwt i.fresh,
        )
        (IsSigned-verify_source_signature i.alg i.named i.signed)

  -- The check of a source token passes exactly when its header names an algorithm that the profile
  -- lists; its type, where one is required, and its issuer are the profile's; its audience is the
  -- profile's, or an array that has it; its expiration, where one is required, is after the time of
  -- the clock; and a published key of the profile's provider, which bears the name that the header
  -- gives, if it gives one, and states no algorithm but the header's, is readable and verifies the
  -- signature.
  pub validate_source_jwt_iff :
      (validate_source_jwt crates keys_for clock jwt profile ≡ ok tt)
      ↔ IsAccepted crates keys_for clock jwt profile
  validate_source_jwt_iff = (validate_source_jwt-ok, IsAccepted-validate_source_jwt)
