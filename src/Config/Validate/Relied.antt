-- ===== src/Config/Validate/Relied.antt =====
-- What the token endpoint may rely on in a profile that passed the check of a configuration.
use pic_x.Base.{
  arith, Text, codes, Option, none, some, List, [], ◌∷◌, In, All, All-In, Bool, true, false, not,
  ◌≡◌, refl, subst, has_text, is_empty_text, trim, ok,
}
use pic_x.Base.Fallible.{after, passed, refuted}
use pic_x.Base.Int.{ℤ}
use pic_x.Json.{Value}
use pic_x.Realm.Profile.{Crates}
use pic_x.Realm.Exchange.Source.{
  ExchangeProfileConfig, DecodedJwt, header_string, claim_at_path, validate_source_jwt,
}
use pic_x.Realm.Exchange.Source.Shown.{IsFresh, HasTokenType, IsAddressed}
use pic_x.Realm.Exchange.Source.Accepted.{validate_source_jwt_iff}
use pic_x.Config.Realm.{RealmConfig}
use pic_x.Config.State.{Config}
use pic_x.Config.Validate.Attesters.{blank}
use pic_x.Config.Validate.Profiles.{
  is_stated, check_profile, check_profiles, validate_exchange_profiles,
}
use pic_x.Config.Validate.Realms.{
  unless_not, check_realm_issuer, check_operations_ring, check_token_ring, check_realm_pseudonyms,
  check_realm,
}
use pic_x.Config.Validate.Unique.{IsUsable, validate-Differ}
use pic_x.Config.Validate.Whole.{validate}

-- The profile asks for an expiration, a type and an audience.
pub record IsStrict (profile : ExchangeProfileConfig) : Type 0 where
  pub audience : blank profile.source.audience ≡ false
  pub expiration : profile.source.validation.require_expiration ≡ true
  pub token_type : is_stated profile.source.validation.require_token_type ≡ true

double_negation : (b : Bool) → not (not b) ≡ true → b ≡ true
double_negation true h = refl
double_negation false h = cc

check_profile-IsStrict :
    (realm id : Text) (profile : ExchangeProfileConfig)
    → check_profile realm id profile ≡ ok tt
    → IsStrict profile
unfolding check_profile
check_profile-IsStrict realm id profile h = ground arith

check_profiles-All :
    (realm : Text) (seen : List Text) (profiles : List ExchangeProfileConfig)
    → check_profiles realm seen profiles ≡ ok tt
    → All IsStrict profiles
unfolding check_profiles
check_profiles-All realm seen [] h = tt
check_profiles-All realm seen (p ∷ rest) h =
    let (_, h1) = passed (not (is_empty_text (trim p.id))) _ _ h in
    let (_, h2) = passed (not (has_text seen (trim p.id))) _ _ h1 in
    let (c, h3) = after (check_profile realm (trim p.id) p) _ h2 in
    (
      check_profile-IsStrict realm (trim p.id) p c,
      check_profiles-All realm (trim p.id ∷ seen) rest h3,
    )

check_realm-IsStrict :
    (development : Bool) (r : RealmConfig)
    → check_realm development r ≡ ok tt
    → All IsStrict r.exchange_profiles
unfolding check_realm validate_exchange_profiles
check_realm-IsStrict development r h =
    let (_, h1) = after (check_realm_issuer development r r.issuer) _ h in
    let (_, h2) =
      after (unless_not r.operations_keys_enabled (check_operations_ring development r)) _ h1 in
    let (_, h3) = after (unless_not r.token_keys_enabled (check_token_ring development r)) _ h2 in
    let (_, h4) = after (unless_not r.audit_pseudonym_enabled (check_realm_pseudonyms r)) _ h3 in
    let (p, _) = after (validate_exchange_profiles r.name r.exchange_profiles) _ h4 in
    check_profiles-All r.name [] r.exchange_profiles p

-- The token is addressed to the profile's audience, which is not blank, has a type that is not blank,
-- and an expiration that is ahead of the clock.
abbrev pub IsBounded : ExchangeProfileConfig → Option ℤ → DecodedJwt → Type 0
IsBounded profile clock jwt =
    IsAddressed (claim_at_path jwt.payload (codes "aud")) profile.source.audience
    × (blank profile.source.audience ≡ false)
    × ((typ : Text) × (header_string jwt (codes "typ") ≡ some typ) × (blank typ ≡ false))
    × IsFresh true clock jwt

stated_type :
    (o : Option Text) (jwt : DecodedJwt)
    → is_stated o ≡ true
    → HasTokenType o jwt
    → (typ : Text) × (header_string jwt (codes "typ") ≡ some typ) × (blank typ ≡ false)
stated_type none jwt s h = cc
stated_type (some t) jwt s h = (t, h, refuted _ s)

module _ (is_file : Text → Bool) (crates : Crates) (keys_for : Text → Option (List Value)) where
  -- Where a configuration passed its check, a source token that the endpoint accepts under a
  -- profile of one of its realms is addressed to the profile's audience, which is not blank, has a
  -- type that is not blank, and an expiration that is ahead of the clock.
  pub validate-IsBounded :
      (c : Config) (r : RealmConfig) (profile : ExchangeProfileConfig) (clock : Option ℤ)
      (jwt : DecodedJwt)
      → validate is_file c ≡ ok tt
      → In r c.realms
      → In profile r.exchange_profiles
      → validate_source_jwt crates keys_for clock jwt profile ≡ ok tt
      → IsBounded profile clock jwt
  validate-IsBounded c r profile clock jwt v m n h =
      let usable = All-In (IsUsable c.general.development_mode) (validate-Differ is_file c v).1 m in
      let strict = All-In IsStrict (check_realm-IsStrict c.general.development_mode r usable.1) n in
      let accepted = (validate_source_jwt_iff crates keys_for clock jwt profile).0 h in
      (
        accepted.addressed,
        strict.audience,
        stated_type _ jwt strict.token_type accepted.typed,
        subst (λ b. IsFresh b clock jwt) strict.expiration accepted.fresh,
      )
