-- ===== src/Realm/Exchange/Source/Shown.antt =====
-- What each check of a source access token asks of it, in a description that does not run.
use pic_x.Base.{
  arith, ◌≡◌, refl, sym, ◌∙◌, ap, subst, ◌↔◌, inl, inr, Bool-cases, Text, codes, Option, none, some,
  List, [], ◌∷◌, In, here, there, Bool, true, false, text_eq, text_eq_sound, text_eq_refl, has_text,
  any-In, In-any, ok,
}
use pic_x.Base.Fallible.{ok_or, ok_or-ok, ensure-ok, through}
use pic_x.Base.Int.{ℤ, pos, ◌+ℤ◌, ◌≤ℤ◌, ltb_ℤ}
use pic_x.Json.{Value, null, boolean, number, other_number, text, array, object, items, as_str}
use pic_x.Realm.Conformance.Decides.{Carries, scalar, element}
use pic_x.Realm.Profile.{Crates, get_str}
use pic_x.Realm.Profile.Validate.{is_candidate}
use pic_x.Realm.Exchange.{invalid_grant, server_error}
use pic_x.Realm.Exchange.Source.{
  DecodedJwt, header_string, claim_i64, is_exactly, is_audience, check_token_type, check_expiration,
  serves,
}

-- The clock is before the expiration, if one is required.
abbrev pub IsFresh : Bool → Option ℤ → DecodedJwt → Type 0
IsFresh false clock jwt = Unit {0}
IsFresh true clock jwt =
    (exp : ℤ) × (now : ℤ) × (claim_i64 jwt (codes "exp") ≡ some exp)
    × (clock ≡ some now)
    × (now +ℤ pos 1 ≤ℤ exp)

abbrev pub HasTokenType : Option Text → DecodedJwt → Type 0
HasTokenType none jwt = Unit {0}
HasTokenType (some required) jwt = header_string jwt (codes "typ") ≡ some required

-- The audience of the token is the expected one, or an array that has it.
abbrev pub IsAddressed : Option Value → Text → Type 0
IsAddressed o expected = (aud : Value) × (o ≡ some aud) × Carries expected aud

-- A published key bears the name that the token asks for, if it asks for one, and states no algorithm
-- but the token's.
abbrev pub IsNamed : Option Text → Value → Type 0
IsNamed kid jwk = (wanted : Text) → kid ≡ some wanted → get_str jwk (codes "kid") ≡ some wanted

abbrev pub IsFor : Text → Value → Type 0
IsFor alg jwk = (stated : Text) → get_str jwk (codes "alg") ≡ some stated → stated ≡ alg

pub has_text-In : (l : List Text) (t : Text) → has_text l t ≡ true → In t l
unfolding has_text
has_text-In [] t h = cc
has_text-In (s ∷ l) t h = elim (Bool-cases (text_eq s t)) [
  | inl p ↦ subst (λ z. In t (z ∷ l)) (sym (text_eq_sound s t p)) here
  | inr p ↦ there (has_text-In l t (rw p at h))
]

pub In-has_text : {t : Text} {l : List Text} → In t l → has_text l t ≡ true
unfolding has_text
In-has_text {t = t} here = rw (text_eq_refl t) refl
In-has_text (there m) = ground (arith, In-has_text m)

is_exactly_text :
    (wanted : Text) (v : Value) → is_exactly (as_str v) wanted ≡ true → v ≡ text wanted
is_exactly_text wanted (text s) h = ap text (text_eq_sound s wanted h)
is_exactly_text wanted null h = cc
is_exactly_text wanted (boolean b) h = cc
is_exactly_text wanted (number n) h = cc
is_exactly_text wanted (other_number t) h = cc
is_exactly_text wanted (array a) h = cc
is_exactly_text wanted (object o) h = cc

pub is_audience-IsAddressed :
    (o : Option Value) (expected : Text) → is_audience o expected ≡ true → IsAddressed o expected
is_audience-IsAddressed none expected h = cc
is_audience-IsAddressed (some (text t)) expected h =
    let e = text_eq_sound t expected h in
    (text t, refl, subst (λ z. Carries expected (text z)) (sym e) scalar)
is_audience-IsAddressed (some (array vs)) expected h =
    let (v, m, p) = any-In (λ v. is_exactly (as_str v) expected) (items vs) h in
    (array vs, refl, element (subst (λ z. In z (items vs)) (is_exactly_text expected v p) m))
is_audience-IsAddressed (some null) expected h = cc
is_audience-IsAddressed (some (boolean b)) expected h = cc
is_audience-IsAddressed (some (number n)) expected h = cc
is_audience-IsAddressed (some (other_number t)) expected h = cc
is_audience-IsAddressed (some (object fs)) expected h = cc

carried : (v : Value) (expected : Text) → Carries expected v → is_audience (some v) expected ≡ true
carried _ expected scalar = text_eq_refl expected
carried _ expected (element m) =
    In-any (λ v. is_exactly (as_str v) expected) m (text_eq_refl expected)

pub IsAddressed-is_audience :
    (o : Option Value) (expected : Text) → IsAddressed o expected → is_audience o expected ≡ true
IsAddressed-is_audience o expected (v, e, c) = rw e (carried v expected c)

pub is_candidate_iff :
    (crates : Crates) (kid : Option Text) (jwk : Value)
    → (is_candidate crates kid jwk ≡ true) ↔ IsNamed kid jwk
is_candidate_iff crates none jwk = ((λ h wanted e. cc), λ n. refl)
is_candidate_iff crates (some kid) jwk = (
  (λ h wanted e. named kid (get_str jwk (codes "kid")) h ∙ e),
  λ n. rw (is_candidate, n kid refl) (text_eq_refl kid),
)
  where
    named :
        (kid : Text) (o : Option Text)
        → elim o as (λ x. Bool) [ none ↦ false | some k ↦ text_eq k kid ] ≡ true
        → o ≡ some kid
    named kid none h = cc
    named kid (some k) h = ap some (text_eq_sound k kid h)

pub serves_iff : (alg : Text) (jwk : Value) → (serves alg jwk ≡ true) ↔ IsFor alg jwk
serves_iff alg jwk = at (get_str jwk (codes "alg"))
  where
    at :
        (o : Option Text)
        → (elim o as (λ x. Bool) [ none ↦ true | some k ↦ text_eq k alg ] ≡ true)
          ↔ ((stated : Text) → o ≡ some stated → stated ≡ alg)
    at none = ((λ h stated e. cc), λ n. refl)
    at (some k) =
        ((λ h stated e. let q = text_eq_sound k alg h in cc), λ n. rw (n k refl) (text_eq_refl alg))

pub is_exactly-some : (o : Option Text) (t : Text) → is_exactly o t ≡ true → o ≡ some t
is_exactly-some none t h = cc
is_exactly-some (some s) t h = let e = text_eq_sound s t h in cc

pub check_token_type-ok :
    (o : Option Text) (jwt : DecodedJwt) → check_token_type o jwt ≡ ok tt → HasTokenType o jwt
check_token_type-ok none jwt h = tt
check_token_type-ok (some required) jwt h =
    let (typ, a, b) = through (ok_or (header_string jwt (codes "typ")) invalid_grant) _ h in
    let c = text_eq_sound typ required (ensure-ok (text_eq typ required) invalid_grant b) in
    let d = ok_or-ok (header_string jwt (codes "typ")) invalid_grant a in cc

before_iff : (now exp : ℤ) → (ltb_ℤ now exp ≡ true) ↔ (now +ℤ pos 1 ≤ℤ exp)
unfolding ◌+ℤ◌
before_iff now exp = ground arith

pub check_expiration-ok :
    (b : Bool) (clock : Option ℤ) (jwt : DecodedJwt)
    → check_expiration b clock jwt ≡ ok tt
    → IsFresh b clock jwt
check_expiration-ok false clock jwt h = tt
check_expiration-ok true clock jwt h =
    let (exp, a, h1) = through (ok_or (claim_i64 jwt (codes "exp")) invalid_grant) _ h in
    let (now, b, h2) = through (ok_or clock server_error) _ h1 in
    (
      exp,
      now,
      ok_or-ok (claim_i64 jwt (codes "exp")) invalid_grant a,
      ok_or-ok clock server_error b,
      (before_iff now exp).0 (ensure-ok (ltb_ℤ now exp) invalid_grant h2),
    )

pub HasTokenType-check_token_type :
    (o : Option Text) (jwt : DecodedJwt) → HasTokenType o jwt → check_token_type o jwt ≡ ok tt
HasTokenType-check_token_type none jwt h = refl
HasTokenType-check_token_type (some required) jwt h = rw (h, text_eq_refl required) refl

pub IsFresh-check_expiration :
    (b : Bool) (clock : Option ℤ) (jwt : DecodedJwt)
    → IsFresh b clock jwt
    → check_expiration b clock jwt ≡ ok tt
IsFresh-check_expiration false clock jwt h = refl
IsFresh-check_expiration true clock jwt (exp, now, a, b, c) =
    rw (a, b, (before_iff now exp).1 c) refl
