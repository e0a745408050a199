-- ===== src/Realm/Profile/Validity.antt =====
-- The validity window of a credential, against a description in the order of the integers.
use pic_x.Base.{
  ◌≡◌, refl, subst, codes, Option, none, some, Bool, true, false, not, ◌↔◌, arith, Result, ok,
}
use pic_x.Base.Int.{ℤ, pos, ◌+ℤ◌, ◌-ℤ◌, ◌≤ℤ◌, ltb_ℤ}
use pic_x.Base.Fallible.{◌>>=◌, ◌>>◌, ensure, ok_or}
use pic_x.Json.{Value}
use pic_x.Realm.Profile.{
  get_i64, is_future, validate_validity_claims, clock_skew_seconds, expired, no_expiry,
  not_yet_valid, issued_in_future, Reject,
}

-- The credential states an expiry that is not past by as much as the skew, and what it states of its
-- beginning and of its issue is past, or in the future by at most the skew.
pub record IsInForce (payload : Value) (now : ℤ) : Type 0 where
  pub expiry : ℤ
  pub states : get_i64 payload (codes "exp") ≡ some expiry
  pub not_expired : now +ℤ pos 1 ≤ℤ expiry +ℤ clock_skew_seconds
  pub begun : (t : ℤ) → get_i64 payload (codes "nbf") ≡ some t → t ≤ℤ now +ℤ clock_skew_seconds
  pub issued : (t : ℤ) → get_i64 payload (codes "iat") ≡ some t → t ≤ℤ now +ℤ clock_skew_seconds

expiry_iff :
    (now e : ℤ)
    → (ltb_ℤ (now -ℤ clock_skew_seconds) e ≡ true) ↔ (now +ℤ pos 1 ≤ℤ e +ℤ clock_skew_seconds)
unfolding ◌+ℤ◌ ◌-ℤ◌
expiry_iff now e = ground arith

future_iff :
    (now t : ℤ) → (ltb_ℤ (now +ℤ clock_skew_seconds) t ≡ false) ↔ (t ≤ℤ now +ℤ clock_skew_seconds)
future_iff now t = ground arith

past :
    (now : ℤ) (o : Option ℤ)
    → is_future now o ≡ false
    → (t : ℤ) → o ≡ some t
    → t ≤ℤ now +ℤ clock_skew_seconds
past now none h t e = cc
past now (some s) h t e =
    let is : s ≡ t = cc in subst (λ z. z ≤ℤ now +ℤ clock_skew_seconds) is ((future_iff now s).0 h)

past-is_future :
    (now : ℤ) (o : Option ℤ)
    → ((t : ℤ) → o ≡ some t → t ≤ℤ now +ℤ clock_skew_seconds)
    → is_future now o ≡ false
past-is_future now none h = refl
past-is_future now (some t) h = (future_iff now t).1 (h t refl)

-- The chain of checks over the values that it reads.
abbrev checks : Option ℤ → (ℤ → Bool) → Bool → Bool → Result Reject (Unit {0})
checks o in_time begins issues = do
  expiry ← ok_or o no_expiry
  ensure (in_time expiry) expired
  ensure (not begins) not_yet_valid
  ensure (not issues) issued_in_future

three :
    (x b c : Bool)
    → (do ensure x expired; ensure (not b) not_yet_valid; ensure (not c) issued_in_future) ≡ ok tt
    → (x ≡ true) × (b ≡ false) × (c ≡ false)
three true false false h = (refl, refl, refl)
three true false true h = cc
three true true c h = cc
three false b c h = cc

checks-ok :
    (o : Option ℤ) (in_time : ℤ → Bool) (b c : Bool)
    → checks o in_time b c ≡ ok tt
    → (e : ℤ) × (o ≡ some e) × (in_time e ≡ true) × (b ≡ false) × (c ≡ false)
checks-ok none in_time b c h = cc
checks-ok (some e) in_time b c h = let (x, y, z) = three (in_time e) b c h in (e, refl, x, y, z)

ok-checks :
    (o : Option ℤ) (in_time : ℤ → Bool) (b c : Bool) (e : ℤ)
    → o ≡ some e
    → in_time e ≡ true
    → b ≡ false
    → c ≡ false
    → checks o in_time b c ≡ ok tt
ok-checks o in_time b c e p q r s = rw p (rw (q, r, s) refl)

-- The validity check accepts a credential exactly when it states a numeric expiry that is not past
-- by as much as the skew, and its numeric not-before and issued-at, where it states them, are in
-- the future by at most the skew.
pub validate_validity_claims_iff :
    (payload : Value) (now : ℤ)
    → (validate_validity_claims payload now ≡ ok tt) ↔ IsInForce payload now
unfolding validate_validity_claims
validate_validity_claims_iff payload now = (sound, complete)
  where
    sound : validate_validity_claims payload now ≡ ok tt → IsInForce payload now
    sound h =
        let (e, s, l, b, i) =
          checks-ok (get_i64 payload (codes "exp")) (λ e. ltb_ℤ (now -ℤ clock_skew_seconds) e)
            (is_future now (get_i64 payload (codes "nbf")))
            (is_future now (get_i64 payload (codes "iat"))) h in
        record {
          expiry = e;
          states = s;
          not_expired = (expiry_iff now e).0 l;
          begun = past now (get_i64 payload (codes "nbf")) b;
          issued = past now (get_i64 payload (codes "iat")) i;
        }

    complete : IsInForce payload now → validate_validity_claims payload now ≡ ok tt
    complete v =
        ok-checks (get_i64 payload (codes "exp")) (λ e. ltb_ℤ (now -ℤ clock_skew_seconds) e)
          (is_future now (get_i64 payload (codes "nbf")))
          (is_future now (get_i64 payload (codes "iat"))) v.expiry v.states
          ((expiry_iff now v.expiry).1 v.not_expired)
          (past-is_future now (get_i64 payload (codes "nbf")) v.begun)
          (past-is_future now (get_i64 payload (codes "iat")) v.issued)
