-- ===== src/Realm/Exchange/Expiry/Future.antt =====
-- That a first token expires in the future, and when.
use pic_x.Base.{
  ◌≡◌, refl, sym, ◌∙◌, subst, ◌⊎◌, inl, inr, Text, codes, Option, none, some, Bool, true, false,
  not, arith, Bool-cases, Result, ok,
}
use pic_x.Base.Fallible.{ensure, ok_or, ok_or-ok, ensure-ok, through}
use pic_x.Base.Int.{ℤ, pos, ◌+ℤ◌, ◌-ℤ◌, ltb_ℤ, +ℤ_parts, -ℤ_parts}
use pic_x.Keys.{Duration}
use pic_x.Json.{Value, get}
use pic_x.Realm.Profile.{Crates}
use pic_x.Realm.Exchange.{ExchangeError, invalid_request, invalid_grant}
use pic_x.Realm.Exchange.Expiry.{
  max_requested_lifetime, TokenInitialExpiryPolicy, is_i64, checked_add, as_signed, by_policy,
  above, integer_of, expires_at_of, lifetime_of, requested, proposal_expiry, chosen, initial_expiry,
}

-- Within a year from now.
abbrev pub IsWithinYear : ℤ → ℤ → Type 0
IsWithinYear now e = (ltb_ℤ now e ≡ true) × (ltb_ℤ max_requested_lifetime (e -ℤ now) ≡ false)

checked_add-some : (a b : ℤ) {c : ℤ} → checked_add a b ≡ some c → c ≡ a +ℤ b
unfolding checked_add
checked_add-some a b {c} h = elim (Bool-cases (is_i64 (a +ℤ b))) [
  | inl e ↦ let f : some (a +ℤ b) ≡ some c = rw e at h in cc
  | inr e ↦ cc (rw e at h)
]

not-false : (b : Bool) → not b ≡ true → b ≡ false
not-false true h = cc
not-false false h = refl

sum-IsWithinYear :
    (now s : ℤ)
    → ltb_ℤ (pos 0) s ≡ true
    → ltb_ℤ max_requested_lifetime s ≡ false
    → IsWithinYear now (now +ℤ s)
sum-IsWithinYear now s h k =
    (ground (arith, h, +ℤ_parts now s), ground (arith, k, +ℤ_parts now s, -ℤ_parts (now +ℤ s) now))

above-some : (bound : ℤ) (o : Option ℤ) {n : ℤ} → above bound o ≡ some n → ltb_ℤ bound n ≡ true
above-some bound none h = cc
above-some bound (some m) {n} h = elim (Bool-cases (ltb_ℤ bound m)) [
  | inl b ↦ let e : some m ≡ some n = rw b at h in let f : m ≡ n = cc in rw⁻¹ f b
  | inr b ↦ cc (rw b at h)
]

taken : {a b : ℤ} → ◌≡◌ {A = Result ExchangeError (Option ℤ)} (ok (some a)) (ok (some b)) → a ≡ b
taken h = cc

expires_at_of-IsWithinYear :
    (now : ℤ) (v : Value) (e : ℤ) → expires_at_of now v ≡ ok (some e) → IsWithinYear now e
unfolding expires_at_of
expires_at_of-IsWithinYear now v e h =
    let (x, a, h1) = through (ok_or (above now (integer_of v)) invalid_request) _ h in
    let (_, b, h2) =
      through (ensure (not (ltb_ℤ max_requested_lifetime (x -ℤ now))) invalid_request) _ h1 in
    subst (IsWithinYear now) (taken h2) (
      above-some now (integer_of v) (ok_or-ok _ invalid_request a),
      not-false _ (ensure-ok _ invalid_request b),
    )

lifetime_of-IsWithinYear :
    (now : ℤ) (v : Value) (e : ℤ) → lifetime_of now v ≡ ok (some e) → IsWithinYear now e
unfolding lifetime_of
lifetime_of-IsWithinYear now v e h =
    let (s, a, h1) = through (ok_or (above (pos 0) (integer_of v)) invalid_request) _ h in
    let (_, b, h2) = through (ensure (not (ltb_ℤ max_requested_lifetime s)) invalid_request) _ h1 in
    let (x, c, h3) = through (ok_or (checked_add now s) invalid_request) _ h2 in
    subst (IsWithinYear now)
      (sym (checked_add-some now s (ok_or-ok _ invalid_request c)) ∙ taken h3)
      (sum-IsWithinYear now s (above-some (pos 0) (integer_of v) (ok_or-ok _ invalid_request a))
        (not-false _ (ensure-ok _ invalid_request b)))

requested-IsWithinYear :
    (now : ℤ) (a b : Option Value) (e : ℤ) → requested now a b ≡ ok (some e) → IsWithinYear now e
requested-IsWithinYear now (some v) b e h = expires_at_of-IsWithinYear now v e h
requested-IsWithinYear now none (some v) e h = lifetime_of-IsWithinYear now v e h
requested-IsWithinYear now none none e h = cc

module _ (crates : Crates) (encoded : Text) (source_expiry : Option ℤ) (now : ℤ)
    (default_lifetime : Duration) (policy : TokenInitialExpiryPolicy) where
  -- Where the expiry comes from: the proposal, within a year, or the policy, in the future.
  abbrev pub IsGiven : ℤ → Type 0
  IsGiven e =
      ((proposal_expiry crates encoded now ≡ ok (some e)) × IsWithinYear now e)
      ⊎ (proposal_expiry crates encoded now ≡ ok none)
        × (ltb_ℤ now e ≡ true)
        × (d : ℤ) × (checked_add now (as_signed default_lifetime.secs) ≡ some d)
        × (by_policy policy source_expiry d ≡ e)

  proposal_expiry-IsWithinYear :
      (e : ℤ) → proposal_expiry crates encoded now ≡ ok (some e) → IsWithinYear now e
  unfolding proposal_expiry
  proposal_expiry-IsWithinYear e h =
      let (bytes, _, h1) = through (ok_or (crates.b64url_decode encoded) invalid_request) _ h in
      let (document, _, h2) = through (ok_or (crates.from_json bytes) invalid_request) _ h1 in
      requested-IsWithinYear now (get document (codes "tokenExpiresAt"))
        (get document (codes "tokenLifetimeSeconds")) e h2

  -- The expiry of a first token is the one that the proposal asks for, which is in the future and
  -- within a year, or, where the proposal asks for none, the one that the policy makes of the
  -- source's expiry and the realm's lifetime, which is in the future.
  pub initial_expiry-IsGiven :
      (e : ℤ)
      → initial_expiry crates encoded source_expiry now default_lifetime policy ≡ ok e
      → IsGiven e
  unfolding initial_expiry
  initial_expiry-IsGiven e h =
      let (proposed, a, h1) = through (proposal_expiry crates encoded now) _ h in
      given proposed a h1
    where
      given :
          (proposed : Option ℤ)
          → proposal_expiry crates encoded now ≡ ok proposed
          → chosen source_expiry now default_lifetime policy proposed ≡ ok e
          → IsGiven e
      given (some x) a q =
          let f : x ≡ e = cc in inl (rw⁻¹ f a, proposal_expiry-IsWithinYear e (rw⁻¹ f a))
      given none a q =
          let (d, b, q1) =
            through (ok_or (checked_add now (as_signed default_lifetime.secs)) invalid_request) _
              q in
          let (_, c, q2) =
            through (ensure (ltb_ℤ now (by_policy policy source_expiry d)) invalid_grant) _ q1 in
          let f : by_policy policy source_expiry d ≡ e = cc in
          inr (a, rw⁻¹ f (ensure-ok _ invalid_grant c), d, ok_or-ok _ invalid_request b, f)
