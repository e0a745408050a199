-- ===== src/Realm/Conformance/Decides.antt =====
-- What the conformance check decides, against a description of conformance that does not run.
use mathlib.Core.Bool.{false≢true}
use pic_x.Base.{
  Text, List, [], ◌∷◌, ◌++◌, Option, none, some, Bool, true, false, ◌≡◌, refl, sym, ◌∙◌, ap, subst,
  ◌≢◌, ◌↔◌, inl, inr, arith, ==_iff, text_eq, text_eq_sound, text_eq_refl, lookup, any, All, In,
  here, there, In-cons, Result, ok, err, ◌==◌, Bool-cases, Option-cases,
}
use pic_x.Json.{Value, null, boolean, number, other_number, text, array, object, Items, items, Map}
use pic_x.Realm.Conformance.{
  TupleValue, required_text, membership, Contract, Mismatch, is_text, matches_text, contains_member,
  split_once, check_entry, check, reason, conformance,
}

-- The value is the wanted text, or a collection that has it.
pub data Carries (wanted : Text) : Value → Type 0 where
  scalar : Carries wanted (text wanted)
  element : {vs : Items} → In (text wanted) (items vs) → Carries wanted (array vs)

-- The claims meet one entry of a contract.
pub data Satisfies (claims : Map) : Text → TupleValue → Type 0 where
  by_text :
      {key wanted : Text} {v : Value}
      → lookup key claims ≡ some v
      → Carries wanted v
      → Satisfies claims key (required_text wanted)
  by_member :
      {key : Text} (name member : Text) {v : Value}
      → key ≡ name ++ b':' ∷ member
      → All (λ c. c ≢ b':') name
      → lookup name claims ≡ some v
      → Carries member v
      → Satisfies claims key membership

any_text-In :
    (wanted : Text) (vs : List Value) → any (is_text wanted) vs ≡ true → In (text wanted) vs
unfolding any
any_text-In wanted [] h = cc
any_text-In wanted (text s ∷ vs) h = elim (Bool-cases (text_eq s wanted)) [
  | inl p ↦ subst (λ t. In (text t) (text s ∷ vs)) (text_eq_sound s wanted p) here
  | inr p ↦ there (any_text-In wanted vs (rw p at h))
]
any_text-In wanted (null ∷ vs) h = there (any_text-In wanted vs h)
any_text-In wanted (boolean b ∷ vs) h = there (any_text-In wanted vs h)
any_text-In wanted (number n ∷ vs) h = there (any_text-In wanted vs h)
any_text-In wanted (other_number t ∷ vs) h = there (any_text-In wanted vs h)
any_text-In wanted (array a ∷ vs) h = there (any_text-In wanted vs h)
any_text-In wanted (object o ∷ vs) h = there (any_text-In wanted vs h)

In-any_text :
    {wanted : Text} {vs : List Value} → In (text wanted) vs → any (is_text wanted) vs ≡ true
unfolding any
In-any_text {wanted} here = rw text_eq_refl refl
In-any_text {wanted} (there {x = x} m) = ground (arith, In-any_text m)

-- The two ways of asking a value are one.
contains_member-eq : (v : Value) (t : Text) → contains_member v t ≡ matches_text v t
unfolding contains_member matches_text
contains_member-eq (text s) t = refl
contains_member-eq null t = refl
contains_member-eq (boolean b) t = refl
contains_member-eq (number n) t = refl
contains_member-eq (other_number n) t = refl
contains_member-eq (array a) t = refl
contains_member-eq (object o) t = refl

matches_text-Carries : (v : Value) (t : Text) → matches_text v t ≡ true → Carries t v
unfolding matches_text
matches_text-Carries (text s) t h =
    subst (λ z. Carries t (text z)) (sym (text_eq_sound s t h)) scalar
matches_text-Carries (array vs) t h = element (any_text-In t (items vs) h)
matches_text-Carries null t h = cc
matches_text-Carries (boolean b) t h = cc
matches_text-Carries (number n) t h = cc
matches_text-Carries (other_number n) t h = cc
matches_text-Carries (object o) t h = cc

Carries-matches_text : {v : Value} {t : Text} → Carries t v → matches_text v t ≡ true
unfolding matches_text
Carries-matches_text {t = t} scalar = text_eq_refl t
Carries-matches_text (element m) = In-any_text m

split_once_sound :
    (key : Text) (p : Text × Text)
    → split_once key ≡ some p
    → (key ≡ p.0 ++ b':' ∷ p.1) × All (λ c. c ≢ b':') p.0
unfolding split_once
split_once_sound [] p h = cc
split_once_sound (c ∷ s) p h = elim (Bool-cases (c == b':')) [
  | inl is ↦ let e : p ≡ ([], s) = ground arith in rw e (ap (λ x. x ∷ s) ((==_iff c b':').0 is), tt)
  | inr isnt ↦ elim (Option-cases (split_once s)) [
    | inl n ↦ cc (rw (isnt, n) at h)
    | inr (q, f) ↦
        let e : p ≡ (c ∷ q.0, q.1) = ground arith in
        let (i, l) = split_once_sound s q f in
        rw e (ap (λ x. c ∷ x) i, (λ k. false≢true (sym isnt ∙ (==_iff c b':').1 k), l))
  ]
]

split_once_complete :
    (name member : Text)
    → All (λ c. c ≢ b':') name
    → split_once (name ++ b':' ∷ member) ≡ some (name, member)
unfolding split_once
split_once_complete [] member h = refl
split_once_complete (c ∷ name) member h = ground (arith, split_once_complete name member h.1)

module _ (to_string : Value → Text) (claims : Map) where
  check_entry_sound :
      (key : Text) (value : TupleValue)
      → check_entry to_string claims key value ≡ none
      → Satisfies claims key value
  unfolding check_entry
  check_entry_sound key (required_text wanted) h = elim (Option-cases (lookup key claims)) [
    | inl n ↦ cc (rw n at h)
    | inr (v, f) ↦ by_text f (matches_text-Carries v wanted (ground arith))
  ]
  check_entry_sound key membership h = elim (Option-cases (split_once key)) [
    | inl n ↦ cc (rw n at h)
    | inr ((name, member), f) ↦ elim (Option-cases (lookup name claims)) [
      | inl n ↦ cc (rw (f, n) at h)
      | inr (v, g) ↦
          let (e, l) = split_once_sound key (name, member) f in
          by_member name member e l g
            (matches_text-Carries v member (sym (contains_member-eq v member) ∙ ground arith))
    ]
  ]

  check_entry_complete :
      {key : Text} {value : TupleValue}
      → Satisfies claims key value
      → check_entry to_string claims key value ≡ none
  unfolding check_entry
  check_entry_complete (by_text f c) = rw (f, Carries-matches_text c) refl
  check_entry_complete (by_member name member {v} e l f c) =
      rw (e, split_once_complete name member l)
        (rw (f, contains_member-eq v member, Carries-matches_text c) refl)

  abbrev pub Meets : Contract → Type 0
  Meets contract =
      (key : Text) (value : TupleValue) → In (key, value) contract → Satisfies claims key value

  check-Meets : (contract : Contract) → check to_string claims contract ≡ ok tt → Meets contract
  unfolding check
  check-Meets [] h key value m = elim m [ ]
  check-Meets ((k, v) ∷ rest) h key value m =
      elim (Option-cases (check_entry to_string claims k v)) [
        | inl n ↦ elim (In-cons m) [
          | inl e ↦ subst (λ z. Satisfies claims z.0 z.1) (sym e) (check_entry_sound k v n)
          | inr o ↦ check-Meets rest (rw (n, check) at h) key value o
        ]
        | inr (x, f) ↦ cc (rw (f, check) at h)
      ]

  Meets-check : (contract : Contract) → Meets contract → check to_string claims contract ≡ ok tt
  unfolding check
  Meets-check [] h = refl
  Meets-check ((k, v) ∷ rest) h =
      rw (check_entry_complete (h k v here), check)
        (Meets-check rest (λ key value m. h key value (there m)))

  -- The check of disclosed claims against a contract accepts exactly the claims that meet every
  -- entry: the claim of the entry's name, or of the name before the entry's first colon, is there
  -- and is the wanted text or a collection that has it.
  pub check_iff : (contract : Contract) → (check to_string claims contract ≡ ok tt) ↔ Meets contract
  check_iff contract = (check-Meets contract, Meets-check contract)

  -- When the check rejects with a mismatch, the contract splits at an entry that the claims do not
  -- meet, the claims meet every entry before it, and the mismatch is the one that this entry gives.
  pub check-err :
      (contract : Contract) (mismatch : Mismatch)
      → check to_string claims contract ≡ err mismatch
      → (before after : Contract) × (key : Text) × (value : TupleValue) × (contract
          ≡ before ++ (key, value) ∷ after)
        × Meets before
        × (¬ Satisfies claims key value)
        × (check_entry to_string claims key value ≡ some mismatch)
  unfolding check
  check-err [] mismatch h = cc
  check-err ((k, v) ∷ rest) mismatch h = elim (Option-cases (check_entry to_string claims k v)) [
    | inl n ↦
        let (before, after, key, value, e, met, unmet, why) =
          check-err rest mismatch (rw (n, check) at h) in
        (
          (k, v) ∷ before,
          after,
          key,
          value,
          ap (λ l. (k, v) ∷ l) e,
          also k v before n met,
          unmet,
          why,
        )
    | inr (x, f) ↦ (
      [],
      rest,
      k,
      v,
      refl,
      (λ key value m. elim m [ ]),
      (λ s. cc (check_entry_complete s, f)),
      ground arith,
    )
  ]
    where
      also :
          (k : Text) (v : TupleValue) (before : Contract)
          → check_entry to_string claims k v ≡ none
          → Meets before
          → Meets ((k, v) ∷ before)
      also k v before n met key value m = elim (In-cons m) [
        | inl e ↦ subst (λ z. Satisfies claims z.0 z.1) (sym e) (check_entry_sound k v n)
        | inr o ↦ met key value o
      ]

check-conforms :
    (to_string : Value → Text) (claims : Map) (contract : Contract)
    → (conformance to_string (some claims) contract ≡ true)
      ↔ (check to_string claims contract ≡ ok tt)
unfolding conformance reason
check-conforms to_string claims contract = by_result (check to_string claims contract)
  where
    by_result :
        (r : Result Mismatch (Unit {0}))
        → (elim r as (λ x. Bool) [ ok _ ↦ true | err _ ↦ false ] ≡ true) ↔ (r ≡ ok tt)
    by_result (ok tt) = ((λ h. refl), λ h. refl)
    by_result (err e) = ((λ h. cc), λ h. cc)

-- The settlement policy finds evidence conformant exactly when the evidence disclosed claims and
-- they meet every entry of the contract.
pub conformance_iff :
    (to_string : Value → Text) (accepted : Option Map) (contract : Contract)
    → (conformance to_string accepted contract ≡ true)
      ↔ ((claims : Map) × (accepted ≡ some claims) × Meets to_string claims contract)
unfolding conformance reason
conformance_iff to_string none contract = ((λ h. cc), λ (claims, e, m). cc)
conformance_iff to_string (some claims) contract = (
  (λ h. (
    claims,
    refl,
    (check_iff to_string claims contract).0 ((check-conforms to_string claims contract).0 h),
  )),
  λ (claims', e, m).
      let is : claims ≡ claims' = cc in
      rw is (
        (check-conforms to_string claims' contract).1 ((check_iff to_string claims' contract).1 m)),
)
