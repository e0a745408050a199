-- ===== src/Realm/Profile/Disclosed.antt =====
-- Where the claims that a presentation discloses come from.
use pic_x.Base.{
  ◌≡◌, refl, sym, subst, ◌⊎◌, inl, inr, Text, List, [], ◌∷◌, some, Bool, true, false, not, text_eq,
  text_eq_sound, has_text, lookup, Result, ok, err, In, here, there, Bool-cases,
}
use pic_x.Base.Fallible.{◌>>=◌, ◌>>◌, ensure}
use pic_x.Json.{Value, Map}
use pic_x.Realm.Profile.{
  Reject, not_committed, digest_twice, reserved_claim, overwrites_claim, Crates, committed,
  always_disclosed, is_reserved, is_absent,
}
use pic_x.Realm.Profile.Validate.{disclosure_parts, disclose, process_disclosures}

-- One round of the loop, over what it computes.
abbrev round :
    Bool
    → Bool
    → Result Reject (Text × Value)
    → (Text × Value → Bool)
    → (Text × Value → Bool)
    → (Text × Value → Result Reject Map)
    → Result Reject Map
round x y m z w k = do
  ensure x not_committed
  ensure (not y) digest_twice
  p ← m
  ensure (not (z p)) reserved_claim
  ensure (w p) overwrites_claim
  k p

last_checks :
    (z w : Bool) (k : Result Reject Map) {r : Map}
    → (do ensure (not z) reserved_claim; ensure w overwrites_claim; k) ≡ ok r
    → (z ≡ false) × (w ≡ true) × (k ≡ ok r)
last_checks false true k h = (refl, refl, h)
last_checks false false k h = cc
last_checks true w k h = cc

round-ok :
    (x y : Bool) (m : Result Reject (Text × Value)) (z w : Text × Value → Bool)
    (k : Text × Value → Result Reject Map) {r : Map}
    → round x y m z w k ≡ ok r
    → (p : Text × Value) × (x ≡ true) × (m ≡ ok p) × (z p ≡ false) × (w p ≡ true) × (k p ≡ ok r)
round-ok true false (ok p) z w k h =
    let (a, b, c) = last_checks (z p) (w p) (k p) h in (p, refl, refl, a, b, c)
round-ok true false (err e) z w k h = cc
round-ok true true m z w k h = cc
round-ok false y m z w k h = cc

module _ (crates : Crates) where
  open crates use {sha256_b64url}

  -- The claim is what a disclosure says whose digest is committed to, and its name is not reserved.
  pub record IsDisclosed (digests : List Text) (disclosures : List Text) (name : Text)
      (value : Value) : Type 0 where
    pub disclosure : Text
    pub presented : In disclosure disclosures
    pub is_committed : has_text digests (sha256_b64url disclosure) ≡ true
    pub says : disclosure_parts crates disclosure ≡ ok (name, value)
    pub allowed : is_reserved name ≡ false

  -- What the claims are, once the disclosures are read: those that were there stay as they were, and
  -- each claim was there or is disclosed.
  pub record Discloses (digests : List Text) (disclosures : List Text) (before after : Map)
      : Type 0 where
    pub kept :
        (name : Text) (value : Value)
        → lookup name before ≡ some value
        → lookup name after ≡ some value
    pub comes :
        (name : Text) (value : Value)
        → lookup name after ≡ some value
        → (lookup name before ≡ some value) ⊎ IsDisclosed digests disclosures name value

  weaken :
      {digests disclosures : List Text} {d name : Text} {value : Value}
      → IsDisclosed digests disclosures name value
      → IsDisclosed digests (d ∷ disclosures) name value
  weaken i = record {
    disclosure = i.disclosure;
    presented = there i.presented;
    is_committed = i.is_committed;
    says = i.says;
    allowed = i.allowed;
  }

  kept_over :
      (p : Text × Value) (claims : Map) (name : Text) (value : Value)
      → is_absent (lookup p.0 claims) ≡ true
      → lookup name claims ≡ some value
      → lookup name (p ∷ claims) ≡ some value
  unfolding lookup
  kept_over (n, v) claims name value a h = elim (Bool-cases (text_eq n name)) [
    | inl q ↦ cc (rw (text_eq_sound n name q, h) at a)
    | inr q ↦ rw q h
  ]

  new_claim :
      {digests rest : List Text} (d : Text) (p : Text × Value) (claims : Map) (name : Text)
      (value : Value)
      → has_text digests (sha256_b64url d) ≡ true
      → disclosure_parts crates d ≡ ok p
      → is_reserved p.0 ≡ false
      → lookup name (p ∷ claims) ≡ some value
      → (lookup name claims ≡ some value) ⊎ IsDisclosed digests (d ∷ rest) name value
  unfolding lookup
  new_claim d (n, v) claims name value c m r h = elim (Bool-cases (text_eq n name)) [
    | inl q ↦
        let e : n ≡ name = text_eq_sound n name q in
        let f : v ≡ value = same (rw q at h) in
        inr (record {
          disclosure = d;
          presented = here;
          is_committed = c;
          says = rw (sym e, sym f) m;
          allowed = rw (sym e) r;
        })
    | inr q ↦ inl (rw q at h)
  ]
    where
      same : {a b : Value} → some a ≡ some b → a ≡ b
      same i = cc

  disclose-Discloses :
      (digests used : List Text) (claims : Map) (disclosures : List Text) (after : Map)
      → disclose crates digests used claims disclosures ≡ ok after
      → Discloses digests disclosures claims after
  unfolding disclose
  disclose-Discloses digests used claims [] after h =
      let e : claims ≡ after = cc in
      subst (Discloses digests [] claims) e (record { kept = λ n v q. q; comes = λ n v q. inl q })
  disclose-Discloses digests used claims (d ∷ rest) after h =
      let (p, c, m, r, a, k) =
        round-ok (has_text digests (sha256_b64url d)) (has_text used (sha256_b64url d))
          (disclosure_parts crates d) (λ p. is_reserved p.0) (λ p. is_absent (lookup p.0 claims))
          (λ p. disclose crates digests (sha256_b64url d ∷ used) ((p.0, p.1) ∷ claims) rest) h in
      let s =
        disclose-Discloses digests (sha256_b64url d ∷ used) ((p.0, p.1) ∷ claims) rest after k in
      record {
        kept = λ n v q. s.kept n v (kept_over p claims n v a q);
        comes = λ n v q. elim (s.comes n v q) [
          | inr i ↦ inr (weaken i)
          | inl old ↦ new_claim d p claims n v c m r old
        ];
      }

  -- When the disclosures of a presentation are accepted, the claims that the credential always
  -- discloses stay as they were, and each claim is one of these or is what a presented disclosure
  -- says whose digest the credential commits to and whose name is not reserved.
  pub process_disclosures-Discloses :
      (payload : Value) (disclosures : List Text) (claims : Map)
      → process_disclosures crates payload disclosures ≡ ok claims
      → Discloses (committed payload) disclosures (always_disclosed payload) claims
  unfolding process_disclosures
  process_disclosures-Discloses payload disclosures claims h =
      disclose-Discloses (committed payload) [] (always_disclosed payload) disclosures claims h
