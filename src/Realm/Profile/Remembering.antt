-- ===== src/Realm/Profile/Remembering.antt =====
-- The cell that remembers what was accepted, against validating the evidence again.
use pic_x.Base.{
  ◌≡◌, refl, subst, codes, Option, none, some, leb, length, find, has_text, text_eq, text_eq_sound,
  inl, inr, Option-cases, Bool-cases, Result, ok, err,
}
use pic_x.Base.Fallible.{◌>>=◌, ensure, ok_or}
use pic_x.Json.{Value}
use pic_x.Realm.Profile.{
  Bytes, Reject, Crates, max_evidence_bytes, too_large, not_utf8, no_issuer, untrusted_issuer,
  wrong_proof_type, unsupported_sd_alg, no_bound_key, split_presentation, bound_jwk, get_str,
  validate_validity_claims,
}
use pic_x.Realm.Profile.Validate.{
  Processed, Accepted, Validator, decode_jws_segments, verify_issuer_signature, process_disclosures,
  workload_key_from_cnf, rebuild_workload_key, sd_alg_supported, validate_evidence_with_key,
  validate, validate_and_remember, remember,
}

-- A result that is there has the property.
abbrev Ensures : {A : Type 0} → (A → Type 0) → Result Reject A → Type 0
Ensures P (ok a) = P a
Ensures P (err e) = Unit {0}

chain :
    {A B : Type 0} (P : B → Type 0) (m : Result Reject A) (f : A → Result Reject B)
    → ((a : A) → Ensures P (f a))
    → Ensures P (m >>= f)
chain P (ok a) f h = h a
chain P (err e) f h = tt

module _ (crates : Crates) where
  open crates use {Key, utf8, public_key_from_jwk}

  abbrev Rebuilds : Key × Processed × Value → Type 0
  Rebuilds r = rebuild_workload_key crates r.2 ≡ ok r.0

  bound :
      (payload : Value) (p : Processed)
      → Ensures Rebuilds (do
        jwk ← ok_or (bound_jwk payload) no_bound_key
        key ← workload_key_from_cnf crates payload
        ok (key, p, jwk))
  unfolding workload_key_from_cnf rebuild_workload_key
  bound payload p = elim (Option-cases (bound_jwk payload)) [
    | inl n ↦ rw n tt
    | inr (jwk, e) ↦ elim (Option-cases (public_key_from_jwk jwk)) [
      | inl n ↦ rw e (rw n tt)
      | inr (key, f) ↦ rw e (rw f (rw f refl))
    ]
  ]

  evidence-Rebuilds :
      (v : Validator) (evidence : Bytes)
      → Ensures Rebuilds (validate_evidence_with_key crates v evidence)
  unfolding validate_evidence_with_key
  evidence-Rebuilds v evidence =
      chain Rebuilds (ensure (leb (length evidence) max_evidence_bytes) too_large) _ (λ _.
        chain Rebuilds (ok_or (utf8 evidence) not_utf8) _ (λ presentation.
          chain Rebuilds (split_presentation presentation) _ (λ p.
            chain Rebuilds (decode_jws_segments crates p.0) _ (λ q.
              chain Rebuilds (ok_or (get_str q.1 (codes "iss")) no_issuer) _ (λ issuer.
                chain Rebuilds
                  (ok_or (find (λ a. text_eq a.issuer issuer) v.attesters) untrusted_issuer) _
                  (λ attester.
                    chain Rebuilds
                      (ensure (has_text attester.proof_types (codes "sd-jwt")) wrong_proof_type) _
                      (λ _.
                        chain Rebuilds (verify_issuer_signature crates p.0 q.0 attester v.keys_for)
                          _
                          (λ _.
                            chain Rebuilds
                              (ensure (sd_alg_supported crates (get_str q.1 (codes "_sd_alg")))
                                unsupported_sd_alg)
                              _
                              (λ _. chain Rebuilds (validate_validity_claims q.1 v.now) _ (λ _.
                                chain Rebuilds (process_disclosures crates q.1 p.1) _ (λ claims.
                                  bound q.1 (record {
                                    attester_id = attester.id;
                                    issuer = issuer;
                                    claims = claims;
                                  }))))))))))))

  -- The cell is empty, or it holds what the validation of its evidence gives.
  abbrev pub IsCoherent : Validator → Option Accepted → Type 0
  IsCoherent v none = Unit {0}
  IsCoherent v (some entry) =
      (key : Key) × (validate_evidence_with_key crates v entry.evidence
        ≡ ok (key, entry.processed, entry.jwk))

  abbrev pub part :
      {A : Type 0}
      → (Key × Processed × Value → A)
      → Result Reject (Key × Processed × Value)
      → Result Reject A
  part answer (ok r) = ok (answer r)
  part answer (err e) = err e

  remember-IsCoherent :
      {A : Type 0} (answer : Key × Processed × Value → A) (v : Validator) (evidence : Bytes)
      (cell : Option Accepted) (r : Result Reject (Key × Processed × Value))
      → validate_evidence_with_key crates v evidence ≡ r
      → IsCoherent v cell
      → ((remember crates answer evidence cell r).0 ≡ part answer r)
        × IsCoherent v (remember crates answer evidence cell r).1
  remember-IsCoherent answer v evidence cell (ok r) h c = (refl, (r.0, h))
  remember-IsCoherent answer v evidence cell (err e) h c = (refl, c)

  cached-Rebuilds :
      (v : Validator) (evidence : Bytes) {key : Key} {processed : Processed} {jwk : Value}
      → validate_evidence_with_key crates v evidence ≡ ok (key, processed, jwk)
      → rebuild_workload_key crates jwk ≡ ok key
  cached-Rebuilds v evidence h = subst (Ensures Rebuilds) h (evidence-Rebuilds v evidence)

  -- When the cell is empty or holds what the validation of its evidence gives, both entry points
  -- answer as validating the evidence afresh does, errors included, and leave such a cell again.
  pub validate-IsCoherent :
      (v : Validator) (evidence : Bytes) (cell : Option Accepted)
      → IsCoherent v cell
      → ((validate crates v evidence cell).0
          ≡ part (λ r. r.0) (validate_evidence_with_key crates v evidence))
        × IsCoherent v (validate crates v evidence cell).1
        × ((validate_and_remember crates v evidence cell).0
            ≡ part (λ r. r.1) (validate_evidence_with_key crates v evidence))
        × IsCoherent v (validate_and_remember crates v evidence cell).1
  unfolding validate validate_and_remember
  validate-IsCoherent v evidence none c =
      let (a, b) =
        remember-IsCoherent (λ r. r.0) v evidence none
          (validate_evidence_with_key crates v evidence) refl c in
      let (a', b') =
        remember-IsCoherent (λ r. r.1) v evidence none
          (validate_evidence_with_key crates v evidence) refl c in
      (a, b, a', b')
  validate-IsCoherent v evidence (some entry) c =
      elim (Bool-cases (text_eq entry.evidence evidence)) [
        | inl same ↦
            let h : validate_evidence_with_key crates v evidence
                ≡ ok (c.0, entry.processed, entry.jwk) =
              subst
                (λ e. validate_evidence_with_key crates v e ≡ ok (c.0, entry.processed, entry.jwk))
                (text_eq_sound entry.evidence evidence same) c.1 in
            rw (same, validate, validate_and_remember)
              (rw h (cached-Rebuilds v evidence h, c, refl, c))
        | inr other ↦
            let (a, b) =
              remember-IsCoherent (λ r. r.0) v evidence (some entry)
                (validate_evidence_with_key crates v evidence) refl c in
            let (a', b') =
              remember-IsCoherent (λ r. r.1) v evidence (some entry)
                (validate_evidence_with_key crates v evidence) refl c in
            rw (other, validate, validate_and_remember) (a, b, a', b')
      ]
