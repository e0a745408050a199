-- ===== src/Audit/Trail/Verify/Intact.antt =====
-- What `verify` accepts, against a description of an intact trail that does not run.
use pic_x.Base.{
  ℕ, ◌≤◌, ◌≡◌, refl, sym, ◌∙◌, ap, ◌↔◌, inl, inr, Text, List, [], ◌∷◌, true, not, ltb, any, length,
  arith, All, Result, ok, Bool-cases,
}
use pic_x.Base.Fallible.{through}
use pic_x.Audit.Trail.{genesis, Body, Record, Directory, records_of, all_lines}
use pic_x.Audit.Trail.Chain.{head, Chain}
use pic_x.Audit.Trail.Verify.{
  Fault, Verification, Points, read_seals, Walk, start, check_lines, check_days, finish, verify,
}
use pic_x.Audit.Trail.Verify.Walked.{
  IsReadable, Agrees, met, check_lines-ok, ok-check_lines, check_days-eq, walked-start,
}

pub record IsIntact (digest_of : Body → Text) (d : Directory) (v : Verification) : Type 0 where
  pub points : Points
  pub seals_read : read_seals d.seals d.days [] ≡ ok points
  pub readable : All IsReadable (all_lines d.days)
  pub chained : Chain digest_of genesis 1 (records_of (all_lines d.days))
  pub agreed : Agrees points 0 (records_of (all_lines d.days))
  pub covered : All (λ p. p.0 ≤ length (records_of (all_lines d.days))) points
  pub counted : v.records ≡ length (records_of (all_lines d.days))
  pub dated : v.days ≡ length d.days
  pub headed : v.head ≡ head genesis (records_of (all_lines d.days))
  pub checked : v.seals ≡ met points 0 (records_of (all_lines d.days))

any_beyond :
    (n : ℕ) (points : Points) → not (any (λ p. ltb n p.0) points) ≡ true → All (λ p. p.0 ≤ n) points
unfolding any
any_beyond n [] h = tt
any_beyond n (p ∷ rest) h = (ground arith, any_beyond n rest (ground arith))

none_beyond :
    (n : ℕ) (points : Points) → All (λ p. p.0 ≤ n) points → not (any (λ p. ltb n p.0) points) ≡ true
unfolding any
none_beyond n [] h = refl
none_beyond n (p ∷ rest) h = ground (arith, h.0, none_beyond n rest h.1)

-- The end of `verify`.
finish-ok :
    (d : Directory) (points : Points) (k : Walk) {v : Verification}
    → finish d points k ≡ ok v
    → All (λ p. p.0 ≤ k.records) points
      × (v.records ≡ k.records)
      × (v.days ≡ length d.days)
      × (v.head ≡ k.previous)
      × (v.seals ≡ k.checked)
finish-ok d points k {v} h = elim (Bool-cases (not (any (λ p. ltb k.records p.0) points))) [
  | inl e ↦
      let q = taken (rw e at h) in
      (
        any_beyond k.records points e,
        ap (λ x. x.records) q,
        ap (λ x. x.days) q,
        ap (λ x. x.head) q,
        ap (λ x. x.seals) q,
      )
  | inr e ↦ cc (rw e at h)
]
  where
    taken : {a b : Verification} → ◌≡◌ {A = Result Fault Verification} (ok a) (ok b) → b ≡ a
    taken q = cc

module _ (digest_of : Body → Text) (d : Directory) (v : Verification) where
  abbrev found : List Record
  found = records_of (all_lines d.days)

  verify-IsIntact : verify digest_of d ≡ ok v → IsIntact digest_of d v
  unfolding verify
  verify-IsIntact h =
      let (points, p, h1) = through (read_seals d.seals d.days []) _ h in
      let (k, q, h2) = through (check_days digest_of points start d.days) _ h1 in
      intact points k p (sym (check_days-eq digest_of points start d.days) ∙ q) h2
    where
      intact :
          (points : Points) (k : Walk)
          → read_seals d.seals d.days [] ≡ ok points
          → check_lines digest_of points start (all_lines d.days) ≡ ok k
          → finish d points k ≡ ok v
          → IsIntact digest_of d v
      intact points k p q h =
          let (readable, chained, agreed, e) =
            check_lines-ok digest_of points start (all_lines d.days) q in
          let (x, y, z) = walked-start digest_of points found in
          let (bound, a, b, c, f) = finish-ok d points k h in
          record {
            points = points;
            seals_read = p;
            readable = readable;
            chained = chained;
            agreed = agreed;
            covered = rw (sym y, sym e) bound;
            counted = a ∙ ap (λ w. w.records) e ∙ y;
            dated = b;
            headed = c ∙ ap (λ w. w.previous) e ∙ x;
            checked = f ∙ ap (λ w. w.checked) e ∙ z;
          }

  IsIntact-verify : IsIntact digest_of d v → verify digest_of d ≡ ok v
  unfolding verify
  IsIntact-verify i =
      let (x, y, z) = walked-start digest_of i.points found in
      rw
        (
          i.seals_read,
          check_days-eq digest_of i.points start d.days,
          ok-check_lines digest_of i.points start (all_lines d.days) i.readable i.chained i.agreed,
          x,
          y,
          z,
          none_beyond (length found) i.points i.covered,
          sym i.counted,
          sym i.dated,
          sym i.headed,
          sym i.checked,
        )
        refl

  pub verify_iff : (verify digest_of d ≡ ok v) ↔ IsIntact digest_of d v
  verify_iff = (verify-IsIntact, IsIntact-verify)
