-- ===== src/Audit/Trail/Verify/Walked.antt =====
-- The loop of `verify` over the lines of a trail, from its variables to what it has seen.
use pic_x.Base.{
  ℕ, suc, ◌+◌, ◌≡◌, refl, sym, ◌∙◌, ap, subst, ◌≢◌, ◌⊎◌, inl, inr, Text, Option, none, some, List,
  [], ◌∷◌, ◌++◌, Bool, true, false, ◌==◌, ==_iff, text_eq, text_eq_iff, text_eq_sound, text_eq_refl,
  length, arith, All, Result, ok, err, Bool-cases, map_opt,
}
use mathlib.Core.List.{append-nil, append_assoc}
use pic_x.Base.Fallible.{◌>>=◌, ◌>>◌, ensure, through}
use pic_x.Base.Int.{ℤ}
use pic_x.Audit.Trail.{
  genesis, Body, Record, Seal, Line, blank, garbled, entry, records_of, all_lines,
}
use pic_x.Audit.Trail.Chain.{head, Chain}
use pic_x.Audit.Trail.Verify.{
  Fault, altered, unlinked, misnumbered, Points, seal_at, Walk, start, advance, agree, check_record,
  check_line, check_lines, check_days,
}

Result-cases : {E A : Type 0} (r : Result E A) → ((a : A) × (r ≡ ok a)) ⊎ ((e : E) × (r ≡ err e))
Result-cases (ok a) = inl (a, refl)
Result-cases (err e) = inr (e, refl)

-- No line is anything but white space or a record.
abbrev pub IsReadable : Line → Type 0
IsReadable l = l ≢ garbled

-- A seal for a point that the trail has passed names the digest of the record there.
abbrev pub Agrees : Points → ℕ → List Record → Type 0
Agrees points n [] = Unit {0}
Agrees points n (r ∷ rs) =
    ((s : Seal) → seal_at (suc n) points ≡ some s → s.body.head ≡ r.digest)
    × Agrees points (suc n) rs

abbrev seals_for : Option Seal → List Seal
seals_for none = []
seals_for (some s) = s ∷ []

-- The seals whose points the trail passes.
unfoldable pub met : Points → ℕ → List Record → List Seal
met points n [] = []
met points n (r ∷ rs) = seals_for (seal_at (suc n) points) ++ met points (suc n) rs

agree-ok :
    (k : Walk) (o : Option Seal) {k' : Walk}
    → agree k o ≡ ok k'
    → ((s : Seal) → o ≡ some s → s.body.head ≡ k.previous)
      × (k' ≡ record k { checked = k.checked ++ seals_for o })
agree-ok k none {k'} h =
    let e : k ≡ k' = cc in
    (λ s i. cc, sym e ∙ ap (λ l. record k { checked = l }) (sym (append-nil k.checked)))
agree-ok k (some s) {k'} h = elim (Bool-cases (text_eq s.body.head k.previous)) [
  | inl p ↦
      let e : record k { checked = k.checked ++ s ∷ [] } ≡ k' = taken (rw p at h) in
      (
        λ s' i.
            text_eq_sound s'.body.head k.previous
              (subst (λ x. text_eq x.body.head k.previous ≡ true) (same i) p),
        sym e,
      )
  | inr p ↦ cc (rw p at h)
]
  where
    taken : {a b : Walk} → ◌≡◌ {A = Result Fault Walk} (ok a) (ok b) → a ≡ b
    taken q = cc

    same : {a b : Seal} → some a ≡ some b → a ≡ b
    same q = cc

ok-agree :
    (k : Walk) (o : Option Seal)
    → ((s : Seal) → o ≡ some s → s.body.head ≡ k.previous)
    → agree k o ≡ ok (record k { checked = k.checked ++ seals_for o })
ok-agree k none h = ap (λ l. ok (record k { checked = l })) (sym (append-nil k.checked))
ok-agree k (some s) h = rw (h s refl, text_eq_refl) refl

module _ (digest_of : Body → Text) (points : Points) where
  -- The loop's variables behind a record that passes, and behind a list of such records.
  abbrev step : Walk → Record → Walk
  step k r = record (advance k r) {
    checked = k.checked ++ seals_for (seal_at (suc k.records) points);
  }

  pub walked : Walk → List Record → Walk
  walked k [] = k
  walked k (r ∷ rs) = walked (step k r) rs

  three_checks :
      (a b c : Bool) (m : Result Fault Walk) {k : Walk}
      → (do ensure a altered; ensure b unlinked; ensure c misnumbered; m) ≡ ok k
      → (a ≡ true) × (b ≡ true) × (c ≡ true) × (m ≡ ok k)
  three_checks true true true m h = (refl, refl, refl, h)
  three_checks true true false m h = cc
  three_checks true false c m h = cc
  three_checks false b c m h = cc

  -- What lets a record pass.
  abbrev Passes : Walk → Record → Type 0
  Passes k r =
      (digest_of r.body ≡ r.digest)
      × (r.body.prev ≡ k.previous)
      × (r.body.seq ≡ k.next_seq)
      × ((s : Seal) → seal_at (suc k.records) points ≡ some s → s.body.head ≡ r.digest)

  check_record-Passes :
      (k : Walk) (r : Record) {k' : Walk}
      → check_record digest_of points k r ≡ ok k'
      → Passes k r × (k' ≡ step k r)
  unfolding check_record
  check_record-Passes k r {k'} h =
      let (a, b, c, m) =
        three_checks (text_eq (digest_of r.body) r.digest) (text_eq r.body.prev k.previous)
          (r.body.seq == k.next_seq) (agree (advance k r) (seal_at (suc k.records) points)) h in
      let (s, e) = agree-ok (advance k r) (seal_at (suc k.records) points) m in
      (
        (
          text_eq_sound (digest_of r.body) r.digest a,
          text_eq_sound r.body.prev k.previous b,
          (==_iff r.body.seq k.next_seq).0 c,
          s,
        ),
        e,
      )

  Passes-check_record :
      (k : Walk) (r : Record) → Passes k r → check_record digest_of points k r ≡ ok (step k r)
  unfolding check_record
  Passes-check_record k r (a, b, c, s) =
      rw
        (
          (text_eq_iff (digest_of r.body) r.digest).1 a,
          (text_eq_iff r.body.prev k.previous).1 b,
          (==_iff r.body.seq k.next_seq).1 c,
        )
        (ok-agree (advance k r) (seal_at (suc k.records) points) s)

  pub check_lines-ok :
      (k : Walk) (l : List Line) {k' : Walk}
      → check_lines digest_of points k l ≡ ok k'
      → All IsReadable l
        × Chain digest_of k.previous k.next_seq (records_of l)
        × Agrees points k.records (records_of l)
        × (k' ≡ walked k (records_of l))
  unfolding check_lines records_of map_opt walked
  check_lines-ok k [] {k'} h = (tt, tt, tt, cc)
  check_lines-ok k (blank ∷ l) h =
      let (a, b, c, d) = check_lines-ok k l h in ((λ e. cc, a), b, c, d)
  check_lines-ok k (garbled ∷ l) h = cc
  check_lines-ok k (entry r ∷ l) {k'} h =
      let (k1, m, h1) =
        through (check_record digest_of points k r) (λ k1. check_lines digest_of points k1 l) h in
      let (p, e) = check_record-Passes k r m in
      let (a, b, c, d) = check_lines-ok (step k r) l (rw e at h1) in
      ((λ q. cc, a), (p.0, p.1, p.2, b), (p.3, c), d)

  pub ok-check_lines :
      (k : Walk) (l : List Line)
      → All IsReadable l
      → Chain digest_of k.previous k.next_seq (records_of l)
      → Agrees points k.records (records_of l)
      → check_lines digest_of points k l ≡ ok (walked k (records_of l))
  unfolding check_lines records_of map_opt walked
  ok-check_lines k [] a b c = refl
  ok-check_lines k (blank ∷ l) a b c = ok-check_lines k l a.1 b c
  ok-check_lines k (garbled ∷ l) a b c = absurd (a.0 refl)
  ok-check_lines k (entry r ∷ l) a b c =
      rw (Passes-check_record k r (b.0, b.1, b.2, c.0)) (ok-check_lines (step k r) l a.1 b.3 c.1)

  check_lines-append :
      (k : Walk) (l m : List Line)
      → check_lines digest_of points k (l ++ m)
        ≡ (do k' ← check_lines digest_of points k l; check_lines digest_of points k' m)
  unfolding check_lines
  check_lines-append k [] m = refl
  check_lines-append k (x ∷ l) m = elim (Result-cases (check_line digest_of points k x)) [
    | inl (k', e) ↦ rw e (check_lines-append k' l m)
    | inr (f, e) ↦ rw e refl
  ]

  pub check_days-eq :
      (k : Walk) (days : List (ℤ × List Line))
      → check_days digest_of points k days ≡ check_lines digest_of points k (all_lines days)
  unfolding check_days all_lines check_lines
  check_days-eq k [] = refl
  check_days-eq k ((day, l) ∷ rest) =
      rw (check_lines-append k l (all_lines rest))
        (elim (Result-cases (check_lines digest_of points k l)) [
          | inl (k', e) ↦ rw e (check_days-eq k' rest)
          | inr (f, e) ↦ rw e refl
        ])

  -- What the loop's variables are in the end.
  walked-eq :
      (k : Walk) (rs : List Record)
      → ((walked k rs).previous ≡ head k.previous rs)
        × ((walked k rs).records ≡ k.records + length rs)
        × ((walked k rs).checked ≡ k.checked ++ met points k.records rs)
  unfolding walked head met
  walked-eq k [] = (refl, omega arith, sym (append-nil k.checked))
  walked-eq k (r ∷ rs) =
      let (a, b, c) = walked-eq (step k r) rs in
      (
        a,
        omega (arith, b),
        c
            ∙ append_assoc k.checked (seals_for (seal_at (suc k.records) points))
                (met points (suc k.records) rs),
      )

  pub walked-start :
      (rs : List Record)
      → ((walked start rs).previous ≡ head genesis rs)
        × ((walked start rs).records ≡ length rs)
        × ((walked start rs).checked ≡ met points 0 rs)
  walked-start rs = let (a, b, c) = walked-eq start rs in (a, omega (arith, b), c)
