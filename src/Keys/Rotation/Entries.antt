-- ===== src/Keys/Rotation/Entries.antt =====
-- Facts on lists of entries that the proofs about `maintain` share: names that differ, how many
-- entries are in a state, and where an entry stands.
use mathlib.Core.Bool.{false≢true}
use pic_x.Base.{
  All-append, text_eq_refl, text_eq_sound, ◌≡◌, refl, sym, ap, ◌≢◌, inl, inr, Text, List, [], ◌∷◌,
  ◌++◌, Bool, true, false, arith, All, All-In, In, here, there, In-map, retain, Bool-cases, text_eq,
  text_eq_iff, has_text,
}
use pic_x.Keys.{Entry}
use pic_x.Keys.Rotation.{kids}

-- The names differ from one another.
abbrev pub Distinct : List Text → Type 0
Distinct [] = Unit
Distinct (k ∷ ks) = All (λ j. j ≢ k) ks × Distinct ks

pub In-unique :
    {d e : Entry} (keys : List Entry)
    → Distinct (kids keys)
    → In d keys
    → In e keys
    → d.kid ≡ e.kid
    → d ≡ e
In-unique _ v here here p = refl
In-unique _ v here (there n) p = absurd (All-In _ v.0 (In-map (λ e. e.kid) n) (sym p))
In-unique _ v (there m) here p = absurd (All-In _ v.0 (In-map (λ e. e.kid) m) p)
In-unique (x ∷ xs) v (there m) (there n) p = In-unique xs v.1 m n p

module _ {ℓ} {A : Type ℓ} (test : A → Bool) where
  In-retain_kept :
      {a x : A} {xs ys : List A}
      → (In a ys → In a xs × (test a ≡ true))
      → test x ≡ true
      → In a (x ∷ ys)
      → In a (x ∷ xs) × (test a ≡ true)
  In-retain_kept f p here = (here, p)
  In-retain_kept f p (there n) = let (m, q) = f n in (there m, q)

  -- What is retained was there, and passes the test.
  pub In-retain : {a : A} (xs : List A) → In a (retain test xs) → In a xs × (test a ≡ true)
  unfolding retain
  In-retain [] m = elim m [ ]
  In-retain (x ∷ xs) m = elim (Bool-cases (test x)) [
    | inl p ↦ In-retain_kept (In-retain xs) p (rw p at m)
    | inr p ↦ let (n, q) = In-retain xs (rw p at m) in (there n, q)
  ]

  -- What was there and passes the test is retained.
  pub retain-In : {a : A} {xs : List A} → In a xs → test a ≡ true → In a (retain test xs)
  unfolding retain
  retain-In here p = rw p here
  retain-In {xs = x ∷ xs} (there m) p = elim (Bool-cases (test x)) [
    | inl q ↦ rw q (there (retain-In m p))
    | inr q ↦ rw q (retain-In m p)
  ]

module _ (test : Entry → Bool) where
  pub retain-All :
      (P : Text → Type 0) (es : List Entry) → All P (kids es) → All P (kids (retain test es))
  unfolding retain
  retain-All P [] h = tt
  retain-All P (e ∷ es) h = ground (arith, retain-All P es h.1)

  pub retain-Distinct :
      (keys : List Entry) → Distinct (kids keys) → Distinct (kids (retain test keys))
  unfolding retain
  retain-Distinct [] v = tt
  retain-Distinct (e ∷ es) v = elim (Bool-cases (test e)) [
    | inl p ↦ rw p (retain-All (λ j. j ≢ e.kid) es v.0, retain-Distinct es v.1)
    | inr p ↦ rw p (retain-Distinct es v.1)
  ]

pub Distinct-snoc :
    (ks : List Text) (k : Text) → Distinct ks → All (λ j. j ≢ k) ks → Distinct (ks ++ k ∷ [])
Distinct-snoc [] k v h = (tt, tt)
Distinct-snoc (j ∷ ks) k v (p, h) =
    (All-append _ ks (k ∷ []) v.0 (λ e. p (sym e), tt), Distinct-snoc ks k v.1 h)

pub kids-append : (xs ys : List Entry) → kids (xs ++ ys) ≡ kids xs ++ kids ys
kids-append [] ys = refl
kids-append (x ∷ xs) ys = ap (λ l. x.kid ∷ l) (kids-append xs ys)

-- A test of texts that differ, and of equal ones.
pub text_eq-ne : (s t : Text) → s ≢ t → text_eq s t ≡ false
text_eq-ne s t h = ground (arith, text_eq_iff s t)

pub has_text-In : {t : Text} {l : List Text} → In t l → has_text l t ≡ true
unfolding has_text
has_text-In {t} here = ground (arith, text_eq_refl t)
has_text-In {t} (there m) = ground (arith, has_text-In m)

pub In-has_text : (t : Text) (l : List Text) → has_text l t ≡ true → In t l
unfolding has_text
In-has_text t [] h = absurd (false≢true h)
In-has_text t (s ∷ l) h = elim (Bool-cases (text_eq s t)) [
  | inl p ↦ rw (text_eq_sound s t p) here
  | inr p ↦ there (In-has_text t l (rw p at h))
]
