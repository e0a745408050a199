-- ===== src/Audit/Trail/Verify/Tamper.antt =====
-- What two directories that `verify` accepts have in common, and what becomes of one that loses its
-- oldest days.
use pic_x.Base.{
  ℕ, suc, ◌+◌, ◌≡◌, refl, sym, ◌∙◌, ap, subst, ◌≢◌, Text, List, [], ◌∷◌, ◌++◌, ◌≤◌, arith, length,
  All, ok,
}
use pic_x.Base.Int.{ℤ}
use pic_x.Audit.Trail.{genesis, Body, Record, Line, SealFile, Directory, records_of, all_lines}
use pic_x.Audit.Trail.Chain.{head, Chain, Chain-split, records_of-append, all_lines-append}
use pic_x.Audit.Trail.Verify.{Verification, verify}
use pic_x.Audit.Trail.Verify.Intact.{verify_iff}

-- The bodies that there are, no two of which have one digest and none of which has the digest that the
-- chain starts from.
pub record IsApart (digest_of : Body → Text) (Known : Body → Type 0) : Type 0 where
  pub injective : (a b : Body) → Known a → Known b → digest_of a ≡ digest_of b → a ≡ b
  pub off_genesis : (a : Body) → Known a → digest_of a ≢ genesis

module _ (digest_of : Body → Text) (Known : Body → Type 0) (apart : IsApart digest_of Known) where
  abbrev IsKnown : Record → Type 0
  IsKnown r = Known r.body

  -- The head of a chain that has records is the digest of one with the last number.
  last_of :
      (prev : Text) (seq : ℕ) (r : Record) (rs : List Record)
      → Chain digest_of prev seq (r ∷ rs)
      → All IsKnown (r ∷ rs)
      → (b : Body) × Known b × (digest_of b ≡ head prev (r ∷ rs)) × (b.seq ≡ seq + length rs)
  unfolding head
  last_of prev seq r [] c k = (r.body, k.0, c.0, omega (arith, c.2))
  last_of prev seq r (x ∷ rs) c k =
      let (b, known, e, n) = last_of r.digest (suc seq) x rs c.3 k.1 in
      (b, known, e, omega (arith, n))

  backward :
      (p q : Text) (m n : ℕ) (xs ys : List Record)
      → Chain digest_of p m xs
      → Chain digest_of q n ys
      → All IsKnown xs
      → All IsKnown ys
      → length xs ≡ length ys
      → head p xs ≡ head q ys
      → (p ≡ q) × (xs ≡ ys)
  unfolding head
  backward p q m n [] [] c d k l s h = (h, refl)
  backward p q m n [] (y ∷ ys) c d k l s h = absurd (omega (arith, s))
  backward p q m n (x ∷ xs) [] c d k l s h = absurd (omega (arith, s))
  backward p q m n (x ∷ xs) (y ∷ ys) c d k l s h =
      let (e, t) =
        backward x.digest y.digest (suc m) (suc n) xs ys c.3 d.3 k.1 l.1 (omega (arith, s)) h in
      let b = apart.injective x.body y.body k.0 l.0 (c.0 ∙ e ∙ sym d.0) in
      (
        sym c.1 ∙ ap (λ z. z.prev) b ∙ d.1,
        ap (λ z. z ∷ xs) (λ i. record { body = b i; digest = e i }) ∙ ap (λ z. y ∷ z) t,
      )

  -- Two chains from the start of a trail that end with one digest are one.
  Chain-head :
      (xs ys : List Record)
      → Chain digest_of genesis 1 xs
      → Chain digest_of genesis 1 ys
      → All IsKnown xs
      → All IsKnown ys
      → head genesis xs ≡ head genesis ys
      → xs ≡ ys
  unfolding head
  Chain-head [] [] c d k l h = refl
  Chain-head [] (y ∷ ys) c d k l h =
      let (b, known, e, n) = last_of genesis 1 y ys d l in
      absurd (apart.off_genesis b known (e ∙ sym h))
  Chain-head (x ∷ xs) [] c d k l h =
      let (b, known, e, n) = last_of genesis 1 x xs c k in
      absurd (apart.off_genesis b known (e ∙ h))
  Chain-head (x ∷ xs) (y ∷ ys) c d k l h =
      let (a, known, e, n) = last_of genesis 1 x xs c k in
      let (b, known', e', n') = last_of genesis 1 y ys d l in
      let s = ap (λ z. z.seq) (apart.injective a b known known' (e ∙ h ∙ sym e')) in
      (backward genesis genesis 1 1 (x ∷ xs) (y ∷ ys) c d k l (omega (arith, s, n, n')) h).1

  -- Where no two of the bodies concerned have one digest, and none has the digest that the chain
  -- starts from, two directories that verify with the same head hold the same records in the same
  -- order.
  pub verify-head :
      (d d' : Directory) (v v' : Verification)
      → All IsKnown (records_of (all_lines d.days))
      → All IsKnown (records_of (all_lines d'.days))
      → verify digest_of d ≡ ok v
      → verify digest_of d' ≡ ok v'
      → v.head ≡ v'.head
      → records_of (all_lines d.days) ≡ records_of (all_lines d'.days)
  verify-head d d' v v' k l h h' e =
      let i = (verify_iff digest_of d v).0 h in
      let j = (verify_iff digest_of d' v').0 h' in
      Chain-head (records_of (all_lines d.days)) (records_of (all_lines d'.days)) i.chained
        j.chained k l (sym i.headed ∙ e ∙ j.headed)

module _ (digest_of : Body → Text) where
  later :
      (p q : Text) (m n : ℕ) (ys : List Record)
      → ys ≢ []
      → Chain digest_of p m ys
      → Chain digest_of q n ys
      → m ≡ n
  later p q m n [] y c d = absurd (y refl)
  later p q m n (r ∷ ys) y c d = sym c.2 ∙ d.2

  some_length : (xs : List Record) → xs ≢ [] → 1 ≤ length xs
  some_length [] x = absurd (x refl)
  some_length (r ∷ xs) x = omega arith

  -- When a directory verifies, what is left of it without its oldest days does not, whatever its
  -- seals, if records went and records are left.
  pub verify-expired :
      (older newer : List (ℤ × List Line)) (seals seals' : List (ℤ × SealFile))
      (v v' : Verification)
      → records_of (all_lines older) ≢ []
      → records_of (all_lines newer) ≢ []
      → verify digest_of (record { days = older ++ newer; seals = seals }) ≡ ok v
      → verify digest_of (record { days = newer; seals = seals' }) ≢ ok v'
  verify-expired older newer seals seals' v v' o n h h' =
      let i = (verify_iff digest_of (record { days = older ++ newer; seals = seals }) v).0 h in
      let j = (verify_iff digest_of (record { days = newer; seals = seals' }) v').0 h' in
      let xs = records_of (all_lines older) in
      let ys = records_of (all_lines newer) in
      let joined : records_of (all_lines (older ++ newer)) ≡ xs ++ ys =
        ap records_of (all_lines-append older newer)
        ∙ records_of-append (all_lines older) (all_lines newer) in
      let (_, c) =
        Chain-split digest_of genesis 1 xs ys
          (subst (Chain digest_of genesis 1) joined i.chained) in
      omega (
        arith,
        later (head genesis xs) genesis (1 + length xs) 1 ys n c j.chained,
        some_length xs o,
      )
