-- ===== src/Keys/Disk/Post.antt =====
-- Postconditions of the calls on the disk that leave the ring file alone, and what a key made by
-- `create` is like.
use pic_x.Base.{
  ℕ, suc, ◌≤◌, ◌≡◌, refl, ◌∙◌, ap, ◌≢◌, inl, inr, Text, Option, none, some, List, [], ◌∷◌, ◌++◌,
  Bool, true, false, arith, All, All-append, Result, ok, err, continue, ◌>>=◌, ◌>>◌, Option-cases,
}
use pic_x.Keys.{RingAlgorithm, Entry}
use pic_x.Keys.Encoding.{Bytes, base64url}
use pic_x.Keys.Rotation.{kids}
use pic_x.Keys.Rotation.Entries.{Distinct, Distinct-snoc, kids-append}
use pic_x.Keys.Disk.{
  KeyError, backend, stuck, RingCrate, RingFile, World, Io, io, answer, create, generate_key,
  forget, forget_all, new_entry, thumbprint,
}

-- A call that returns satisfies `Q`, one that fails does not fail by running out of rounds, and the
-- ring file is `f` either way.
abbrev pub Post :
    {crate : RingCrate} {A : Type 0}
    → RingFile
    → (A → World crate → Type 0)
    → Result KeyError A × World crate
    → Type 0
Post f Q (ok a, w) = (w.ring_file ≡ f) × Q a w
Post f Q (err e, w) = (w.ring_file ≡ f) × (e ≢ stuck)

module _ {crate : RingCrate} (f : RingFile) where
  pub Post-bind :
      {A B : Type 0} (Q : A → World crate → Type 0) (R : B → World crate → Type 0) (m : Io crate A)
      (k : A → Io crate B) (w : World crate)
      → Post f Q (m w)
      → ((a : A) (w' : World crate) → w'.ring_file ≡ f → Q a w' → Post f R (k a w'))
      → Post f R ((m >>= k) w)
  Post-bind Q R m k w h next = go (m w) h
    where
      go : (r : Result KeyError _ × World crate) → Post f Q r → Post f R (continue r.0 k r.1)
      go (ok a, w') h = next a w' h.0 h.1
      go (err e, w') h = h

module _ {crate : RingCrate} (f : RingFile) where
  -- A block whose first call satisfies a postcondition, towards any statement on its result.
  pub bind_cases :
      {A B : Type 0} (Q : A → World crate → Type 0) (T : Result KeyError B × World crate → Type 0)
      (m : Io crate A) (k : A → Io crate B) (w : World crate)
      → Post f Q (m w)
      → ((a : A) (w' : World crate) → w'.ring_file ≡ f → Q a w' → T (k a w'))
      → ((e : KeyError) (w' : World crate) → w'.ring_file ≡ f → e ≢ stuck → T (err e, w'))
      → T ((m >>= k) w)
  bind_cases Q T m k w h next fail = go (m w) h
    where
      go : (r : Result KeyError _ × World crate) → Post f Q r → T (continue r.0 k r.1)
      go (ok a, w') h = next a w' h.0 h.1
      go (err e, w') h = fail e w' h.0 h.1

  pub Post-weaken :
      {A : Type 0} {Q R : A → World crate → Type 0}
      → ((a : A) (w : World crate) → Q a w → R a w)
      → (r : Result KeyError A × World crate) → Post f Q r
      → Post f R r
  Post-weaken g (ok a, w) h = (h.0, g a w h.1)
  Post-weaken g (err e, w) h = h

-- The name of the key that the random source makes at a number, if it makes one.
abbrev pub kid_at : (crate : RingCrate) → RingAlgorithm → ℕ → Option Text
kid_at crate algorithm n = elim (crate.generate_pkcs8 algorithm n) [
  | none ↦ none
  | some pkcs8 ↦ elim (crate.from_pkcs8 algorithm pkcs8) [
    | none ↦ none
    | some pair ↦ some (thumbprint crate algorithm (base64url (crate.public_key pair)))
  ]
]

kid_at_made :
    (crate : RingCrate) (algorithm : RingAlgorithm) (n : ℕ) {d : Bytes} {pair : crate.SigningPair}
    → crate.generate_pkcs8 algorithm n ≡ some d
    → crate.from_pkcs8 algorithm d ≡ some pair
    → kid_at crate algorithm n
      ≡ some (thumbprint crate algorithm (base64url (crate.public_key pair)))
kid_at_made crate algorithm n g p = rw (g, kid_at) (rw p refl)

-- Keys made at different numbers have different names.
pub record CollisionFree (crate : RingCrate) : Type 0 where
  pub apart :
      (a b : RingAlgorithm) (m n : ℕ) (k : Text)
      → kid_at crate a m ≡ some k
      → kid_at crate b n ≡ some k
      → m ≡ n

-- No key that is made from `n` on has one of these names.
abbrev pub Unused : RingCrate → ℕ → List Text → Type 0
Unused crate n ks =
    (a : RingAlgorithm) (m : ℕ) (k : Text) → n ≤ m → kid_at crate a m ≡ some k → All (λ j. j ≢ k) ks

module _ {crate : RingCrate} where
  pub io-Post :
      {f : RingFile} (e : KeyError) (w : World crate)
      → e ≢ stuck
      → w.ring_file ≡ f
      → Post f (λ _ w'. w'.random ≡ w.random) (io e w)
  unfolding io
  io-Post {f} e w h p = go w.outcomes
    where
      go : (l : List Bool) → Post f (λ _ w'. w'.random ≡ w.random) (answer e l w)
      go [] = (p, refl)
      go (true ∷ rest) = (p, refl)
      go (false ∷ rest) = (p, h)

  -- The rest of a block behind a call of the file system.
  pub Post-io :
      {f : RingFile} {B : Type 0} (R : B → World crate → Type 0) (e : KeyError) (k : Io crate B)
      (w : World crate)
      → e ≢ stuck
      → w.ring_file ≡ f
      → ((w' : World crate) → w'.ring_file ≡ f → w'.random ≡ w.random → Post f R (k w'))
      → Post f R ((io e >> k) w)
  Post-io {f} R e k w h p next =
      Post-bind f (λ _ w'. w'.random ≡ w.random) R (io e) (λ _. k) w (io-Post e w h p)
        (λ _ w' f r. next w' f r)

  -- What `create` answers: a key that the random source made.
  abbrev pub Made : RingAlgorithm → ℕ → Bool → ℕ → Entry → World crate → Type 0
  Made algorithm now signing n e w =
      (key : Text) × (e ≡ new_entry crate algorithm now signing key)
      × (kid_at crate algorithm n ≡ some e.kid)
      × (w.random ≡ suc n)

  generate_key-Made :
      (algorithm : RingAlgorithm) (now : ℕ) (signing : Bool) {n : ℕ} (w : World crate)
      → w.random ≡ n
      → Post w.ring_file (Made algorithm now signing n) (generate_key algorithm now signing w)
  unfolding generate_key
  generate_key-Made algorithm now signing {n} w q =
      elim (Option-cases (crate.generate_pkcs8 algorithm w.random)) [
        | inl n ↦ rw n (refl, cc)
        | inr (d, g) ↦ elim (Option-cases (crate.from_pkcs8 algorithm d)) [
          | inl n ↦ rw (g, n) (refl, cc)
          | inr (pair, p) ↦
              let named : kid_at crate algorithm n
                  ≡ some (thumbprint crate algorithm (base64url (crate.public_key pair))) =
                rw (← q) (kid_at_made crate algorithm w.random g p) in
              rw (g, p)
                (Post-io (Made algorithm now signing n) backend _ _ (cc) refl λ w1 f1 r1.
                  Post-io (Made algorithm now signing n) backend _ _ (cc) f1 λ w2 f2 r2.
                    (f2, (base64url (crate.public_key pair), refl, named, r2 ∙ r1 ∙ ap suc q)))
        ]
      ]

  pub create-Made :
      (algorithm : RingAlgorithm) (now : ℕ) (signing : Bool) (w : World crate)
      → Post w.ring_file (Made algorithm now signing w.random) (create algorithm now signing w)
  unfolding create
  create-Made algorithm now signing w =
      Post-io (Made algorithm now signing w.random) backend _ w (cc) refl λ w1 f1 r1.
        Post-io (Made algorithm now signing w.random) backend _ w1 (cc) f1
          λ w2 f2 r2. rw (← f2) (generate_key-Made algorithm now signing w2 (r2 ∙ r1))

  -- The entry of a key that was made joins names that no key will be made for again.
  pub Made-fresh :
      (algorithm : RingAlgorithm) (now n : ℕ) (signing : Bool) {e : Entry} (w : World crate)
      (keys : List Entry)
      → CollisionFree crate
      → Made algorithm now signing n e w
      → Distinct (kids keys)
      → Unused crate n (kids keys)
      → Distinct (kids (keys ++ e ∷ [])) × Unused crate w.random (kids (keys ++ e ∷ []))
  Made-fresh algorithm now n signing {e} w keys free (key, is, named, next) v u = (
    rw kids-append (Distinct-snoc (kids keys) e.kid v (u algorithm n e.kid (omega arith) named)),
    unused,
  )
    where
      unused : Unused crate w.random (kids (keys ++ e ∷ []))
      unused a m k h g = rw kids-append (
          All-append (λ j. j ≢ k) (kids keys) (e.kid ∷ []) (u a m k (omega (arith, next)) g)
            (
              λ p. absurd (omega (arith, free.apart algorithm a n m k (named ∙ ap some p) g, next)),
              tt,
            ))

  forget-Post :
      {f : RingFile} (kid : Text) (w : World crate)
      → w.ring_file ≡ f
      → Post f (λ _ w'. w'.random ≡ w.random) (forget kid w)
  unfolding forget
  forget-Post kid w p =
      Post-io (λ _ w'. w'.random ≡ w.random) backend _ _ (cc) p (λ w1 f1 r1. (f1, r1))

  pub forget_all-Post :
      {f : RingFile} (names : List Text) (w : World crate)
      → w.ring_file ≡ f
      → Post f (λ _ w'. w'.random ≡ w.random) (forget_all names w)
  unfolding forget_all
  forget_all-Post [] w p = (p, refl)
  forget_all-Post {f} (kid ∷ rest) w p =
      Post-bind f (λ _ w'. w'.random ≡ w.random) (λ _ w'. w'.random ≡ w.random) (forget kid)
        (λ _. forget_all rest) w (forget-Post kid w p)
        (λ _ w1 f1 r1.
          Post-weaken f (λ _ w' q. q ∙ r1) (forget_all rest w1) (forget_all-Post rest w1 f1))
