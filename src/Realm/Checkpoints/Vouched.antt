-- ===== src/Realm/Checkpoints/Vouched.antt =====
-- What a realm's own checkpoint is, apart from how it is looked for.
mod Tests
use pic_x.Base.{
  ◌≡◌, refl, sym, ◌∙◌, ap, subst, ◌⊎◌, inl, inr, ◌↔◌, Text, Option, none, some, List, [], ◌∷◌, Bool,
  true, false, ◌||◌, any, retain, In, here, there, text_eq, text_eq_sound, text_eq_refl, Bool-cases,
}
use pic_x.Keys.Published.{Jwk}
use pic_x.Realm.Profile.{Bytes}
use pic_x.Realm.Checkpoints.{
  Envelopes, bare_key, is_named, verified, verifies, is_signed_by, is_current_checkpoint,
}

-- A key that the ring publishes, under the name of the envelope if it has one, verifies it.
pub record IsVouched (envelopes : Envelopes) (published : Option (List Jwk))
    (exact_pca_bytes : Bytes) : Type 0 where
  pub cose : envelopes.Cose
  pub keys : List Jwk
  pub jwk : Jwk
  pub key : envelopes.Key
  pub read : envelopes.from_bytes exact_pca_bytes ≡ some cose
  pub answered : published ≡ some keys
  pub listed : In jwk keys
  pub named : (name : Text) → envelopes.kid cose ≡ some name → jwk.kid ≡ name
  pub usable : envelopes.public_key_from_jwk (bare_key jwk) ≡ some key
  pub verified : envelopes.verify_with cose key ≡ true

any-retain :
    {A : Type 0} (f g : A → Bool) (l : List A)
    → any f (retain g l) ≡ true
    → (a : A) × In a l × (g a ≡ true) × (f a ≡ true)
unfolding any retain
any-retain f g [] h = cc
any-retain f g (x ∷ l) h = elim (Bool-cases (g x)) [
  | inl e ↦ elim (Bool-cases (f x)) [
    | inl q ↦ (x, here, e, q)
    | inr q ↦ let (a, i, p, r) = any-retain f g l (rw q at (rw e at h)) in (a, there i, p, r)
  ]
  | inr e ↦ let (a, i, p, r) = any-retain f g l (rw e at h) in (a, there i, p, r)
]

retain-any :
    {A : Type 0} (f g : A → Bool) (l : List A) (a : A)
    → In a l
    → g a ≡ true
    → f a ≡ true
    → any f (retain g l) ≡ true
unfolding any retain
retain-any f g [] a i p q = elim i [ ]
retain-any f g (x ∷ l) _ here p q = rw p (rw q refl)
retain-any f g (x ∷ l) a (there i) p q = elim (Bool-cases (g x)) [
  | inl e ↦ elim (Bool-cases (f x)) [
    | inl r ↦ rw e (rw r refl)
    | inr r ↦ rw e (rw r (retain-any f g l a i p q))
  ]
  | inr e ↦ rw e (retain-any f g l a i p q)
]

is_named_iff :
    (o : Option Text) (jwk : Jwk)
    → (is_named o jwk ≡ true) ↔ ((name : Text) → o ≡ some name → jwk.kid ≡ name)
is_named_iff none jwk = ((λ h name e. cc), λ h. refl)
is_named_iff (some kid) jwk = (
  (λ h name e. let q = text_eq_sound jwk.kid kid h in cc),
  λ h. rw (h kid refl) (text_eq_refl kid),
)

module _ (envelopes : Envelopes) (published : Option (List Jwk)) (exact_pca_bytes : Bytes) where
  open envelopes use {Cose, Key}

  is_current_checkpoint-IsVouched :
      is_current_checkpoint envelopes published exact_pca_bytes ≡ true
      → IsVouched envelopes published exact_pca_bytes
  unfolding is_current_checkpoint
  is_current_checkpoint-IsVouched h =
      found (envelopes.from_bytes exact_pca_bytes) published refl refl h
    where
      key_of :
          (cose : Cose) (o : Option Key)
          → verified envelopes cose o ≡ true
          → (k : Key) × (o ≡ some k) × (envelopes.verify_with cose k ≡ true)
      key_of cose none q = cc
      key_of cose (some k) q = (k, refl, q)

      found :
          (c : Option Cose) (p : Option (List Jwk))
          → envelopes.from_bytes exact_pca_bytes ≡ c
          → published ≡ p
          → is_signed_by envelopes c p ≡ true
          → IsVouched envelopes published exact_pca_bytes
      found none p e f q = cc
      found (some cose) none e f q = cc
      found (some cose) (some keys) e f q =
          let (jwk, i, n, v) =
            any-retain (verifies envelopes cose) (is_named (envelopes.kid cose)) keys q in
          let (k, u, w) = key_of cose (envelopes.public_key_from_jwk (bare_key jwk)) v in
          record {
            cose = cose;
            keys = keys;
            jwk = jwk;
            key = k;
            read = e;
            answered = f;
            listed = i;
            named = (is_named_iff (envelopes.kid cose) jwk).0 n;
            usable = u;
            verified = w;
          }

  IsVouched-is_current_checkpoint :
      IsVouched envelopes published exact_pca_bytes
      → is_current_checkpoint envelopes published exact_pca_bytes ≡ true
  unfolding is_current_checkpoint
  IsVouched-is_current_checkpoint i =
      rw (i.read, i.answered)
        (retain-any (verifies envelopes i.cose) (is_named (envelopes.kid i.cose)) i.keys i.jwk
          i.listed ((is_named_iff (envelopes.kid i.cose) i.jwk).1 i.named) (rw i.usable i.verified))

  -- Bytes are a checkpoint of the realm exactly when they are an envelope, the ring answers with
  -- its published keys, and one of these, under the name that the envelope gives if it gives one,
  -- is a usable key that verifies it.
  pub is_current_checkpoint_iff :
      (is_current_checkpoint envelopes published exact_pca_bytes ≡ true)
      ↔ IsVouched envelopes published exact_pca_bytes
  is_current_checkpoint_iff = (is_current_checkpoint-IsVouched, IsVouched-is_current_checkpoint)
