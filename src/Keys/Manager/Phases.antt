-- ===== src/Keys/Manager/Phases.antt =====
-- The phases of a maintenance pass: each keeps the names apart, moves keys as the lifecycle allows,
-- counts what it changes, and leaves the ring file alone.
use pic_x.Base.{
  ℕ, ◌≡◌, refl, sym, subst, ◌⊎◌, inl, inr, Text, List, [], ◌∷◌, ◌++◌, Bool, true, false, arith, In,
  In-append, In-cons, In-append_left, pure, ◌>>=◌,
}
use pic_x.Keys.{RingAlgorithm, KeyPolicy, Entry}
use pic_x.Keys.Lifecycle.{Steps, stay, Evolves, IsBorn, Evolves-trans}
use pic_x.Keys.Rotation.{Pass, kids, is_active}
use pic_x.Keys.Rotation.Entries.{Distinct}
use pic_x.Keys.Rotation.Counting.{Counted, Counted-trans, Counted-grown}
use pic_x.Keys.Disk.{RingCrate, RingFile, World, create, new_entry}
use pic_x.Keys.Disk.Post.{Post, Post-bind, CollisionFree, Unused, Made, create-Made, Made-fresh}
use pic_x.Keys.Manager.{Manager, joined}

module _ {crate : RingCrate} where
  -- What holds of the entries between two phases, against the entries that the pass began with.
  pub record Sound (policy : KeyPolicy) (now : ℕ) (p0 p : Pass) (w : World crate) : Type 0 where
    pub distinct : Distinct (kids p.keys)
    pub unused : Unused crate w.random (kids p.keys)
    pub evolves : Evolves policy now p0.keys p.keys
    pub counted : Counted p0 p

-- A key created now is born.
Evolves-joined :
    {policy : KeyPolicy} {now : ℕ} (keys : List Entry) (e : Entry)
    → IsBorn policy now e
    → Evolves policy now keys (keys ++ e ∷ [])
Evolves-joined {policy} {now} keys e born = record {
  descends = λ d m. elim (In-append keys m) [ inl n ↦ (d, inl n, stay) | inr n ↦ last d n ];
  kept = λ d m. (d, stay, inl (In-append_left (e ∷ []) m));
}
  where
    last :
        (d : Entry)
        → In d (e ∷ [])
        → (c : Entry) × (In c keys ⊎ IsBorn policy now c) × Steps policy now c d
    last d n = elim (In-cons n) [
      | inl p ↦ (e, inr born, subst (Steps policy now e) (sym p) stay)
      | inr m ↦ elim m [ ]
    ]

new_entry-IsBorn :
    (crate : RingCrate) (policy : KeyPolicy) (algorithm : RingAlgorithm) (now : ℕ) (signing : Bool)
    (key : Text)
    → IsBorn policy now (new_entry crate algorithm now signing key)
new_entry-IsBorn crate policy algorithm now true key = record {
  created = refl;
  not_retired = refl;
  first_state = inr (refl, refl);
}
new_entry-IsBorn crate policy algorithm now false key = record {
  created = refl;
  not_retired = refl;
  first_state = inl (refl, refl);
}

module _ {crate : RingCrate} (free : CollisionFree crate) (m : Manager) (now : ℕ) (p0 : Pass)
    (f : RingFile) where
  abbrev pub Kept : Pass → World crate → Type 0
  Kept = Sound m.policy now p0

  -- The pass `q` is `p` with one more key, of the configured algorithm.
  abbrev pub Joins : Bool → Pass → Pass → Type 0
  Joins signing p q =
      (e : Entry) × (q ≡ joined signing p e) × (is_active e ≡ signing) × (e.algorithm ≡ m.algorithm)

  pub create-Joins :
      (signing : Bool) (p : Pass) (w : World crate)
      → w.ring_file ≡ f
      → Kept p w
      → Post f
          (λ q w'. Kept q w' × Joins signing p q)
          ((do e ← create m.algorithm now signing; pure (joined signing p e)) w)
  create-Joins signing p w fe k =
      Post-bind f (Made m.algorithm now signing w.random) (λ q w'. Kept q w' × Joins signing p q)
        (create m.algorithm now signing) (λ e. pure (joined signing p e)) w
        (rw (← fe) (create-Made m.algorithm now signing w))
        λ e w' fe' made.
          (fe', (sound e w' made, (e, refl, made_active e w' made, made_algorithm e w' made)))
    where
      sound :
          (e : Entry) (w' : World crate)
          → Made m.algorithm now signing w.random e w'
          → Kept (joined signing p e) w'
      sound e w' made =
          let (d, u) =
            Made-fresh m.algorithm now w.random signing w' p.keys free made k.distinct k.unused in
          record {
            distinct = d;
            unused = u;
            evolves = Evolves-trans k.evolves (
                Evolves-joined p.keys e
                  (rw made.1 (new_entry-IsBorn crate m.policy m.algorithm now signing made.0)));
            counted = Counted-trans k.counted (Counted-grown (ground arith));
          }

      made_active :
          (e : Entry) (w' : World crate)
          → Made m.algorithm now signing w.random e w'
          → is_active e ≡ signing
      made_active e w' made = rw made.1 (ground arith)

      made_algorithm :
          (e : Entry) (w' : World crate)
          → Made m.algorithm now signing w.random e w'
          → e.algorithm ≡ m.algorithm
      made_algorithm e w' made = rw made.1 refl
