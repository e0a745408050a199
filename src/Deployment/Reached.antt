-- ===== src/Deployment/Reached.antt =====
-- Every realm of a configuration is found in the registry, by its name and by its mount path.
use pic_x.Base.{
  ℕ, Text, Option, some, List, [], ◌∷◌, Bool, true, false, ◌||◌, if◌then◌else◌, ◌≡◌, refl, sym, ◌∙◌,
  ap, subst, Bool-cases, inl, inr, map, text_eq, text_eq_sound, text_eq_refl, has_text, lookup, All,
  Result, ok,
}
use pic_x.Base.Fallible.{through, same}
use pic_x.Config.Parse.{collect}
use pic_x.Config.Realm.{RealmConfig}
use pic_x.Config.State.{Config}
use pic_x.Config.Resolve.{mount_path_of}
use pic_x.Config.Validate.Unique.{name_of, Differ}
use pic_x.Deployment.Registry.{
  Realm, Realms, no_realms, register, insert_at, text_lt, by_name, by_mount,
}
use pic_x.Deployment.Build.{
  SecretStore, BuildError, build_realm, realms_for, token_ring_of, sink_to, operations_ring_of,
  pseudonyms_of,
}

if_twice {ℓ} :
    {A : Type ℓ} (b : Bool) (x y z : A)
    → (if b then x else z) ≡ (if b then x else if b then y else z)
if_twice true x y z = refl
if_twice false x y z = refl

if_swap {ℓ} :
    {A : Type ℓ} (b c : Bool) (x y z : A)
    → (b ≡ true → c ≡ false)
    → (if b then x else if c then y else z) ≡ (if c then y else if b then x else z)
if_swap true c x y z h = rw (h refl) refl
if_swap false true x y z h = refl
if_swap false false x y z h = refl

-- A text is not equal to two texts that differ.
apart : (i k j : Text) → text_eq i k ≡ false → text_eq i j ≡ true → text_eq k j ≡ false
apart i k j e h = elim (Bool-cases (text_eq k j)) [
  | inl f ↦
      let g = text_eq_sound i j h ∙ sym (text_eq_sound k j f) in
      let r = subst (λ x. text_eq i x ≡ true) g (text_eq_refl i) in cc
  | inr f ↦ f
]

lookup-insert_at {ℓ} :
    {V : Type ℓ} (k : Text) (v : V) (m : List (Text × V)) (j : Text)
    → lookup j (insert_at k v m) ≡ (if text_eq k j then some v else lookup j m)
unfolding insert_at lookup
lookup-insert_at k v [] j = refl
lookup-insert_at k v ((i, w) ∷ m) j = elim (Bool-cases (text_eq i k)) [
  | inl e ↦
      let i_is : text_eq i j ≡ text_eq k j = ap (λ x. text_eq x j) (text_eq_sound i k e) in
      rw (e, i_is) (if_twice (text_eq k j) (some v) (some w) (lookup j m))
  | inr e ↦ elim (Bool-cases (text_lt k i)) [
    | inl l ↦ rw (e, l) refl
    | inr l ↦
        rw (e, l, lookup-insert_at k v m j)
          (if_swap (text_eq i j) (text_eq k j) (some w) (some v) (lookup j m) (apart i k j e))
  ]
]

mount_path_of-text_eq : (a b : Text) → text_eq (mount_path_of a) (mount_path_of b) ≡ text_eq a b
unfolding text_eq
mount_path_of-text_eq a b = refl

or_false : (a b : Bool) → (a || b) ≡ false → (a ≡ false) × (b ≡ false)
or_false false b h = (refl, h)
or_false true b h = cc

module _ (prepare : Text → Bool) (resolve : SecretStore → Text → Option (List ℕ)) (c : Config) where
  abbrev build : RealmConfig → Result BuildError Realm
  build r = build_realm prepare resolve c r

  build_realm-name :
      (r : RealmConfig) {b : Realm}
      → build r ≡ ok b
      → (b.name ≡ r.name) × (b.mount_path ≡ r.mount_path)
  unfolding build_realm
  build_realm-name r h =
      let (t, e0, h0) = through (token_ring_of c r) _ h in
      let (a, e1, h1) =
        through (sink_to prepare resolve c r r.audit_destination (operations_ring_of c r)) _ h0 in
      let (p, e2, h2) = through (pseudonyms_of prepare resolve c r) _ h1 in
      subst (λ b. (b.name ≡ r.name) × (b.mount_path ≡ r.mount_path)) (same _ refl h2) (refl, refl)

  abbrev pub IsMounted : RealmConfig → Type 0
  IsMounted r = r.mount_path ≡ mount_path_of r.name

  -- What each realm was built to.
  data Built : List RealmConfig → List Realm → Type 0 where
    nil : Built [] []
    cons :
        {r : RealmConfig} {rs : List RealmConfig} {b : Realm} {bs : List Realm}
        → build r ≡ ok b
        → Built rs bs
        → Built (r ∷ rs) (b ∷ bs)

  collect-Built : (rs : List RealmConfig) {bs : List Realm} → collect build rs ≡ ok bs → Built rs bs
  unfolding collect
  collect-Built [] h = subst (Built []) (same _ refl h) nil
  collect-Built (r ∷ rs) h =
      let (b, e, h1) = through (build r) _ h in
      let (bs, f, h2) = through (collect build rs) _ h1 in
      subst (Built (r ∷ rs)) (same _ refl h2) (cons e (collect-Built rs f))

  -- What later realms register does not stand in the way of another name, nor of its path.
  register-keeps :
      {rs : List RealmConfig} {bs : List Realm} (w : Built rs bs) (acc : Realms) (n : Text)
      → All IsMounted rs
      → has_text (map name_of rs) n ≡ false
      → (lookup n (register bs acc).by_name ≡ lookup n acc.by_name)
        × (lookup (mount_path_of n) (register bs acc).by_mount
            ≡ lookup (mount_path_of n) acc.by_mount)
  unfolding register has_text
  register-keeps nil acc n m f = (refl, refl)
  register-keeps (cons {r} {rs} {b} {bs} e w) acc n (m, ms) f =
      let (other, later) = or_false (text_eq r.name n) (has_text (map name_of rs) n) f in
      let (name, mount) = build_realm-name r e in
      let one : text_eq b.name n ≡ false = subst (λ x. text_eq x n ≡ false) (sym name) other in
      let path : text_eq b.mount_path (mount_path_of n) ≡ false =
        subst (λ x. text_eq x (mount_path_of n) ≡ false) (sym (mount ∙ m))
          (mount_path_of-text_eq r.name n ∙ other) in
      let (k, l) = register-keeps w _ n ms later in
      (
        k ∙ lookup-insert_at b.name b acc.by_name n ∙ rw one refl,
        l ∙ lookup-insert_at b.mount_path b.name acc.by_mount (mount_path_of n) ∙ rw path refl,
      )

  -- A realm of the configuration was built, and the registry finds it by its name and by its path.
  pub record IsReached (registry : Realms) (r : RealmConfig) : Type 0 where
    pub realm : Realm
    pub built : build_realm prepare resolve c r ≡ ok realm
    pub named : by_name registry r.name ≡ some realm
    pub mounted : by_mount registry r.mount_path ≡ some realm

  register-IsReached :
      {rs : List RealmConfig} {bs : List Realm} (w : Built rs bs) (acc : Realms)
      → All IsMounted rs
      → Differ (map name_of rs)
      → All (IsReached (register bs acc)) rs
  unfolding register by_mount
  register-IsReached nil acc m d = tt
  register-IsReached (cons {r} {rs} {b} {bs} e w) acc (m, ms) (f, d) =
      let (name, mount) = build_realm-name r e in
      let (k, l) = register-keeps w _ r.name ms f in
      let named =
        k ∙ lookup-insert_at b.name b acc.by_name r.name ∙ rw (name, text_eq_refl r.name) refl in
      let next : Realms = record {
        by_name = insert_at b.name b acc.by_name;
        by_mount = insert_at b.mount_path b.name acc.by_mount;
      } in
      let path : lookup (mount_path_of r.name) (register bs next).by_mount ≡ some r.name =
        l
        ∙ lookup-insert_at b.mount_path b.name acc.by_mount (mount_path_of r.name)
        ∙ rw (mount, m, text_eq_refl (mount_path_of r.name), name) refl in
      (
        record { realm = b; built = e; named = named; mounted = rw (m, path) named },
        register-IsReached w next ms d,
      )

  pub realms_for-IsReached :
      {registry : Realms}
      → All IsMounted c.realms
      → Differ (map name_of c.realms)
      → realms_for prepare resolve c ≡ ok registry
      → All (IsReached registry) c.realms
  unfolding realms_for
  realms_for-IsReached m d h =
      let (bs, e, h1) = through (collect build c.realms) _ h in
      subst (λ registry. All (IsReached registry) c.realms) (same _ refl h1)
        (register-IsReached (collect-Built c.realms e) no_realms m d)
