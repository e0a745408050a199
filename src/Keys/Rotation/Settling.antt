-- ===== src/Keys/Rotation/Settling.antt =====
-- The end of the sweep: entries are archived and dropped only as the lifecycle allows, and the keys
-- that publish and sign are left alone.
use pic_x.Base.{
  ℕ, ◌≡◌, refl, sym, subst, ◌∙◌, ◌⊎◌, inl, inr, Text, List, [], ◌∷◌, Bool, true, In, here, there,
  In-map, In-map_inv, arith, retain, map, not, count_if, Bool-cases, has_text, All,
}
use pic_x.Keys.{KeyPolicy, Entry}
use pic_x.Keys.Lifecycle.{Steps, stay, then_step, Evolves, IsBorn, IsExpired}
use pic_x.Keys.Rotation.{
  kids, is_active, is_archive, is_forget, fate, to_archive, to_forget, archive_entry,
}
use pic_x.Keys.Rotation.Entries.{Distinct, In-retain, retain-In, retain-All, retain-Distinct}
use pic_x.Keys.Rotation.Fates.{archive-Step, forget-IsExpired, named_iff}

kids-archive :
    (names : List Text) (keys : List Entry) → kids (map (archive_entry names) keys) ≡ kids keys
kids-archive names [] = refl
kids-archive names (e ∷ es) = ground (arith, kids-archive names es)

kid-archive : (names : List Text) (e : Entry) → (archive_entry names e).kid ≡ e.kid
kid-archive names e = ground arith

-- A map and a filter that keep the active entries keep their number.
count_active-map :
    (f : Entry → Entry) (test : Entry → Bool) (keys : List Entry)
    → ((e : Entry)
        → In e keys
        → (is_active (f e) ≡ is_active e) × (is_active e ≡ true → test (f e) ≡ true))
    → count_if is_active (retain test (map f keys)) ≡ count_if is_active keys
unfolding count_if retain
count_active-map f test [] h = refl
count_active-map f test (e ∷ es) h =
    ground (arith, h e here, count_active-map f test es (λ d m. h d (there m)))

module _ (policy : KeyPolicy) (now : ℕ) (keys : List Entry) (v : Distinct (kids keys)) where
  abbrev pub archiving : List Text
  archiving = to_archive policy now keys

  abbrev pub forgetting : List Text
  forgetting = to_forget policy now keys

  archived_fate :
      {e : Entry} → In e keys → has_text archiving e.kid ≡ is_archive (fate policy now e)
  archived_fate m = named_iff (λ e. is_archive (fate policy now e)) keys v m

  forgotten_fate :
      {e : Entry} → In e keys → has_text forgetting e.kid ≡ is_forget (fate policy now e)
  forgotten_fate m = named_iff (λ e. is_forget (fate policy now e)) keys v m

  archive_entry-Steps : (e : Entry) → In e keys → Steps policy now e (archive_entry archiving e)
  archive_entry-Steps e m = elim (Bool-cases (has_text archiving e.kid)) [
    | inl p ↦ rw p (then_step stay (archive-Step policy now e (sym (archived_fate m) ∙ p)))
    | inr p ↦ rw p stay
  ]

  abbrev pub remains : Entry → Bool
  remains e = not (has_text forgetting e.kid)

  abbrev pub settled_keys : List Entry
  settled_keys = retain remains (map (archive_entry archiving) keys)

  pub settled-Evolves : Evolves policy now keys settled_keys
  settled-Evolves = record { descends = comes; kept = stays }
    where
      comes :
          (d : Entry)
          → In d settled_keys
          → (e : Entry) × (In e keys ⊎ IsBorn policy now e) × Steps policy now e d
      comes d m =
          let (n, _) = In-retain remains (map (archive_entry archiving) keys) m in
          let (e, o, q) = In-map_inv (archive_entry archiving) keys n in
          (e, inl o, subst (Steps policy now e) q (archive_entry-Steps e o))

      stays :
          (e : Entry)
          → In e keys
          → (d : Entry) × Steps policy now e d × (In d settled_keys ⊎ IsExpired policy now d)
      stays e m = elim (Bool-cases (has_text forgetting e.kid)) [
        | inl p ↦ (e, stay, inr (forget-IsExpired policy now e (sym (forgotten_fate m) ∙ p)))
        | inr p ↦ (
          archive_entry archiving e,
          archive_entry-Steps e m,
          inl (
              retain-In remains (In-map (archive_entry archiving) m)
                (rw (kid-archive archiving e) (ground arith))),
        )
      ]

  pub settled-Distinct : Distinct (kids settled_keys)
  settled-Distinct =
      retain-Distinct remains (map (archive_entry archiving) keys) (rw kids-archive v)

  active_stays :
      (e : Entry)
      → In e keys
      → (is_active (archive_entry archiving e) ≡ is_active e)
        × (is_active e ≡ true → remains (archive_entry archiving e) ≡ true)
  active_stays e m = rw kid-archive (ground (arith, archived_fate m, forgotten_fate m))

  pub settled-active : count_if is_active settled_keys ≡ count_if is_active keys
  settled-active = count_active-map (archive_entry archiving) remains keys active_stays

  pub settled-All : (P : Text → Type 0) → All P (kids keys) → All P (kids settled_keys)
  settled-All P h = retain-All remains P (map (archive_entry archiving) keys) (rw kids-archive h)
