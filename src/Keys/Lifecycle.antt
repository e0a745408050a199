-- ===== src/Keys/Lifecycle.antt =====
-- The life of a key as a step relation: what crates/pic-x-core/src/keys.rs and the header of
-- crates/pic-x-std/src/keys.rs promise of one entry, apart from how a pass over a ring does it.
use pic_x.Base.{ℕ, ◌≤◌, ◌<◌, ◌≡◌, ◌⊎◌, inl, inr, none, some, List, In, saturating_add}
use pic_x.Keys.{
  KeyPolicy, Entry, published, active, retired, archived, seconds_ahead, seconds_retained,
  seconds_verify_retained,
}

abbrev pub stood_down : ℕ → Entry → Entry
stood_down now e = record e { state = retired; retired_at = some now }

module _ (policy : KeyPolicy) (now : ℕ) where
  -- One move of a key, with what has to hold first.
  pub data Step : Entry → Entry → Type 0 where
    takes_over :
        (e : Entry)
        → e.state ≡ published
        → saturating_add e.created_at (seconds_ahead policy) ≤ now
        → Step e (record e { state = active; activated_at = some now })
    stands_down : (e : Entry) → e.state ≡ active → Step e (stood_down now e)
    is_archived :
        (e : Entry) (t : ℕ)
        → e.state ≡ retired
        → e.retired_at ≡ some t
        → saturating_add t (seconds_retained policy) ≤ now
        → seconds_retained policy < seconds_verify_retained policy
        → Step e (record e { state = archived })

  pub data Steps (e : Entry) : Entry → Type 0 where
    stay : Steps e e
    then_step : {d f : Entry} → Steps e d → Step d f → Steps e f

  -- A key that nothing it signed is expected to verify by any longer.
  pub record IsExpired (e : Entry) : Type 0 where
    pub since : ℕ
    pub stopped : e.retired_at ≡ some since
    pub over : saturating_add since (seconds_verify_retained policy) ≤ now

  -- A key as it is created now.
  pub record IsBorn (e : Entry) : Type 0 where
    pub created : e.created_at ≡ now
    pub not_retired : e.retired_at ≡ none
    pub first_state :
        ((e.state ≡ published) × (e.activated_at ≡ none))
        ⊎ ((e.state ≡ active) × (e.activated_at ≡ some now))

  -- How the entries of a ring may change in one pass: every entry comes by steps from one that was
  -- there or was created, and every entry that was there is still there, after steps, or has expired.
  pub record Evolves (before after : List Entry) : Type 0 where
    pub descends : (d : Entry) → In d after → (e : Entry) × (In e before ⊎ IsBorn e) × Steps e d
    pub kept : (e : Entry) → In e before → (d : Entry) × Steps e d × (In d after ⊎ IsExpired d)

module _ {policy : KeyPolicy} {now : ℕ} where
  pub Steps-trans :
      {e d f : Entry} → Steps policy now e d → Steps policy now d f → Steps policy now e f
  Steps-trans p stay = p
  Steps-trans p (then_step q s) = then_step (Steps-trans p q) s

  pub Evolves-refl : (keys : List Entry) → Evolves policy now keys keys
  Evolves-refl keys = record { descends = λ d m. (d, inl m, stay); kept = λ e m. (e, stay, inl m) }

  pub Evolves-trans :
      {a b c : List Entry}
      → Evolves policy now a b
      → Evolves policy now b c
      → Evolves policy now a c
  Evolves-trans {a} {b} {c} p q = record { descends = comes; kept = stays }
    where
      comes :
          (d : Entry) → In d c → (e : Entry) × (In e a ⊎ IsBorn policy now e) × Steps policy now e d
      comes d m =
          let (e, o, s) = q.descends d m in
          elim o [
            | inl old ↦ let (e', o', s') = p.descends e old in (e', o', Steps-trans s' s)
            | inr new ↦ (e, inr new, s)
          ]

      stays :
          (e : Entry)
          → In e a
          → (d : Entry) × Steps policy now e d × (In d c ⊎ IsExpired policy now d)
      stays e m =
          let (d, s, o) = p.kept e m in
          elim o [
            | inl old ↦ let (d', s', o') = q.kept d old in (d', Steps-trans s s', o')
            | inr gone ↦ (d, s, inr gone)
          ]
