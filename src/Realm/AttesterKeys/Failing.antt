-- ===== src/Realm/AttesterKeys/Failing.antt =====
-- What a round of refreshing that fails for an attester leaves of its key set.
use pic_x.Base.{
  ℕ, ◌≡◌, refl, ◌∙◌, subst, Text, List, [], ◌∷◌, Option, none, some, true, false, text_eq, lookup,
  arith, inl, inr, Bool-cases, Option-cases, text_eq_sound, In, here, there,
}
use pic_x.Json.{Value}
use pic_x.Realm.Profile.{Bytes}
use pic_x.Realm.AttesterKeys.{
  Source, CacheEntry, Entries, AttesterKeyCache, Answer, insert, fail, mark_failed, parsed,
  refreshed, refresh_all, refresh,
}

-- The same key set, fetched at the same time.
pub record IsHeld (before after : CacheEntry) : Type 0 where
  pub keys : after.keys ≡ before.keys
  pub fetched_at : after.fetched_at ≡ before.fetched_at

mark_failed-IsHeld : (now : ℕ) (e : CacheEntry) → IsHeld e (mark_failed now e)
mark_failed-IsHeld now e = record { keys = ground arith; fetched_at = ground arith }

lookup-insert_other :
    (id other : Text) (e : CacheEntry) (l : Entries)
    → text_eq id other ≡ false
    → lookup other (insert id e l) ≡ lookup other l
unfolding lookup insert
lookup-insert_other id other e [] h = rw h refl
lookup-insert_other id other e ((j, d) ∷ rest) h = elim (Bool-cases (text_eq j id)) [
  | inl p ↦ rw p (rw (text_eq_sound j id p, h) refl)
  | inr p ↦ rw p (ground (arith, lookup-insert_other id other e rest h))
]

lookup-fail :
    (id other : Text) (now : ℕ) (l : Entries) {e : CacheEntry}
    → lookup other l ≡ some e
    → (d : CacheEntry) × (lookup other (fail id now l) ≡ some d) × IsHeld e d
unfolding lookup fail
lookup-fail id other now [] h = cc
lookup-fail id other now ((j, x) ∷ rest) {e} h = elim (Bool-cases (text_eq j other)) [
  | inl q ↦
      let is : x ≡ e = ground arith in
      elim (Bool-cases (text_eq j id)) [
        | inl p ↦ (
          mark_failed now x,
          rw (p, q) refl,
          subst (λ z. IsHeld z (mark_failed now x)) is (mark_failed-IsHeld now x),
        )
        | inr p ↦ (
          x,
          rw (p, q) refl,
          subst (λ z. IsHeld z x) is (record { keys = refl; fetched_at = refl }),
        )
      ]
  | inr q ↦ elim (Bool-cases (text_eq j id)) [
    | inl p ↦ (e, rw (p, q) (rw q at h), record { keys = refl; fetched_at = refl })
    | inr p ↦ let (d, f, i) = lookup-fail id other now rest (rw q at h) in (d, rw (p, q) f, i)
  ]
]

module _ (from_json : Bytes → Option Value) (fetch : Source → Answer) (id : Text) where
  -- No attester of that name has answered with a key set.
  abbrev pub NoneAnswers : List Source → Type 0
  NoneAnswers attesters =
      (a : Source) → In a attesters → text_eq a.id id ≡ true → parsed from_json (fetch a).1 ≡ none

  refresh_all-IsHeld :
      (l : List Source) (entries : Entries) (e : CacheEntry)
      → NoneAnswers l
      → lookup id entries ≡ some e
      → (d : CacheEntry) × (lookup id (refresh_all from_json fetch l entries) ≡ some d) × IsHeld e d
  unfolding refresh_all
  refresh_all-IsHeld [] entries e none_answers h = (e, h, record { keys = refl; fetched_at = refl })
  refresh_all-IsHeld (a ∷ rest) entries e none_answers h =
      let (d, f, i) = one in
      let (d', f', i') = refresh_all-IsHeld rest _ d (λ b m. none_answers b (there m)) f in
      (d', f', record { keys = i'.keys ∙ i.keys; fetched_at = i'.fetched_at ∙ i.fetched_at })
    where
      one :
          (d : CacheEntry) × (lookup id
              (refreshed from_json a.id (fetch a).0 (parsed from_json (fetch a).1) entries)
            ≡ some d)
          × IsHeld e d
      one = elim (Option-cases (parsed from_json (fetch a).1)) [
        | inl n ↦ rw n (lookup-fail a.id id (fetch a).0 entries h)
        | inr (keys, p) ↦ elim (Bool-cases (text_eq a.id id)) [
          | inl same ↦ cc (none_answers a here same)
          | inr other ↦ (
            e,
            rw p (lookup-insert_other a.id id _ entries other ∙ h),
            record { keys = refl; fetched_at = refl },
          )
        ]
      ]

  -- A round of refreshing in which no attester of that name answers with a key set leaves the key
  -- set that is held for the name, and the time it was fetched at.
  pub refresh-IsHeld :
      (c : AttesterKeyCache) (e : CacheEntry)
      → NoneAnswers c.attesters
      → lookup id c.entries ≡ some e
      → (d : CacheEntry) × (lookup id (refresh from_json fetch c).entries ≡ some d) × IsHeld e d
  unfolding refresh
  refresh-IsHeld c e none_answers h = refresh_all-IsHeld c.attesters c.entries e none_answers h
