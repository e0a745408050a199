-- ===== src/Keys/Rotation/Fates.antt =====
-- What the sweep decides about an entry, and how its two lists of names pick the entries out.
use mathlib.Core.Bool.{false≢true}
use pic_x.Base.{
  ℕ, ◌≤◌, ◌<◌, ◌≡◌, refl, sym, subst, ◌∙◌, inl, inr, Option, some, none, List, Bool, true, In,
  In-map, In-map_inv, arith, retain, Bool-cases, has_text, saturating_add,
}
use pic_x.Keys.{
  KeyPolicy, Entry, KeyState, published, active, retired, archived, seconds_retained,
  seconds_verify_retained,
}
use pic_x.Keys.Rotation.{fate, fate_at, is_archive, is_forget, kids}
use pic_x.Keys.Rotation.Entries.{
  Distinct, In-unique, In-retain, retain-In, has_text-In, In-has_text,
}
use pic_x.Keys.Lifecycle.{IsExpired, Step, is_archived}

module _ (policy : KeyPolicy) (now : ℕ) where
  fate_at-archive :
      (s : KeyState) (r : Option ℕ)
      → is_archive (fate_at policy now s r) ≡ true
      → (t : ℕ) × (s ≡ retired)
        × (r ≡ some t)
        × (saturating_add t (seconds_retained policy) ≤ now)
        × (seconds_retained policy < seconds_verify_retained policy)
  fate_at-archive retired (some t) h = (t, refl, refl, ground arith, ground arith)
  fate_at-archive archived (some t) h = absurd (ground arith)
  fate_at-archive retired none h = cc
  fate_at-archive archived none h = cc
  fate_at-archive published r h = cc
  fate_at-archive active r h = cc

  fate_at-forget :
      (s : KeyState) (r : Option ℕ)
      → is_forget (fate_at policy now s r) ≡ true
      → (t : ℕ) × (r ≡ some t) × (saturating_add t (seconds_verify_retained policy) ≤ now)
  fate_at-forget retired (some t) h = (t, refl, ground arith)
  fate_at-forget archived (some t) h = (t, refl, ground arith)
  fate_at-forget retired none h = cc
  fate_at-forget archived none h = cc
  fate_at-forget published r h = cc
  fate_at-forget active r h = cc

  pub archive-Step :
      (e : Entry)
      → is_archive (fate policy now e) ≡ true
      → Step policy now e (record e { state = archived })
  archive-Step e h =
      let (t, s, r, over, phase) = fate_at-archive e.state e.retired_at h in
      is_archived e t s r over phase

  pub forget-IsExpired : (e : Entry) → is_forget (fate policy now e) ≡ true → IsExpired policy now e
  forget-IsExpired e h =
      let (t, r, over) = fate_at-forget e.state e.retired_at h in
      record { since = t; stopped = r; over = over }

-- Where the names differ, an entry is named by what a test retains exactly if it passes the test.
pub named_iff :
    (test : Entry → Bool) (keys : List Entry) {e : Entry}
    → Distinct (kids keys)
    → In e keys
    → has_text (kids (retain test keys)) e.kid ≡ test e
named_iff test keys {e} v m = elim (Bool-cases (test e)) [
  | inl p ↦ has_text-In (In-map (λ e. e.kid) (retain-In test m p)) ∙ sym p
  | inr p ↦ elim (Bool-cases (has_text (kids (retain test keys)) e.kid)) [
    | inl q ↦ absurd (false≢true (sym p ∙ found q))
    | inr q ↦ q ∙ sym p
  ]
]
  where
    found : has_text (kids (retain test keys)) e.kid ≡ true → test e ≡ true
    found q =
        let (d, n, r) = In-map_inv (λ e. e.kid) (retain test keys) (In-has_text e.kid _ q) in
        let (o, s) = In-retain test keys n in subst (λ z. test z ≡ true) (In-unique keys v o m r) s
