-- ===== src/Keys/Rotation/Switch.antt =====
-- A change of the configured algorithm against keys of the old one that wait to take over.
use pic_x.Base.{
  ℕ, suc, zero, ◌≡◌, refl, sym, subst, inl, inr, Text, some, List, [], ◌∷◌, Bool, true, false, ◌&&◌,
  arith, count_if, any, map, Option-cases, In, here, there, In-map, All-In, text_eq_refl,
}
use pic_x.Keys.{KeyPolicy, Entry, RingAlgorithm, algorithm_eq}
use pic_x.Keys.Rotation.{
  Pass, kids, is_active, is_published, active_is_current, due, retire_entry, retire_active,
  activate_first, hand_over, take_over,
}
use pic_x.Keys.Rotation.Entries.{Distinct, text_eq-ne}
use pic_x.Keys.Rotation.Handover.{kids-retire, due-In, In-retire, hand_over-Handed}

module _ (algorithm : RingAlgorithm) where
  abbrev current : Entry → Bool
  current e = algorithm_eq e.algorithm algorithm

  -- No key in that state is of the algorithm.
  abbrev pub NoneCurrent : (Entry → Bool) → List Entry → Type 0
  NoneCurrent state keys = count_if (λ e. state e && current e) keys ≡ 0

  retire-NoneCurrent :
      (now : ℕ) (keys : List Entry) → NoneCurrent is_active (map (retire_entry now) keys)
  unfolding count_if
  retire-NoneCurrent now [] = refl
  retire-NoneCurrent now (e ∷ es) = ground (arith, retire-NoneCurrent now es)

  retire-NoneCurrent_published :
      (now : ℕ) (keys : List Entry)
      → NoneCurrent is_published keys
      → NoneCurrent is_published (map (retire_entry now) keys)
  unfolding count_if
  retire-NoneCurrent_published now [] h = refl
  retire-NoneCurrent_published now (e ∷ es) h = ground (arith, retire-NoneCurrent_published now es)

  activate-NoneCurrent :
      {e : Entry} (now : ℕ) (keys : List Entry)
      → Distinct (kids keys)
      → In e keys
      → is_published e ≡ true
      → NoneCurrent is_published keys
      → NoneCurrent is_active keys
      → NoneCurrent is_active (activate_first e.kid now keys).0
        × NoneCurrent is_published (activate_first e.kid now keys).0
  unfolding activate_first count_if
  activate-NoneCurrent {e} now _ v here p n a = ground (arith, text_eq_refl e.kid)
  activate-NoneCurrent {e} now (x ∷ xs) v (there m) p n a = ground (
    arith,
    text_eq-ne x.kid e.kid (λ q. All-In _ v.0 (In-map (λ e. e.kid) m) (sym q)),
    activate-NoneCurrent now xs v.1 m p,
  )

  hand_over-NoneCurrent :
      (policy : KeyPolicy) (now : ℕ) (p : Pass) {kid : Text}
      → Distinct (kids p.keys)
      → due policy now p.keys ≡ some kid
      → NoneCurrent is_published p.keys
      → NoneCurrent is_active (hand_over now kid p).keys
        × NoneCurrent is_published (hand_over now kid p).keys
  unfolding hand_over retire_active
  hand_over-NoneCurrent policy now p {kid} v h n =
      let (e, m, q, d) = due-In policy now p.keys h in
      subst
        (λ k.
          NoneCurrent is_active (activate_first k now (map (retire_entry now) p.keys)).0
          × NoneCurrent is_published (activate_first k now (map (retire_entry now) p.keys)).0)
        q
        (activate-NoneCurrent {e = e} now (map (retire_entry now) p.keys) (rw kids-retire v)
          (In-retire now p.keys m (ground arith)) (ground arith)
          (retire-NoneCurrent_published now p.keys n) (retire-NoneCurrent now p.keys))

  take_over-NoneCurrent :
      (policy : KeyPolicy) (now f : ℕ) (p : Pass) {q : Pass}
      → Distinct (kids p.keys)
      → NoneCurrent is_published p.keys
      → NoneCurrent is_active p.keys
      → take_over policy now f p ≡ some q
      → NoneCurrent is_active q.keys
  unfolding take_over
  take_over-NoneCurrent policy now zero p v n a e = cc
  take_over-NoneCurrent policy now (suc f) p v n a e = elim (Option-cases (due policy now p.keys)) [
    | inl none_due ↦ ended (rw (none_due, take_over) at e)
    | inr (kid, h) ↦
        let (a', n') = hand_over-NoneCurrent policy now p v h n in
        take_over-NoneCurrent policy now f (hand_over now kid p)
          (rw (hand_over-Handed policy now p v h).names v) n' a' (rw (h, take_over) at e)
  ]
    where
      same : {q : Pass} → some p ≡ some q → p ≡ q
      same i = cc

      ended : {q : Pass} → some p ≡ some q → NoneCurrent is_active q.keys
      ended i = subst (λ z. NoneCurrent is_active z.keys) (same i) a

  not_current :
      (keys : List Entry) → NoneCurrent is_active keys → active_is_current algorithm keys ≡ false
  unfolding any count_if
  not_current [] h = refl
  not_current (e ∷ es) h = ground (arith, not_current es)

-- On entries whose names differ, if no published key is of the configured algorithm and a key is
-- due, a hand-over loop that ends leaves no active key of the configured algorithm, whatever key
-- was active before.
pub take_over_reverts :
    (policy : KeyPolicy) (now f : ℕ) (algorithm : RingAlgorithm) (p q : Pass) {kid : Text}
    → Distinct (kids p.keys)
    → NoneCurrent algorithm is_published p.keys
    → due policy now p.keys ≡ some kid
    → take_over policy now f p ≡ some q
    → active_is_current algorithm q.keys ≡ false
unfolding take_over
take_over_reverts policy now zero algorithm p q v n h e = cc
take_over_reverts policy now (suc f) algorithm p q {kid} v n h e =
    let (a', n') = hand_over-NoneCurrent algorithm policy now p v h n in
    not_current algorithm q.keys (
      take_over-NoneCurrent algorithm policy now f (hand_over now kid p)
        (rw (hand_over-Handed policy now p v h).names v) n' a' (rw (h, take_over) at e))
