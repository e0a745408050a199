-- ===== src/Keys/Rotation/Ends.antt =====
-- The hand-over loop ends, and what holds when it has.
use pic_x.Base.{
  ℕ, suc, zero, ◌<◌, ◌≡◌, refl, ◌∙◌, inl, inr, some, none, arith, count_if, Option-cases,
}
use pic_x.Keys.{KeyPolicy}
use pic_x.Keys.Lifecycle.{Evolves, Evolves-refl, Evolves-trans}
use pic_x.Keys.Rotation.{Pass, kids, is_active, is_published, due, hand_over, take_over}
use pic_x.Keys.Rotation.Entries.{Distinct}
use pic_x.Keys.Rotation.Handover.{hand_over-Handed}
use pic_x.Keys.Rotation.Counting.{Counted, Counted-refl, Counted-trans, hand_over-Counted}
use pic_x.Keys.Rotation.Moves.{hand_over-Evolves}

-- What the loop leaves: the same names, one key that signs, nothing due, and only moves of the
-- lifecycle on the way.
pub record Settled (policy : KeyPolicy) (now : ℕ) (before after : Pass) : Type 0 where
  pub names : kids after.keys ≡ kids before.keys
  pub one_active : count_if is_active after.keys ≡ 1
  pub none_due : due policy now after.keys ≡ none
  pub evolves : Evolves policy now before.keys after.keys
  pub counted : Counted before after

-- On entries whose names differ, with one active key, and with more rounds than there are published
-- keys, the hand-over loop ends. It leaves the same names, exactly one active key, and no key that
-- is due, and each entry has moved by steps of the key lifecycle.
pub take_over_ends :
    (policy : KeyPolicy) (now f : ℕ) (p : Pass)
    → Distinct (kids p.keys)
    → count_if is_active p.keys ≡ 1
    → count_if is_published p.keys < f
    → (q : Pass) × (take_over policy now f p ≡ some q) × Settled policy now p q
unfolding take_over
take_over_ends policy now zero p v one few = absurd (omega arith)
take_over_ends policy now (suc f) p v one few = elim (Option-cases (due policy now p.keys)) [
  | inl n ↦ (
    p,
    rw (n, take_over),
    record {
      names = refl;
      one_active = one;
      none_due = n;
      evolves = Evolves-refl p.keys;
      counted = Counted-refl p;
    },
  )
  | inr (kid, h) ↦
      let a = hand_over-Handed policy now p v h in
      let (q, e, s) =
        take_over_ends policy now f (hand_over now kid p) (rw a.names v) a.one_active
          (omega (arith, a.one_less)) in
      (
        q,
        rw (h, take_over) e,
        record {
          names = s.names ∙ a.names;
          one_active = s.one_active;
          none_due = s.none_due;
          evolves = Evolves-trans (hand_over-Evolves policy now p v h) s.evolves;
          counted = Counted-trans (hand_over-Counted policy now p v h) s.counted;
        },
      )
]
