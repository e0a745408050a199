-- ===== src/Keys/Rotation/Counting.antt =====
-- The report counts every change: a step whose report did not grow has left the entries alone.
use pic_x.Base.{
  ℕ, ◌+◌, ◌≤◌, ◌<◌, ◌≡◌, refl, ◌∙◌, ap, List, [], ◌∷◌, arith, count_if, retain, map, not, has_text,
  Text, some,
}
use pic_x.Keys.{KeyPolicy, Maintenance, Entry}
use pic_x.Keys.Rotation.{Pass, kids, due, hand_over, retire_active, archive_entry, settle}
use pic_x.Keys.Rotation.Entries.{Distinct}
use pic_x.Keys.Rotation.Handover.{map-retire_none, hand_over-Handed}

abbrev pub total : Maintenance → ℕ
total r = r.published + r.activated + r.retired + r.archived + r.forgotten

pub record Counted (before after : Pass) : Type 0 where
  pub grows : total before.report ≤ total after.report
  pub still : total after.report ≡ total before.report → after.keys ≡ before.keys

pub Counted-refl : (p : Pass) → Counted p p
Counted-refl p = record { grows = omega arith; still = λ _. refl }

pub Counted-trans : {p q r : Pass} → Counted p q → Counted q r → Counted p r
Counted-trans a b = record {
  grows = omega (arith, a.grows, b.grows);
  still =
      λ h. b.still (omega (arith, a.grows, b.grows)) ∙ a.still (omega (arith, a.grows, b.grows));
}

pub Counted-grown : {p q : Pass} → total p.report < total q.report → Counted p q
Counted-grown h = record { grows = omega arith; still = λ e. absurd (omega arith) }

pub retire_active-Counted : (now : ℕ) (p : Pass) → Counted p (retire_active now p)
unfolding retire_active
retire_active-Counted now p = record {
  grows = omega arith;
  still = λ h. map-retire_none now p.keys (omega arith);
}

pub hand_over-Counted :
    (policy : KeyPolicy) (now : ℕ) (p : Pass) {kid : Text}
    → Distinct (kids p.keys)
    → due policy now p.keys ≡ some kid
    → Counted p (hand_over now kid p)
hand_over-Counted policy now p {kid} v h =
    let a = hand_over-Handed policy now p v h in
    Counted-grown (unfold hand_over retire_active in omega (arith, a.counted))

settle_none :
    (names : List Text) (keys : List Entry)
    → count_if (λ e. has_text names e.kid) keys ≡ 0
    → map (archive_entry names) keys ≡ keys
unfolding count_if
settle_none names [] h = refl
settle_none names (e ∷ es) h = ground (arith, settle_none names es)

retain_all : (keys : List Entry) → retain (λ e. not (has_text [] e.kid)) keys ≡ keys
unfolding retain has_text
retain_all [] = refl
retain_all (e ∷ es) = ap (λ l. e ∷ l) (retain_all es)

pub settle-Counted :
    (archiving forgetting : List Text) (p : Pass) → Counted p (settle archiving forgetting p)
unfolding settle
settle-Counted archiving [] p = record {
  grows = omega arith;
  still = λ h. retain_all _ ∙ settle_none archiving p.keys (omega arith);
}
settle-Counted archiving (k ∷ ks) p = Counted-grown (omega arith)
