-- ===== src/Keys/Rotation/Handover.antt =====
-- The hand-over loop of `maintain`: which key is due, what one round does, and that the rounds end.
use mathlib.Core.Option
use pic_x.Base.{
  ℕ, suc, ◌≡◌, refl, sym, ap, subst, inl, inr, Text, some, List, [], ◌∷◌, true, map, arith, All-In,
  In, here, there, In-map, retain, count_if, Bool-cases, Option-cases, text_eq_refl, leb,
}
use pic_x.Keys.{Entry, KeyPolicy}
use pic_x.Keys.Rotation.{
  Pass, kids, is_active, is_published, is_due, earliest, due, retire_entry, retire_active,
  activate_first, hand_over,
}
use pic_x.Keys.Rotation.Entries.{Distinct, In-retain, text_eq-ne}

pub kids-retire : (now : ℕ) (keys : List Entry) → kids (map (retire_entry now) keys) ≡ kids keys
kids-retire now [] = refl
kids-retire now (e ∷ es) = ground (arith, kids-retire now es)

pub count_active-retire :
    (now : ℕ) (keys : List Entry) → count_if is_active (map (retire_entry now) keys) ≡ 0
unfolding count_if
count_active-retire now [] = refl
count_active-retire now (e ∷ es) = ground (arith, count_active-retire now es)

pub count_published-retire :
    (now : ℕ) (keys : List Entry)
    → count_if is_published (map (retire_entry now) keys) ≡ count_if is_published keys
unfolding count_if
count_published-retire now [] = refl
count_published-retire now (e ∷ es) = ground (arith, count_published-retire now es)

-- With no active key there is nothing to retire.
pub map-retire_none :
    (now : ℕ) (keys : List Entry) → count_if is_active keys ≡ 0 → map (retire_entry now) keys ≡ keys
unfolding count_if
map-retire_none now [] h = refl
map-retire_none now (e ∷ es) h = ground (arith, map-retire_none now es)

-- A published entry is not touched by the retirement.
pub In-retire :
    {e : Entry} (now : ℕ) (keys : List Entry)
    → In e keys
    → is_published e ≡ true
    → In e (map (retire_entry now) keys)
In-retire {e} now keys m p =
    subst (λ d. In d (map (retire_entry now) keys)) (same e p) (In-map (retire_entry now) m)
  where
    same : (e : Entry) → is_published e ≡ true → retire_entry now e ≡ e
    same e p = ground arith

In-head : {d e : Entry} {es : List Entry} → d ≡ e → In e (d ∷ es)
In-head {d} {e} {es} p = subst (λ z. In z (d ∷ es)) p here

In-tail : {d e x : Entry} {es : List Entry} → d ≡ e → In d es → In e (x ∷ es)
In-tail {d} {e} {x} {es} p m = there (subst (λ z. In z es) p m)

earliest-In : {e : Entry} (es : List Entry) → earliest es ≡ some e → In e es
unfolding earliest
earliest-In [] h = cc
earliest-In {e} (x ∷ es) h = elim (Option-cases (earliest es)) [
  | inl n ↦ In-head (ground arith)
  | inr (d, s) ↦ elim (Bool-cases (leb x.created_at d.created_at)) [
    | inl p ↦ In-head (ground arith)
    | inr p ↦ In-tail {d = d} (ground arith) (earliest-In es s)
  ]
]

-- The due key is one that is published and whose window has passed.
pub due-In :
    (policy : KeyPolicy) (now : ℕ) (keys : List Entry) {kid : Text}
    → due policy now keys ≡ some kid
    → (e : Entry) × In e keys × (e.kid ≡ kid) × (is_due policy now e ≡ true)
unfolding due
due-In policy now keys {kid} h = elim (Option-cases (earliest (retain (is_due policy now) keys))) [
  | inl n ↦ cc (ap (Option.map (λ (e : Entry). e.kid)) n)
  | inr (e, s) ↦
      let (m, p) = In-retain (is_due policy now) keys (earliest-In _ s) in (e, m, named e s, p)
]
  where
    named : (e : Entry) → earliest (retain (is_due policy now) keys) ≡ some e → e.kid ≡ kid
    named e s = cc (ap (Option.map (λ (e : Entry). e.kid)) s)

-- What the activation of the one entry of that name does to the entries.
pub record Activated (before : List Entry) (e : Entry) (now : ℕ) (r : List Entry × ℕ) : Type 0 where
  pub found : r.1 ≡ 1
  pub names : kids r.0 ≡ kids before
  pub one_active : count_if is_active r.0 ≡ suc (count_if is_active before)
  pub one_less : suc (count_if is_published r.0) ≡ count_if is_published before

pub activate_first-Activated :
    {e : Entry} (now : ℕ) (keys : List Entry)
    → Distinct (kids keys)
    → In e keys
    → is_published e ≡ true
    → Activated keys e now (activate_first e.kid now keys)
unfolding activate_first count_if
activate_first-Activated {e} now _ v here p = ground (arith, text_eq_refl e.kid)
activate_first-Activated {e} now (x ∷ xs) v (there m) p = ground (
  arith,
  text_eq-ne x.kid e.kid (λ q. All-In _ v.0 (In-map (λ e. e.kid) m) (sym q)),
  activate_first-Activated now xs v.1 m p,
)

-- What one round does to the counts and the report.
pub record Handed (before after : Pass) : Type 0 where
  pub names : kids after.keys ≡ kids before.keys
  pub one_active : count_if is_active after.keys ≡ 1
  pub one_less : suc (count_if is_published after.keys) ≡ count_if is_published before.keys
  pub counted : after.report.activated ≡ suc before.report.activated

pub hand_over-Handed :
    (policy : KeyPolicy) (now : ℕ) (p : Pass) {kid : Text}
    → Distinct (kids p.keys)
    → due policy now p.keys ≡ some kid
    → Handed p (hand_over now kid p)
unfolding hand_over retire_active
hand_over-Handed policy now p {kid} v h =
    let (e, m, q, d) = due-In policy now p.keys h in
    let a =
      activate_first-Activated now (map (retire_entry now) p.keys) (rw kids-retire v)
        (In-retire now p.keys m (ground arith)) (ground arith) in
    ground (
      arith,
      a,
      q,
      kids-retire now p.keys,
      count_active-retire now p.keys,
      count_published-retire now p.keys,
    )
