-- ===== src/Keys/Rotation/Moves.antt =====
-- The steps of the hand-over as moves of single keys: each is a `Step` of the lifecycle.
use pic_x.Base.{
  ℕ, ◌≡◌, sym, subst, ◌⊎◌, inl, inr, Text, some, List, [], ◌∷◌, true, map, arith, In, here, there,
  In-map, In-map_inv, In-cons, Bool-cases, text_eq, text_eq_sound, leb→le,
}
use pic_x.Keys.{Entry, KeyPolicy}
use pic_x.Keys.Lifecycle.{
  Step, Steps, stay, then_step, takes_over, stands_down, Evolves, IsBorn, IsExpired, Evolves-trans,
}
use pic_x.Keys.Rotation.{
  Pass, kids, is_active, is_due, due, retire_entry, retire_active, activate_entry, activate_first,
  hand_over,
}
use pic_x.Keys.Rotation.Handover.{In-retire, kids-retire, due-In}
use pic_x.Keys.Rotation.Entries.{Distinct, In-unique}

activate_first-descends :
    (kid : Text) (now : ℕ) (keys : List Entry) {d : Entry}
    → In d (activate_first kid now keys).0
    → In d keys ⊎ ((e : Entry) × In e keys × (e.kid ≡ kid) × (d ≡ activate_entry now e))
unfolding activate_first
activate_first-descends kid now [] m = elim m [ ]
activate_first-descends kid now (x ∷ xs) {d} m = elim (Bool-cases (text_eq x.kid kid)) [
  | inl p ↦ changed (text_eq_sound x.kid kid p) (rw p at m)
  | inr p ↦ same (activate_first-descends kid now xs) (rw p at m)
]
  where
    changed :
        x.kid ≡ kid
        → In d (activate_entry now x ∷ xs)
        → In d (x ∷ xs) ⊎ ((e : Entry) × In e (x ∷ xs) × (e.kid ≡ kid) × (d ≡ activate_entry now e))
    changed q n = elim (In-cons n) [ inl r ↦ inr (x, here, q, r) | inr o ↦ inl (there o) ]

    same :
        {ys : List Entry}
        → (In d ys → In d xs ⊎ ((e : Entry) × In e xs × (e.kid ≡ kid) × (d ≡ activate_entry now e)))
        → In d (x ∷ ys)
        → In d (x ∷ xs) ⊎ ((e : Entry) × In e (x ∷ xs) × (e.kid ≡ kid) × (d ≡ activate_entry now e))
    same f n = elim (In-cons n) [
      | inl r ↦ inl (subst (λ z. In z (x ∷ xs)) (sym r) here)
      | inr o ↦ below (f o)
    ]
      where
        below :
            In d xs ⊎ ((e : Entry) × In e xs × (e.kid ≡ kid) × (d ≡ activate_entry now e))
            → In d (x ∷ xs)
              ⊎ ((e : Entry) × In e (x ∷ xs) × (e.kid ≡ kid) × (d ≡ activate_entry now e))
        below (inl o) = inl (there o)
        below (inr t) = let (e, o, q, r) = t in inr (e, there o, q, r)

activate_first-kept :
    (kid : Text) (now : ℕ) {e : Entry} {keys : List Entry}
    → In e keys
    → In e (activate_first kid now keys).0
      ⊎ ((e.kid ≡ kid) × In (activate_entry now e) (activate_first kid now keys).0)
unfolding activate_first
activate_first-kept kid now {e} here = elim (Bool-cases (text_eq e.kid kid)) [
  | inl p ↦ rw p (inr (text_eq_sound e.kid kid p, here))
  | inr p ↦ rw p (inl here)
]
activate_first-kept kid now (there {x = x} m) = elim (Bool-cases (text_eq x.kid kid)) [
  | inl p ↦ rw p (inl (there m))
  | inr p ↦ rw p (deeper (activate_first-kept kid now m))
]
  where
    deeper :
        {e : Entry} {ys : List Entry} {z : Entry}
        → In e ys ⊎ ((e.kid ≡ kid) × In (activate_entry now e) ys)
        → In e (z ∷ ys) ⊎ ((e.kid ≡ kid) × In (activate_entry now e) (z ∷ ys))
    deeper (inl o) = inl (there o)
    deeper (inr (q, o)) = inr (q, there o)

module _ (policy : KeyPolicy) (now : ℕ) where
  retire_entry-Steps : (e : Entry) → Steps policy now e (retire_entry now e)
  retire_entry-Steps e = elim (Bool-cases (is_active e)) [
    | inl p ↦ rw p (then_step stay (stands_down e (ground arith)))
    | inr p ↦ rw p stay
  ]

  -- A map that moves each entry by steps.
  pub map-Evolves :
      (f : Entry → Entry) (keys : List Entry)
      → ((e : Entry) → In e keys → Steps policy now e (f e))
      → Evolves policy now keys (map f keys)
  map-Evolves f keys moves = record {
    descends = λ d m.
        let (e, n, q) = In-map_inv f keys m in (e, inl n, subst (Steps policy now e) q (moves e n));
    kept = λ e m. (f e, moves e m, inl (In-map f m));
  }

  pub retire_active-Evolves : (p : Pass) → Evolves policy now p.keys (retire_active now p).keys
  unfolding retire_active
  retire_active-Evolves p = map-Evolves (retire_entry now) p.keys (λ e _. retire_entry-Steps e)

  due_takes_over :
      (e : Entry) → is_due policy now e ≡ true → Step policy now e (activate_entry now e)
  due_takes_over e h = takes_over e (ground arith) (leb→le _ now (ground arith))

  activate_first-Evolves :
      {e : Entry} {keys : List Entry}
      → Distinct (kids keys)
      → In e keys
      → is_due policy now e ≡ true
      → Evolves policy now keys (activate_first e.kid now keys).0
  activate_first-Evolves {e} {keys} v m h = record { descends = comes; kept = stays }
    where
      -- The entry of that name is the due one, whose step is open.
      step : (d : Entry) → In d keys → d.kid ≡ e.kid → Steps policy now d (activate_entry now d)
      step d n q = then_step stay (
          due_takes_over d
            (subst (λ z. is_due policy now z ≡ true) (sym (In-unique keys v n m q)) h))

      comes :
          (d : Entry)
          → In d (activate_first e.kid now keys).0
          → (c : Entry) × (In c keys ⊎ IsBorn policy now c) × Steps policy now c d
      comes d n = elim (activate_first-descends e.kid now keys n) [
        | inl o ↦ (d, inl o, stay)
        | inr t ↦
            let (c, o, q, r) = t in (c, inl o, subst (Steps policy now c) (sym r) (step c o q))
      ]

      stays :
          (c : Entry)
          → In c keys
          → (d : Entry) × Steps policy now c d
            × (In d (activate_first e.kid now keys).0 ⊎ IsExpired policy now d)
      stays c n = elim (activate_first-kept e.kid now n) [
        | inl o ↦ (c, stay, inl o)
        | inr t ↦ let (q, o) = t in (activate_entry now c, step c n q, inl o)
      ]

  -- One round: the due key takes over.
  pub hand_over-Evolves :
      (p : Pass) {kid : Text}
      → Distinct (kids p.keys)
      → due policy now p.keys ≡ some kid
      → Evolves policy now p.keys (hand_over now kid p).keys
  unfolding hand_over retire_active
  hand_over-Evolves p {kid} v h =
      let (e, m, q, d) = due-In policy now p.keys h in
      subst
        (λ k. Evolves policy now p.keys (activate_first k now (map (retire_entry now) p.keys)).0) q
        (Evolves-trans (retire_active-Evolves p) (
          activate_first-Evolves {e = e} (rw kids-retire v) (In-retire now p.keys m (ground arith))
            d))
