-- ===== src/Realm/Exchange/Mapping/Granted.antt =====
-- Where the invariants of an exchange come from.
use pic_x.Base.{
  ◌≡◌, refl, subst, ◌≢◌, inl, inr, Text, codes, Option, none, some, List, [], ◌∷◌, Bool, true,
  false, not, text_eq, text_eq_refl, any, All, In, here, there, Bool-cases, Option-cases, ok,
}
use pic_x.Base.Fallible.{ensure, ok_or, ok_or-ok, ensure-ok, through}
use pic_x.Base.Int.{ltb_ℤ}
use pic_x.Realm.Exchange.{invalid_request, invalid_grant}
use pic_x.Realm.Exchange.Source.{PrivilegeRule, ExchangeProfileConfig, is_empty}
use pic_x.Realm.Exchange.Mapping.{
  Captures, Pattern, Invariant, emitted, place, first_match, same_invariant, add_invariant,
  from_match, emit_all, compile_rules, map_invariants,
}

module _ (compile : Text → Option Pattern) (rules : List PrivilegeRule) where
  -- A rule of the profile that matches the scope.
  pub record IsMatch (scope : Text) (rule : PrivilegeRule) (captures : Captures) : Type 0 where
    pub configured : In rule rules
    pub pattern : Pattern
    pub compiled : compile rule.pattern ≡ some pattern
    pub matched : pattern scope ≡ some captures

  abbrev pub HasMatch : Text → Type 0
  HasMatch scope = (rule : PrivilegeRule) × (captures : Captures) × IsMatch scope rule captures

  -- A scope of the token and a rule that matches it give the invariant.
  abbrev pub IsGranted : List Text → Invariant → Type 0
  IsGranted scopes i =
      (scope : Text) × In scope scopes
      × (rule : PrivilegeRule) × (captures : Captures) × IsMatch scope rule captures
      × (emitted rule.emit scope captures ≡ ok i)

  abbrev IsCompiled : PrivilegeRule × Pattern → Type 0
  IsCompiled r = In r.0 rules × (compile r.0.pattern ≡ some r.1)

  place-All :
      (r : PrivilegeRule × Pattern) (l : List (PrivilegeRule × Pattern))
      → IsCompiled r
      → All IsCompiled l
      → All IsCompiled (place r l)
  unfolding place
  place-All r [] p h = (p, tt)
  place-All r (x ∷ l) p h = elim (Bool-cases (ltb_ℤ x.0.priority r.0.priority)) [
    | inl e ↦ rw e (p, h)
    | inr e ↦ rw e (h.0, place-All r l p h.1)
  ]

  compile_rules-All :
      (some_rules : List PrivilegeRule) (acc : List (PrivilegeRule × Pattern))
      {out : List (PrivilegeRule × Pattern)}
      → ((r : PrivilegeRule) → In r some_rules → In r rules)
      → All IsCompiled acc
      → compile_rules compile some_rules acc ≡ ok out
      → All IsCompiled out
  unfolding compile_rules
  compile_rules-All [] acc {out} m h e = let q : acc ≡ out = cc in subst (All IsCompiled) q h
  compile_rules-All (r ∷ rest) acc m h e =
      let (p, a, e1) = through (ok_or (compile r.pattern) invalid_request) _ e in
      compile_rules-All rest (place (r, p) acc) (λ x i. m x (there i))
        (place-All (r, p) acc (m r here, ok_or-ok (compile r.pattern) invalid_request a) h) e1

  same : {a b : PrivilegeRule × Captures} → some a ≡ some b → a ≡ b
  same h = cc

  first_match-IsMatch :
      (scope : Text) (l : List (PrivilegeRule × Pattern)) (rule : PrivilegeRule)
      (captures : Captures)
      → All IsCompiled l
      → first_match scope l ≡ some (rule, captures)
      → IsMatch scope rule captures
  unfolding first_match
  first_match-IsMatch scope [] rule captures h e = cc
  first_match-IsMatch scope ((r, p) ∷ l) rule captures h e = elim (Option-cases (p scope)) [
    | inl n ↦ first_match-IsMatch scope l rule captures h.1 (rw n at e)
    | inr (c, n) ↦
        subst (λ z. IsMatch scope z.0 z.1) (same (rw n at e))
          (record { configured = h.0.0; pattern = p; compiled = h.0.1; matched = n })
  ]

  add_invariant-All :
      (P : Invariant → Type 0) (i : Invariant) (l : List Invariant)
      → P i
      → All P l
      → All P (add_invariant i l)
  add_invariant-All P i l p h = elim (Bool-cases (any (same_invariant i) l)) [
    | inl e ↦ rw e h
    | inr e ↦ rw e (p, h)
  ]

  from_match-IsGranted :
      (rejects : Bool) (scopes : List Text) (s : Text) (o : Option (PrivilegeRule × Captures))
      (acc : List Invariant) {acc' : List Invariant}
      → In s scopes
      → ((rule : PrivilegeRule) (captures : Captures)
          → o ≡ some (rule, captures)
          → IsMatch s rule captures)
      → All (IsGranted scopes) acc
      → from_match rejects s o acc ≡ ok acc'
      → All (IsGranted scopes) acc' × (rejects ≡ true → HasMatch s)
  from_match-IsGranted true scopes s none acc i m h e = cc
  from_match-IsGranted false scopes s none acc {acc'} i m h e =
      let q : acc ≡ acc' = cc in (subst (All (IsGranted scopes)) q h, λ r. cc)
  from_match-IsGranted rejects scopes s (some (rule, captures)) acc {acc'} i m h e =
      let (x, a, e1) = through (emitted rule.emit s captures) _ e in
      let q : add_invariant x acc ≡ acc' = cc in
      let f = m rule captures refl in
      (
        subst (All (IsGranted scopes)) q
            (add_invariant-All (IsGranted scopes) x acc (s, i, rule, captures, f, a) h),
        λ r. (rule, captures, f),
      )

  -- What the loop has made of the scopes so far.
  emit_all-IsGranted :
      (rejects : Bool) (l : List (PrivilegeRule × Pattern)) (scopes some_scopes : List Text)
      (acc : List Invariant) {out : List Invariant}
      → All IsCompiled l
      → ((s : Text) → In s some_scopes → In s scopes)
      → All (IsGranted scopes) acc
      → emit_all rejects l some_scopes acc ≡ ok out
      → All (IsGranted scopes) out × (rejects ≡ true → All HasMatch some_scopes)
  unfolding emit_all
  emit_all-IsGranted rejects l scopes [] acc {out} c m h e =
      let q : acc ≡ out = cc in (subst (All (IsGranted scopes)) q h, λ r. tt)
  emit_all-IsGranted rejects l scopes (s ∷ rest) acc c m h e =
      let (acc', a, e1) = through (from_match rejects s (first_match s l) acc) _ e in
      let (g, f) =
        from_match-IsGranted rejects scopes s (first_match s l) acc (m s here)
          (λ r k. first_match-IsMatch s l r k c) h a in
      let (out, rest_match) =
        emit_all-IsGranted rejects l scopes rest acc' c (λ x i. m x (there i)) g e1 in
      (out, λ r. (f r, rest_match r))

not_empty : {A : Type 0} (l : List A) → not (is_empty l) ≡ true → l ≢ []
not_empty [] h e = cc
not_empty (x ∷ l) h e = cc

-- When scopes are mapped to invariants, there is at least one invariant, each is what a rule of the
-- profile whose pattern matches a scope of the token emits for that scope, and if the profile
-- rejects unmatched scopes, a rule matches every scope.
pub map_invariants-IsGranted :
    (compile : Text → Option Pattern) (profile : ExchangeProfileConfig) (scopes : List Text)
    (invariants : List Invariant)
    → map_invariants compile profile scopes ≡ ok invariants
    → (invariants ≢ [])
      × All (IsGranted compile profile.rules scopes) invariants
      × (profile.on_unmatched_scope ≡ codes "reject" → All (HasMatch compile profile.rules) scopes)
unfolding map_invariants
map_invariants-IsGranted compile profile scopes invariants h =
    let rejects = text_eq profile.on_unmatched_scope (codes "reject") in
    let (rules, a, h1) = through (compile_rules compile profile.rules []) _ h in
    let (out, b, h2) = through (emit_all rejects rules scopes []) _ h1 in
    let (_, c, h3) = through (ensure (not (is_empty out)) invalid_grant) _ h2 in
    let q : out ≡ invariants = cc in
    let compiled = compile_rules-All compile profile.rules profile.rules [] (λ r i. i) tt a in
    let (granted, matched) =
      emit_all-IsGranted compile profile.rules rejects rules scopes scopes [] compiled (λ s i. i) tt
        b in
    (
      subst (λ l. l ≢ []) q (not_empty out (ensure-ok _ invalid_grant c)),
      subst (All (IsGranted compile profile.rules scopes)) q granted,
      λ e. matched (rw e (text_eq_refl (codes "reject"))),
    )
