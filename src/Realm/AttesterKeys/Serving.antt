-- ===== src/Realm/AttesterKeys/Serving.antt =====
-- What the cache of attesters' keys serves after any rounds of refreshing.
use pic_x.Base.{
  ℕ, ◌≡◌, refl, sym, subst, Bool, false, ◌&&◌, Text, codes, List, [], ◌∷◌, In, here, there,
  In-retain_inv, Option, none, some, true, text_eq, text_eq_sound, lookup, any, All, retain, ok,
  arith, inl, inr, Bool-cases, Option-cases,
}
use pic_x.Json.{Value, get}
use pic_x.Realm.Profile.{Bytes, get_str, is_absent}
use pic_x.Realm.AttesterKeys.{
  array_of, Source, CacheEntry, Entries, AttesterKeyCache, Answer, is_usable, insert, fail,
  mark_failed, keys_for, parse_key_set, parsed, refreshed, refresh_all, refresh,
}

-- A key to verify signatures with: no private part, and no use stated but signatures.
pub record IsPublic (k : Value) : Type 0 where
  pub no_private_part : get k (codes "d") ≡ none
  pub for_signatures :
      (use_of : Text) → get_str k (codes "use") ≡ some use_of → use_of ≡ codes "sig"

-- What the cache holds under each name.
abbrev pub IsClean : (Text → Value → Type 0) → Entries → Type 0
IsClean P = All (λ p. All (P p.0) p.1.keys)

All-of {ℓ} : {A : Type ℓ} (P : A → Type 0) (xs : List A) → ((x : A) → In x xs → P x) → All P xs
All-of P [] f = tt
All-of P (x ∷ xs) f = (f x here, All-of P xs (λ y m. f y (there m)))

and_right : (a b : Bool) → a && b ≡ true → b ≡ true
and_right true b h = h
and_right false b h = cc

and_left : (a : Bool) → a && true ≡ true → a ≡ true
and_left true h = refl
and_left false h = cc

is_usable-IsPublic : (k : Value) → is_usable k ≡ true → IsPublic k
is_usable-IsPublic k h = elim (Option-cases (get k (codes "d"))) [
  | inl n ↦ record {
    no_private_part = n;
    for_signatures =
        λ use_of e. text_eq_sound use_of (codes "sig") (and_left _ (rw (is_usable, n, e) at h));
  }
  | inr (v, e) ↦
      let with_private : is_absent (some v) ≡ true = and_right _ _ (rw (is_usable, e) at h) in cc
]

mark_failed-keys : (now : ℕ) (e : CacheEntry) → (mark_failed now e).keys ≡ e.keys
mark_failed-keys now e = ground arith

module _ (P : Text → Value → Type 0) where
  renamed : (i j : Text) (keys : List Value) → text_eq j i ≡ true → All (P i) keys → All (P j) keys
  renamed i j keys p h = subst (λ n. All (P n) keys) (sym (text_eq_sound j i p)) h

  insert-IsClean :
      (id : Text) (e : CacheEntry) (l : Entries)
      → All (P id) e.keys
      → IsClean P l
      → IsClean P (insert id e l)
  unfolding insert
  insert-IsClean id e [] u h = (u, tt)
  insert-IsClean id e ((j, d) ∷ rest) u h = elim (Bool-cases (text_eq j id)) [
    | inl p ↦ rw p (renamed id j e.keys p u, h.1)
    | inr p ↦ rw p (h.0, insert-IsClean id e rest u h.1)
  ]

  fail-IsClean : (id : Text) (now : ℕ) (l : Entries) → IsClean P l → IsClean P (fail id now l)
  unfolding fail
  fail-IsClean id now [] h = tt
  fail-IsClean id now ((j, d) ∷ rest) h = elim (Bool-cases (text_eq j id)) [
    | inl p ↦ rw p (subst (All (P j)) (sym (mark_failed-keys now d)) h.0, h.1)
    | inr p ↦ rw p (h.0, fail-IsClean id now rest h.1)
  ]

  lookup-IsClean :
      (id : Text) (l : Entries) {e : CacheEntry}
      → IsClean P l
      → lookup id l ≡ some e
      → All (P id) e.keys
  unfolding lookup
  lookup-IsClean id [] h q = cc
  lookup-IsClean id ((j, d) ∷ rest) {e} h q = elim (Bool-cases (text_eq j id)) [
    | inl p ↦
        let is : d ≡ e = ground arith in
        subst (λ n. All (P n) e.keys) (text_eq_sound j id p) (subst (λ x. All (P j) x.keys) is h.0)
    | inr p ↦ lookup-IsClean id rest h.1 (rw p at q)
  ]

module _ (from_json : Bytes → Option Value) where
  -- A key is listed in the document that an attester of this name answered with in one of the rounds.
  pub record IsPublished (rounds : List (Source → Answer)) (attesters : List Source) (id : Text)
      (k : Value) : Type 0 where
    pub fetch : Source → Answer
    pub round : In fetch rounds
    pub attester : Source
    pub configured : In attester attesters
    pub named : attester.id ≡ id
    pub body : Bytes
    pub answered : (fetch attester).1 ≡ some body
    pub document : Value
    pub is_json : from_json body ≡ some document
    pub listed : List Value
    pub is_listed : array_of (get document (codes "keys")) ≡ some listed
    pub among : In k listed

  -- The keys that an answer gives are the usable ones of its document.
  parsed-some :
      (o : Option Bytes) {keys : List Value}
      → parsed from_json o ≡ some keys
      → (body : Bytes) × (o ≡ some body)
        × (document : Value) × (from_json body ≡ some document)
        × (listed : List Value) × (array_of (get document (codes "keys")) ≡ some listed)
        × (retain is_usable listed ≡ keys)
  unfolding parse_key_set
  parsed-some none h = cc
  parsed-some (some body) {keys} h = elim (Option-cases (from_json body)) [
    | inl n ↦ cc (rw (n, parse_key_set) at h)
    | inr (document, p) ↦ elim (Option-cases (array_of (get document (codes "keys")))) [
      | inl n ↦ cc (rw (p, parse_key_set, n) at h)
      | inr (listed, q) ↦
          (body, refl, document, p, listed, q, taken (rw (p, parse_key_set, q) at h))
    ]
  ]
    where
      taken : {a b : List Value} → ◌≡◌ {A = Option (List Value)} (some a) (some b) → a ≡ b
      taken q = cc

  -- The cache after rounds of refreshing, the first round first.
  unfoldable pub after : List (Source → Answer) → AttesterKeyCache → AttesterKeyCache
  after [] c = c
  after (fetch ∷ rounds) c = after rounds (refresh from_json fetch c)

  module _ (P : Text → Value → Type 0) where
    -- Every key of an answer of the round is as it should be.
    abbrev Answers : (Source → Answer) → List Source → Type 0
    Answers fetch l =
        (a : Source)
        → In a l
        → (keys : List Value) → parsed from_json (fetch a).1 ≡ some keys
        → All (P a.id) keys

    refresh_all-IsClean :
        (fetch : Source → Answer) (l : List Source) (entries : Entries)
        → Answers fetch l
        → IsClean P entries
        → IsClean P (refresh_all from_json fetch l entries)
    unfolding refresh_all
    refresh_all-IsClean fetch [] entries f h = h
    refresh_all-IsClean fetch (a ∷ rest) entries f h =
        refresh_all-IsClean fetch rest
          (refreshed from_json a.id (fetch a).0 (parsed from_json (fetch a).1) entries)
          (λ b m. f b (there m))
          (elim (Option-cases (parsed from_json (fetch a).1)) [
            | inl n ↦ rw n (fail-IsClean P a.id (fetch a).0 entries h)
            | inr (keys, p) ↦ rw p (insert-IsClean P a.id _ entries (f a here keys p) h)
          ])

    after-IsClean :
        (rounds : List (Source → Answer)) (c : AttesterKeyCache)
        → ((fetch : Source → Answer) → In fetch rounds → Answers fetch c.attesters)
        → IsClean P c.entries
        → IsClean P (after rounds c).entries × ((after rounds c).attesters ≡ c.attesters)
    unfolding after refresh
    after-IsClean [] c f h = (h, refl)
    after-IsClean (fetch ∷ rounds) c f h =
        after-IsClean rounds (refresh from_json fetch c) (λ g m. f g (there m))
          (refresh_all-IsClean fetch c.attesters c.entries (f fetch here) h)

  -- What is served is an entry of the cache, of an attester that is configured.
  keys_for-ok :
      (c : AttesterKeyCache) (now : ℕ) (id : Text) (keys : List Value)
      → keys_for c now id ≡ ok keys
      → (any (λ a. text_eq a.id id) c.attesters ≡ true)
        × (e : CacheEntry) × (lookup id c.entries ≡ some e)
        × (e.keys ≡ keys)
  unfolding keys_for
  keys_for-ok c now id keys h = ground arith

  -- After any rounds of refreshing a cache that was empty, the keys that are served for a name were
  -- listed in a document that a configured attester of this name answered with in one of the
  -- rounds; none has a private part, and none states another use than signatures.
  pub keys_for-after :
      (rounds : List (Source → Answer)) (c : AttesterKeyCache) (now : ℕ) (id : Text)
      (keys : List Value)
      → c.entries ≡ []
      → keys_for (after rounds c) now id ≡ ok keys
      → All (λ k. IsPublic k × IsPublished rounds c.attesters id k) keys
  keys_for-after rounds c now id keys empty h =
      let P : Text → Value → Type 0 = λ i k. IsPublic k × IsPublished rounds c.attesters i k in
      let (clean, _) = after-IsClean P rounds c answers (rw empty tt) in
      let (_, e, found, is) = keys_for-ok (after rounds c) now id keys h in
      subst (All (P id)) is (lookup-IsClean P id (after rounds c).entries clean found)
    where
      answers :
          (fetch : Source → Answer)
          → In fetch rounds
          → Answers (λ i k. IsPublic k × IsPublished rounds c.attesters i k) fetch c.attesters
      answers fetch round a m keys p =
          let (body, answered, document, is_json, listed, is_listed, kept) =
            parsed-some (fetch a).1 p in
          subst (All _) kept (
            All-of _ (retain is_usable listed) λ k n.
              let (among, usable) = In-retain_inv is_usable listed n in
              (
                is_usable-IsPublic k usable,
                record {
                  fetch = fetch;
                  round = round;
                  attester = a;
                  configured = m;
                  named = refl;
                  body = body;
                  answered = answered;
                  document = document;
                  is_json = is_json;
                  listed = listed;
                  is_listed = is_listed;
                  among = among;
                },
              ))
