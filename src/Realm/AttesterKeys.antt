-- ===== src/Realm/AttesterKeys.antt =====
-- crates/pic-x-realm/src/attester_keys.rs: the key sets of the configured attesters, as they were last
-- fetched. The fetch is a parameter: for each attester of a round, the time of the answer and the body.
-- Times and the age that is still served are in one unit. A lock that a panic has poisoned is left out.
pub mod Failing
pub mod Serving
mod Tests
use pic_x.Base.{
  ℕ, ◌-◌, Text, codes, List, [], ◌∷◌, Option, none, some, Bool, true, false, not, ◌&&◌, text_eq,
  lookup, any, All, retain, ltb, if◌then◌else◌, Result, ok, err,
}
use pic_x.Base.Fallible.{◌>>=◌, ◌>>◌, ensure, ok_or}
use pic_x.Json.{Value, as_array, get}
use pic_x.Realm.Profile.{Bytes, get_str, is_absent}

pub record Source : Type 0 where
  pub id : Text
  pub jwks_uri : Text

pub record CacheEntry : Type 0 where
  pub keys : List Value
  pub fetched_at : ℕ
  pub failed_since : Option ℕ

abbrev pub Entries : Type 0
Entries = List (Text × CacheEntry)

pub record AttesterKeyCache : Type 0 where
  pub attesters : List Source
  pub serve_stale_for : ℕ
  pub entries : Entries

-- Why `keys_for` has no keys to give.
pub data KeysError : Type 0 where
  not_configured not_fetched stale : KeysError

-- An answer to a fetch: when it came, and its body, if it is one.
abbrev pub Answer : Type 0
Answer = ℕ × Option Bytes

abbrev is_sig : Option Text → Bool
is_sig none = true
is_sig (some usage) = text_eq usage (codes "sig")

-- The two filters of `parse_key_set`.
abbrev pub is_usable : Value → Bool
is_usable jwk = is_sig (get_str jwk (codes "use")) && is_absent (get jwk (codes "d"))

abbrev pub array_of : Option Value → Option (List Value)
array_of none = none
array_of (some v) = as_array v

-- `entries.insert(id, entry)`
unfoldable pub insert : Text → CacheEntry → Entries → Entries
insert id entry [] = (id, entry) ∷ []
insert id entry ((j, e) ∷ rest) =
    let below = insert id entry rest in if text_eq j id then (j, entry) ∷ rest else (j, e) ∷ below

abbrev pub mark_failed : ℕ → CacheEntry → CacheEntry
mark_failed now entry = elim entry.failed_since [
  | none ↦ record entry { failed_since = some now }
  | some _ ↦ entry
]

-- `entries.get_mut(id)`, whose entry is marked as failing from now on, if it was not.
unfoldable pub fail : Text → ℕ → Entries → Entries
fail id now [] = []
fail id now ((j, e) ∷ rest) =
    let below = fail id now rest in
    if text_eq j id then (j, mark_failed now e) ∷ rest else (j, e) ∷ below

unfoldable pub is_ready : AttesterKeyCache → Bool
is_ready c = not (any (λ a. is_absent (lookup a.id c.entries)) c.attesters)

abbrev pub within : ℕ → ℕ → Option ℕ → Bool
within limit now none = true
within limit now (some failed_since) = not (ltb limit (now - failed_since))

unfoldable pub keys_for : AttesterKeyCache → ℕ → Text → Result KeysError (List Value)
keys_for c now id = do
  ensure (any (λ a. text_eq a.id id) c.attesters) not_configured
  entry ← ok_or (lookup id c.entries) not_fetched
  ensure (within c.serve_stale_for now entry.failed_since) stale
  ok entry.keys

module _ (from_json : Bytes → Option Value) where
  unfoldable pub parse_key_set : Bytes → Option (List Value)
  parse_key_set body = elim (from_json body) [
    | none ↦ none
    | some document ↦ elim (array_of (get document (codes "keys"))) [
      | none ↦ none
      | some keys ↦ some (retain is_usable keys)
    ]
  ]

  abbrev pub parsed : Option Bytes → Option (List Value)
  parsed none = none
  parsed (some body) = parse_key_set body

  -- One attester of a round: the key set is replaced, or the entry that is there is marked.
  abbrev pub refreshed : Text → ℕ → Option (List Value) → Entries → Entries
  refreshed id now (some keys) entries =
      insert id (record { keys = keys; fetched_at = now; failed_since = none }) entries
  refreshed id now none entries = fail id now entries

  unfoldable pub refresh_all : (Source → Answer) → List Source → Entries → Entries
  refresh_all fetch [] entries = entries
  refresh_all fetch (a ∷ rest) entries =
      let answer = fetch a in
      refresh_all fetch rest (refreshed a.id answer.0 (parsed answer.1) entries)

  unfoldable pub refresh : (Source → Answer) → AttesterKeyCache → AttesterKeyCache
  refresh fetch c = record c { entries = refresh_all fetch c.attesters c.entries }
