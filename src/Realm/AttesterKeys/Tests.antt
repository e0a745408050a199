-- ===== src/Realm/AttesterKeys/Tests.antt =====
-- A cache with one attester, whose key set has a key to verify with and one that carries its private
-- half.
use pic_x.Base.{
  Text, codes, List, [], ◌∷◌, none, some, ◌≡◌, refl, ok, text_eq, lookup, any, All, retain,
}
use pic_x.Json.{Value, text, array, object, nil, cons, end, field, get_field, items}
use pic_x.Realm.AttesterKeys.{
  Source, CacheEntry, AttesterKeyCache, Answer, parse_key_set, refresh, refresh_all, insert, fail,
  keys_for,
}
use pic_x.Realm.AttesterKeys.Serving.{IsPublic, IsPublished, after, keys_for-after}
use pic_x.Realm.AttesterKeys.Failing.{IsHeld, refresh-IsHeld}

abbrev public_key : Value
public_key = object (field (codes "kty") (text (codes "OKP")) end)

abbrev leaked_key : Value
leaked_key =
    object (field (codes "kty") (text (codes "OKP")) (field (codes "d") (text (codes "AA")) end))

abbrev document : Value
document = object (field (codes "keys") (array (cons leaked_key (cons public_key nil))) end)

abbrev id : Text
id = codes "lab"

abbrev empty_cache : AttesterKeyCache
empty_cache = record {
  attesters = record { id = id; jwks_uri = codes "https://lab" } ∷ [];
  serve_stale_for = 3600;
  entries = [];
}

abbrev rounds : List (Source → Answer)
rounds = (λ a. (1, some [])) ∷ (λ a. (2, none)) ∷ []

served : keys_for (after (λ body. some document) rounds empty_cache) 9 id ≡ ok (public_key ∷ [])
unfolding keys_for after refresh refresh_all parse_key_set insert fail lookup any text_eq retain
    get_field items
served = refl

keys_for-after_example :
    All
      (λ k. IsPublic k × IsPublished (λ body. some document) rounds empty_cache.attesters id k)
      (public_key ∷ [])
keys_for-after_example =
    keys_for-after (λ body. some document) rounds empty_cache 9 id (public_key ∷ []) refl served

abbrev held : CacheEntry
held = record { keys = public_key ∷ []; fetched_at = 1; failed_since = none }

abbrev full_cache : AttesterKeyCache
full_cache = record empty_cache { entries = (id, held) ∷ [] }

found : lookup id full_cache.entries ≡ some held
unfolding lookup text_eq
found = refl

refresh-IsHeld_example :
    (d : CacheEntry) × (lookup id
        (refresh (λ body. some document) (λ a. (5, none)) full_cache).entries
      ≡ some d)
    × IsHeld held d
refresh-IsHeld_example =
    refresh-IsHeld (λ body. some document) (λ a. (5, none)) id full_cache held (λ a m p. refl) found
