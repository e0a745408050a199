-- ===== src/Deployment/Registry.antt =====
-- A realm and the registry of all realms (crates/pic-x-core/src/realm.rs). The collaborators of a realm are
-- kept as what they are built from.
use pic_x.Base.{
  ℕ, Text, Option, none, some, List, [], ◌∷◌, ◌++◌, Bool, true, false, if◌then◌else◌, ◌==◌, ltb,
  ◌&&◌, ◌||◌, text_eq, lookup, retain, map, length,
}
use pic_x.Keys.{Duration, KeyPolicy, RingAlgorithm}
use pic_x.Realm.Exchange.Expiry.{TokenInitialExpiryPolicy}
use pic_x.Realm.Exchange.Source.{ExchangeProfileConfig}
use pic_x.Config.Realm.{TrustedAttesterConfig}
use pic_x.Config.Layer.{without_slashes}

-- `DirectoryKeyManager`, by what it is made with.
pub record KeyRing : Type 0 where
  pub directory : Text
  pub policy : KeyPolicy
  pub algorithm : RingAlgorithm

-- A sink that writes to the log, or one that keeps files, with the ring that seals them.
pub data RealmSink : Type 0 where
  to_log : RealmSink
  to_files : Text → Duration → Option KeyRing → RealmSink

-- A key and its version.
pub record Pseudonyms : Type 0 where
  pub key : List ℕ
  pub version : Text

pub record Realm : Type 0 where
  pub name : Text
  pub mount_path : Text
  pub issuer : Option Text
  pub listed : Bool
  pub operations_keys : Option KeyRing
  pub token_keys : Option KeyRing
  pub audit : RealmSink
  pub pseudonymizer : Option Pseudonyms
  pub exchange_profiles : List ExchangeProfileConfig
  pub trusted_attesters : List TrustedAttesterConfig
  pub token_lifetime : Duration
  pub token_initial_expiry_policy : TokenInitialExpiryPolicy
  pub key_cache_stale_for : Duration
  pub token_signing_algorithm : Text

-- The absolute URL of a path within a realm.
abbrev url_from : Option Text → Text → Text → Text
url_from none mount_path path = mount_path ++ path
url_from (some issuer) mount_path path = without_slashes issuer ++ path

unfoldable pub url : Realm → Text → Text
url r path = url_from r.issuer r.mount_path path

-- The order of `String`: by code points, which for UTF-8 is the order of its bytes.
unfoldable pub text_lt : Text → Text → Bool
text_lt [] [] = false
text_lt [] (d ∷ t) = true
text_lt (c ∷ s) [] = false
text_lt (c ∷ s) (d ∷ t) = ltb c d || ((c == d) && text_lt s t)

-- `BTreeMap::insert`
unfoldable pub insert_at {ℓ} : {V : Type ℓ} → Text → V → List (Text × V) → List (Text × V)
insert_at k v [] = (k, v) ∷ []
insert_at k v ((j, w) ∷ m) =
    let below = insert_at k v m in
    if text_eq j k then (k, v) ∷ m else if text_lt k j then (k, v) ∷ (j, w) ∷ m else (j, w) ∷ below

pub record Realms : Type 0 where
  pub by_name : List (Text × Realm)
  pub by_mount : List (Text × Text)

abbrev pub no_realms : Realms
no_realms = record { by_name = []; by_mount = [] }

-- The loop of `Realms::new`.
unfoldable pub register : List Realm → Realms → Realms
register [] acc = acc
register (r ∷ rest) acc = register rest (record {
  by_name = insert_at r.name r acc.by_name;
  by_mount = insert_at r.mount_path r.name acc.by_mount;
})

abbrev pub realms_new : List Realm → Realms
realms_new realms = register realms no_realms

abbrev pub by_name : Realms → Text → Option Realm
by_name realms name = lookup name realms.by_name

abbrev and_named : Realms → Option Text → Option Realm
and_named realms none = none
and_named realms (some name) = by_name realms name

unfoldable pub by_mount : Realms → Text → Option Realm
by_mount realms path = and_named realms (lookup path realms.by_mount)

abbrev value : Text × Realm → Realm
value p = p.1

abbrev pub all : Realms → List Realm
all realms = map value realms.by_name

abbrev is_listed : Realm → Bool
is_listed r = r.listed

abbrev pub listed : Realms → List Realm
listed realms = retain is_listed (all realms)

abbrev pub len : Realms → ℕ
len realms = length realms.by_name
