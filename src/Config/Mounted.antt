-- ===== src/Config/Mounted.antt =====
-- Where the realms of a configuration are mounted.
use pic_x.Base.{arith, Text, List, [], ◌∷◌, ◌≡◌, refl, subst, All, Result, ok}
use pic_x.Base.Fallible.{through, same}
use pic_x.Config.Parse.{collect}
use pic_x.Config.Realm.{RealmInput, RealmConfig}
use pic_x.Config.State.{Config}
use pic_x.Config.Resolve.{RealmError, mount_path_of, resolve_realm, with_realms}

abbrev IsMounted : RealmConfig → Type 0
IsMounted r = r.mount_path ≡ mount_path_of r.name

resolve_realm-IsMounted :
    (to_uppercase : Text → Text) (c : Config) (input : RealmInput) (r : RealmConfig)
    → resolve_realm to_uppercase c input ≡ ok r
    → IsMounted r
unfolding resolve_realm
resolve_realm-IsMounted to_uppercase c input r h = ground arith

collect-All :
    (P : RealmConfig → Type 0) (read : RealmInput → Result RealmError RealmConfig)
    (inputs : List RealmInput) {rs : List RealmConfig}
    → ((input : RealmInput) (r : RealmConfig) → read input ≡ ok r → P r)
    → collect read inputs ≡ ok rs
    → All P rs
unfolding collect
collect-All P read [] f h = subst (All P) (same _ refl h) tt
collect-All P read (i ∷ rest) f h =
    let (r, e, h1) = through (read i) _ h in
    let (rs, g, h2) = through (collect read rest) _ h1 in
    subst (All P) (same _ refl h2) (f i r e, collect-All P read rest f g)

pub with_realms-IsMounted :
    (to_uppercase : Text → Text) (c : Config) (inputs : List RealmInput) {d : Config}
    → with_realms to_uppercase c inputs ≡ ok d
    → All IsMounted d.realms
unfolding with_realms
with_realms-IsMounted to_uppercase c inputs h =
    let (rs, e, h1) = through (collect (resolve_realm to_uppercase c) inputs) _ h in
    subst (λ d. All IsMounted d.realms) (same _ refl h1)
      (collect-All IsMounted (resolve_realm to_uppercase c) inputs
        (λ input r. resolve_realm-IsMounted to_uppercase c input r) e)
