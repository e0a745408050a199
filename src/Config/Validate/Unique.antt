-- ===== src/Config/Validate/Unique.antt =====
-- What the check of a configuration establishes for the names of its realms.
use pic_x.Base.{
  Text, List, [], ◌∷◌, Bool, true, false, not, ◌≡◌, refl, subst, Bool-cases, inl, inr, map, text_eq,
  text_eq_sound, text_eq_refl, has_text, All, ok,
}
use pic_x.Base.Fallible.{after, passed, refuted}
use pic_x.Config.Realm.{RealmConfig}
use pic_x.Config.State.{Config}
use pic_x.Config.Validate.Realms.{shaped, check_realm, check_realms, validate_realms}
use pic_x.Config.Validate.Whole.{
  validate, check_surfaces, validate_development, validate_admin_access, validate_key_lifecycle,
}

abbrev pub name_of : RealmConfig → Text
name_of r = r.name

-- No text is there twice.
abbrev pub Differ : List Text → Type 0
Differ [] = Unit
Differ (n ∷ ns) = (has_text ns n ≡ false) × Differ ns

abbrev pub IsUsable : Bool → RealmConfig → Type 0
IsUsable development r = (shaped r.name ≡ true) × (check_realm development r ≡ ok tt)

has_text-check_realms :
    (development : Bool) (n : Text) (seen : List Text) (realms : List RealmConfig)
    → check_realms development seen realms ≡ ok tt
    → has_text seen n ≡ true
    → has_text (map name_of realms) n ≡ false
unfolding check_realms has_text
has_text-check_realms development n seen [] h k = refl
has_text-check_realms development n seen (r ∷ rest) h k =
    let (a, h1) = passed (not (has_text seen r.name)) _ _ h in
    let (b, h2) = passed (shaped r.name) _ _ h1 in
    let (c, h3) = after (check_realm development r) _ h2 in
    elim (Bool-cases (text_eq r.name n)) [
      | inl e ↦
          let d = subst (λ m. has_text seen m ≡ false) (text_eq_sound r.name n e) (refuted _ a) in
          cc
      | inr e ↦ rw e (has_text-check_realms development n (r.name ∷ seen) rest h3 (rw e k))
    ]

check_realms-Differ :
    (development : Bool) (seen : List Text) (realms : List RealmConfig)
    → check_realms development seen realms ≡ ok tt
    → Differ (map name_of realms) × All (IsUsable development) realms
unfolding check_realms has_text
check_realms-Differ development seen [] h = (tt, tt)
check_realms-Differ development seen (r ∷ rest) h =
    let (a, h1) = passed (not (has_text seen r.name)) _ _ h in
    let (b, h2) = passed (shaped r.name) _ _ h1 in
    let (c, h3) = after (check_realm development r) _ h2 in
    let (d, u) = check_realms-Differ development (r.name ∷ seen) rest h3 in
    (
      (
        has_text-check_realms development r.name (r.name ∷ seen) rest h3
            (rw (text_eq_refl r.name) refl),
        d,
      ),
      ((b, c), u),
    )

pub validate-Differ :
    (is_file : Text → Bool) (c : Config)
    → validate is_file c ≡ ok tt
    → Differ (map name_of c.realms) × All (IsUsable c.general.development_mode) c.realms
unfolding validate validate_realms
validate-Differ is_file c h =
    let (_, h1) = after (check_surfaces is_file c) _ h in
    let (_, h2) = after (validate_development c) _ h1 in
    let (_, h3) = after (validate_admin_access c) _ h2 in
    let (_, h4) = after (validate_key_lifecycle c) _ h3 in
    let (r, _) = after (validate_realms c.general.development_mode c.realms) _ h4 in
    check_realms-Differ _ [] _ r
