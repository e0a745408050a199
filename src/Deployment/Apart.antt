-- ===== src/Deployment/Apart.antt =====
-- The directories of a deployment's realms: no two realms keep anything in the same place.
use pic_x.Base.{
  ℕ, Text, codes, Option, none, some, [], ◌∷◌, ◌++◌, Bool, true, false, not, ◌&&◌, ◌||◌,
  if◌then◌else◌, ◌==◌, ◌≡◌, refl, sym, ◌∙◌, ap, Bool-cases, inl, inr, text_eq, split_once_at,
  is_empty_text, starts_with, arith,
}
use pic_x.Config.State.{Config}
use pic_x.Config.Paths.{
  realm_keys_directory, realm_token_keys_directory, realm_audit_directory, realm_secrets_directory,
}
use pic_x.Config.Validate.Material.{resolve_path, ends_with_slash}
use pic_x.Config.Validate.Realms.{shaped, name_char, all_chars, ends_with_hyphen}
use pic_x.Config.Validate.Whole.{working_dir}

-- What a realm keeps on disk.
pub data Kept : Type 0 where
  operations_keys token_keys audit_trail secrets : Kept

abbrev pub directory_of : Config → Kept → Text → Text
directory_of c operations_keys name = realm_keys_directory c name
directory_of c token_keys name = realm_token_keys_directory c name
directory_of c audit_trail name = realm_audit_directory c name
directory_of c secrets name = realm_secrets_directory c name

-- The path below `realms/<name>/`.
abbrev below : Kept → Text
below operations_keys = codes "operations/keys"
below token_keys = codes "keys"
below audit_trail = codes "operations/audit"
below secrets = codes "operations/secrets"

abbrev relative : Kept → Text → Text
relative k name = codes "realms/" ++ name ++ b'/' ∷ below k

directory_of-relative :
    (c : Config) (k : Kept) (name : Text)
    → directory_of c k name ≡ resolve_path (working_dir c) (relative k name)
directory_of-relative c operations_keys name = refl
directory_of-relative c token_keys name = refl
directory_of-relative c audit_trail name = refl
directory_of-relative c secrets name = refl

append_cancel : (p s t : Text) → p ++ s ≡ p ++ t → s ≡ t
append_cancel [] s t h = h
append_cancel (c ∷ p) s t h = append_cancel p s t cc

-- Relative paths that come to one path under a directory are the same.
resolve_path_cancel :
    (dir s t : Text)
    → starts_with (codes "/") s ≡ false
    → starts_with (codes "/") t ≡ false
    → resolve_path dir s ≡ resolve_path dir t
    → s ≡ t
resolve_path_cancel dir s t a b h = elim (Bool-cases (is_empty_text dir || ends_with_slash dir)) [
  | inl e ↦ append_cancel dir s t (rw (a, b, e) at h)
  | inr e ↦ append_cancel (dir ++ codes "/") s t (rw (a, b, e) at h)
]

both : (a b : Bool) → (a && b) ≡ true → (a ≡ true) × (b ≡ true)
both true b h = (refl, h)
both false b h = cc

no_slash : (c : ℕ) → name_char c ≡ true → (c == b'/') ≡ false
no_slash c h = ground arith

-- The name is what stands before the first slash.
split_once_at-name :
    (name rest : Text)
    → all_chars name_char name ≡ true
    → split_once_at b'/' (name ++ b'/' ∷ rest) ≡ some (name, rest)
unfolding split_once_at all_chars
split_once_at-name [] rest h = refl
split_once_at-name (c ∷ name) rest h =
    let (a, b) = both (name_char c) (all_chars name_char name) h in
    rw (no_slash c a, split_once_at-name name rest b) refl

-- Which of the directories a path below a realm is.
abbrev kept_at : Text → Option Kept
kept_at t =
    if text_eq t (below operations_keys)
    then some operations_keys
    else if text_eq t (below token_keys)
    then some token_keys
    else if text_eq t (below audit_trail)
    then some audit_trail
    else if text_eq t (below secrets)
    then some secrets
    else none

kept_at-below : (k : Kept) → kept_at (below k) ≡ some k
unfolding text_eq
kept_at-below operations_keys = refl
kept_at-below token_keys = refl
kept_at-below audit_trail = refl
kept_at-below secrets = refl

shaped-all_chars : (name : Text) → shaped name ≡ true → all_chars name_char name ≡ true
shaped-all_chars name h =
    let (h1, _) = both _ (not (ends_with_hyphen name)) h in
    let (h2, _) = both _ (not (starts_with (codes "-") name)) h1 in
    (both _ (all_chars name_char name) h2).1

some_eq : {A : Type 0} {x y : A} → some x ≡ some y → x ≡ y
some_eq h = cc

abbrev first : Text × Text → Text
first p = p.0

abbrev second : Text × Text → Text
second p = p.1

relative_eq :
    (j k : Kept) (a b : Text)
    → shaped a ≡ true
    → shaped b ≡ true
    → relative j a ≡ relative k b
    → (a ≡ b) × (j ≡ k)
relative_eq j k a b ha hb h =
    let cut : a ++ b'/' ∷ below j ≡ b ++ b'/' ∷ below k = append_cancel (codes "realms/") _ _ h in
    let parts = some_eq (
      sym (split_once_at-name a (below j) (shaped-all_chars a ha))
      ∙ ap (split_once_at b'/') cut
      ∙ split_once_at-name b (below k) (shaped-all_chars b hb)) in
    let rest = ap second parts in
    (ap first parts, some_eq (sym (kept_at-below j) ∙ ap kept_at rest ∙ kept_at-below k))

-- Directories of realms with usable names are the same only for one realm and one use.
pub directory_of_eq :
    (c : Config) (j k : Kept) (a b : Text)
    → shaped a ≡ true
    → shaped b ≡ true
    → directory_of c j a ≡ directory_of c k b
    → (a ≡ b) × (j ≡ k)
unfolding starts_with
directory_of_eq c j k a b ha hb h = relative_eq j k a b ha hb (
    resolve_path_cancel (working_dir c) (relative j a) (relative k b) refl refl
      (sym (directory_of-relative c j a) ∙ h ∙ directory_of-relative c k b))
