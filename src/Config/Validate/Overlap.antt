-- ===== src/Config/Validate/Overlap.antt =====
-- What the check of a configuration establishes for the rotation of keys.
use pic_x.Base.{
  Text, List, [], ◌∷◌, Bool, true, false, not, ◌&&◌, ◌≡◌, refl, ◌⊎◌, inl, inr, has_text, All,
  Result, ok,
}
use pic_x.Base.Fallible.{after, passed, refuted, ensure-ok}
use pic_x.Keys.{Duration}
use pic_x.Config.Keys.{setting_keys_publish_ahead, setting_keys_rotate_every, setting_keys_retain}
use pic_x.Config.Realm.{RealmConfig}
use pic_x.Config.State.{Config, Lifecycle}
use pic_x.Config.Validate.{
  ConfigError, RingOwner, operations_ring, token_ring, the_server, check_key_lifecycle, lt_duration,
  key_set_max_age,
}
use pic_x.Config.Validate.Realms.{
  shaped, check_realm_issuer, check_operations_ring, check_token_ring, unless_not, check_realm,
  check_realms, validate_realms,
}
use pic_x.Config.Validate.Whole.{
  validate, check_surfaces, validate_development, validate_admin_access, validate_key_lifecycle,
  check_lifecycle,
}

-- Windows that overlap: a key signs before it is replaced, it is kept for as long as it signed, and it is
-- published for as long as a key set is cached before it signs, except in development.
pub record Overlaps (development : Bool) (ahead every retain : Duration) : Type 0 where
  pub turn : lt_duration ahead every ≡ true
  pub kept : lt_duration retain every ≡ false
  pub cached : (lt_duration ahead key_set_max_age ≡ false) ⊎ (development ≡ true)

not_both : (a b : Bool) → not (a && not b) ≡ true → (a ≡ false) ⊎ (b ≡ true)
not_both false b h = inl refl
not_both true true h = inr refl
not_both true false h = cc

check_key_lifecycle-Overlaps :
    (development : Bool) (who : RingOwner) (ahead every retain : Duration)
    → check_key_lifecycle development who ahead every retain ≡ ok tt
    → Overlaps development ahead every retain
unfolding check_key_lifecycle
check_key_lifecycle-Overlaps development who ahead every retain h =
    let (e, h1) = passed (lt_duration ahead every) _ _ h in
    let (f, h2) = passed (not (lt_duration retain every)) _ _ h1 in
    record { turn = e; kept = refuted _ f; cached = not_both _ _ (ensure-ok _ _ h2) }

-- Of a check that is asked for in one case only.
unless_not-ok :
    (test : Bool) (check : Result ConfigError (Unit {0}))
    → unless_not test check ≡ ok tt
    → test ≡ true
    → check ≡ ok tt
unless_not-ok true check h t = h
unless_not-ok false check h t = cc

-- Both rings of a realm, where they are in use.
pub record RealmOverlaps (development : Bool) (r : RealmConfig) : Type 0 where
  pub operations :
      r.operations_keys_enabled ≡ true
      → Overlaps development r.operations_keys_publish_ahead r.operations_keys_rotate_every
          r.operations_keys_retain
  pub token :
      r.token_keys_enabled ≡ true
      → Overlaps development r.token_keys_publish_ahead r.token_keys_rotate_every
          r.token_keys_retain

check_realm-RealmOverlaps :
    (development : Bool) (r : RealmConfig)
    → check_realm development r ≡ ok tt
    → RealmOverlaps development r
unfolding check_realm
check_realm-RealmOverlaps development r h =
    let (_, h1) = after (check_realm_issuer development r r.issuer) _ h in
    let (o, h2) =
      after (unless_not r.operations_keys_enabled (check_operations_ring development r)) _ h1 in
    let (t, _) = after (unless_not r.token_keys_enabled (check_token_ring development r)) _ h2 in
    record {
      operations = λ e.
          check_key_lifecycle-Overlaps development (operations_ring r.name) _ _ _
            (unless_not-ok _ _ o e);
      token = λ e.
          check_key_lifecycle-Overlaps development (token_ring r.name) _ _ _
            (unless_not-ok _ _ t e);
    }

check_realms-All :
    (development : Bool) (seen : List Text) (realms : List RealmConfig)
    → check_realms development seen realms ≡ ok tt
    → All (RealmOverlaps development) realms
unfolding check_realms
check_realms-All development seen [] h = tt
check_realms-All development seen (r ∷ rest) h =
    let (_, h1) = passed (not (has_text seen r.name)) _ _ h in
    let (_, h2) = passed (shaped r.name) _ _ h1 in
    let (c, h3) = after (check_realm development r) _ h2 in
    (
      check_realm-RealmOverlaps development r c,
      check_realms-All development (r.name ∷ seen) rest h3,
    )

-- The server's own ring: its windows overlap, and some layer stated each of them.
pub record ServerOverlaps (development : Bool) (keys : Lifecycle) : Type 0 where
  pub windows : Overlaps development keys.keys_publish_ahead keys.keys_rotate_every keys.keys_retain
  pub stated_ahead : has_text keys.keys_lifecycle_declared setting_keys_publish_ahead ≡ true
  pub stated_every : has_text keys.keys_lifecycle_declared setting_keys_rotate_every ≡ true
  pub stated_retain : has_text keys.keys_lifecycle_declared setting_keys_retain ≡ true

check_lifecycle-ServerOverlaps :
    (development : Bool) (keys : Lifecycle)
    → check_lifecycle development keys ≡ ok tt
    → ServerOverlaps development keys
check_lifecycle-ServerOverlaps development keys h =
    let (a, h1) = passed (has_text keys.keys_lifecycle_declared setting_keys_publish_ahead) _ _ h in
    let (b, h2) = passed (has_text keys.keys_lifecycle_declared setting_keys_rotate_every) _ _ h1 in
    let (c, h3) = passed (has_text keys.keys_lifecycle_declared setting_keys_retain) _ _ h2 in
    record {
      windows = check_key_lifecycle-Overlaps development the_server _ _ _ h3;
      stated_ahead = a;
      stated_every = b;
      stated_retain = c;
    }

pub record RingsOverlap (c : Config) : Type 0 where
  pub server : c.keys.keys_enabled ≡ true → ServerOverlaps c.general.development_mode c.keys
  pub realms : All (RealmOverlaps c.general.development_mode) c.realms

-- Where a configuration passed its check, the windows of the server's ring, and of both rings of
-- each realm, overlap where the ring is in use: a key is published for less time before it signs
-- than it signs, is kept for at least as long as keys are replaced in, and, except in development,
-- is published for as long as a key set may be cached before it signs. Each window of the server's
-- ring in use is on record as stated by a layer.
pub validate-RingsOverlap :
    (is_file : Text → Bool) (c : Config) → validate is_file c ≡ ok tt → RingsOverlap c
unfolding validate validate_key_lifecycle validate_realms
validate-RingsOverlap is_file c h =
    let (_, h1) = after (check_surfaces is_file c) _ h in
    let (_, h2) = after (validate_development c) _ h1 in
    let (_, h3) = after (validate_admin_access c) _ h2 in
    let (k, h4) = after (validate_key_lifecycle c) _ h3 in
    let (r, _) = after (validate_realms c.general.development_mode c.realms) _ h4 in
    record {
      server = λ e. check_lifecycle-ServerOverlaps _ _ (unless_not-ok c.keys.keys_enabled _ k e);
      realms = check_realms-All _ [] _ r;
    }
