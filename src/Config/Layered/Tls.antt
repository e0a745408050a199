-- ===== src/Config/Layered/Tls.antt =====
-- The TLS material of a surface comes whole from one layer, read from three in turn.
use pic_x.Base.{Text, Option, none, some, ◌≡◌, refl, subst, ok}
use pic_x.Base.Fallible.{through, same}
use pic_x.Config.Keys
use pic_x.Config.State.{Tls, TlsSettings}
use pic_x.Config.Layer.{Pairs, get}
use pic_x.Config.Material.{
  TlsKeys, material, tls_from, tls_of, apply_tls, public_keys_of, admin_keys_of, telemetry_keys_of,
}
use pic_x.Config.Apply.{Layers}

-- Material that a layer describes, certificate and key both.
pub data IsMaterial (s : Pairs) (cert_key key_key : Text) (keys : TlsKeys) (t : Option TlsSettings)
    : Type 0 where
  described :
      {certificate key : Text} {m : TlsSettings}
      → get cert_key s ≡ some certificate
      → get key_key s ≡ some key
      → material s keys certificate key ≡ ok m
      → t ≡ some m
      → IsMaterial s cert_key key_key keys t

unfoldable pub IsWhole : Text → Text → TlsKeys → Option TlsSettings → Option Pairs → Type 0
IsWhole cert_key key_key keys t none = t ≡ none
IsWhole cert_key key_key keys t (some s) = IsMaterial s cert_key key_key keys t

abbrev pub first_with : Option Text → Pairs → Option Pairs → Option Pairs
first_with none s below = below
first_with (some _) s below = some s

-- The topmost layer that supplies a setting.
abbrev pub supplier : Layers → Text → Option Pairs
supplier l key =
    first_with (get key l.command_line) l.command_line
      (first_with (get key l.environment) l.environment (first_with (get key l.file) l.file none))

tls_from-IsWhole :
    (s : Pairs) (cert_key key_key : Text) (keys : TlsKeys) (before : Option TlsSettings)
    {t : Option TlsSettings} (below : Option Pairs) (c k : Option Text)
    → IsWhole cert_key key_key keys before below
    → get cert_key s ≡ c
    → get key_key s ≡ k
    → tls_from s keys cert_key key_key c k before ≡ ok t
    → IsWhole cert_key key_key keys t (first_with c s below)
unfolding IsWhole
tls_from-IsWhole s ck kk keys before below (some c) (some k) w ec ek h =
    let (m, em, h2) = through (material s keys c k) _ h in described ec ek em (same _ h2 refl)
tls_from-IsWhole s ck kk keys before below none none w ec ek h =
    let e : before ≡ _ = cc in subst (λ b. IsWhole ck kk keys b below) e w
tls_from-IsWhole s ck kk keys before below (some c) none w ec ek h = cc
tls_from-IsWhole s ck kk keys before below none (some k) w ec ek h = cc

tls_of-IsWhole :
    (l : Layers) (cert_key key_key : Text) (keys : TlsKeys) {filed running t : Option TlsSettings}
    → tls_of l.file cert_key key_key keys none ≡ ok filed
    → tls_of l.environment cert_key key_key keys filed ≡ ok running
    → tls_of l.command_line cert_key key_key keys running ≡ ok t
    → IsWhole cert_key key_key keys t (supplier l cert_key)
unfolding tls_of IsWhole
tls_of-IsWhole l ck kk keys f e c =
    tls_from-IsWhole l.command_line ck kk keys _ _ _ _
      (tls_from-IsWhole l.environment ck kk keys _ _ _ _
        (tls_from-IsWhole l.file ck kk keys none none _ _ refl refl refl f) refl refl e)
      refl refl c

record Reads (s : Pairs) (c d : Tls) : Type 0 where
  pub public_tls :
      tls_of s Keys.setting_public_tls_cert Keys.setting_public_tls_key public_keys_of c.public_tls
      ≡ ok d.public_tls
  pub admin_tls :
      tls_of s Keys.setting_admin_tls_cert Keys.setting_admin_tls_key admin_keys_of c.admin_tls
      ≡ ok d.admin_tls
  pub telemetry_tls :
      tls_of s Keys.setting_telemetry_tls_cert Keys.setting_telemetry_tls_key telemetry_keys_of
        c.telemetry_tls
      ≡ ok d.telemetry_tls

apply_tls-Reads : (s : Pairs) (c : Tls) {d : Tls} → apply_tls s c ≡ ok d → Reads s c d
unfolding apply_tls
apply_tls-Reads s c h =
    let (p, e0, h0) = through (tls_of s _ _ _ c.public_tls) _ h in
    let (a, e1, h1) = through (tls_of s _ _ _ c.admin_tls) _ h0 in
    let (t, e2, h2) = through (tls_of s _ _ _ c.telemetry_tls) _ h1 in
    subst (Reads s c) (same _ refl h2)
      (record { public_tls = e0; admin_tls = e1; telemetry_tls = e2 })

-- The material of each surface is what one layer describes, the topmost that supplies its certificate;
-- nothing of it comes from another layer.
pub record AreWhole (l : Layers) (d : Tls) : Type 0 where
  pub public_tls :
      IsWhole Keys.setting_public_tls_cert Keys.setting_public_tls_key public_keys_of d.public_tls
        (supplier l Keys.setting_public_tls_cert)
  pub admin_tls :
      IsWhole Keys.setting_admin_tls_cert Keys.setting_admin_tls_key admin_keys_of d.admin_tls
        (supplier l Keys.setting_admin_tls_cert)
  pub telemetry_tls :
      IsWhole Keys.setting_telemetry_tls_cert Keys.setting_telemetry_tls_key telemetry_keys_of
        d.telemetry_tls
        (supplier l Keys.setting_telemetry_tls_cert)

pub apply_tls-AreWhole :
    (l : Layers) {filed running d : Tls}
    → apply_tls l.file (record { public_tls = none; admin_tls = none; telemetry_tls = none })
      ≡ ok filed
    → apply_tls l.environment filed ≡ ok running
    → apply_tls l.command_line running ≡ ok d
    → AreWhole l d
apply_tls-AreWhole l f e c =
    let x = apply_tls-Reads _ _ f in
    let y = apply_tls-Reads _ _ e in
    let z = apply_tls-Reads _ _ c in
    record {
      public_tls = tls_of-IsWhole l _ _ public_keys_of x.public_tls y.public_tls z.public_tls;
      admin_tls = tls_of-IsWhole l _ _ admin_keys_of x.admin_tls y.admin_tls z.admin_tls;
      telemetry_tls =
          tls_of-IsWhole l _ _ telemetry_keys_of x.telemetry_tls y.telemetry_tls z.telemetry_tls;
    }
