-- ===== src/Config/Material.antt =====
-- The TLS material of a surface out of the settings that describe it (`tls_of`,
-- crates/pic-x-core/src/config.rs).
use pic_x.Base.{Text, Option, none, some, List, [], Result, ok, err}
use pic_x.Base.Fallible.{◌>>=◌}
use pic_x.Peer.{AllowedPeer}
use pic_x.Config.Parse.{v1_3, parse_allowed, parse_version}
use pic_x.Config.Keys.{
  setting_public_tls_cert, setting_public_tls_key, setting_public_tls_client_ca,
  setting_public_tls_crl, setting_public_tls_allow, setting_public_tls_min_version,
  setting_admin_tls_cert, setting_admin_tls_key, setting_admin_tls_client_ca, setting_admin_tls_crl,
  setting_admin_tls_min_version, setting_telemetry_tls_cert, setting_telemetry_tls_key,
  setting_telemetry_tls_min_version,
}
use pic_x.Config.State.{Tls, TlsSettings, tls_settings}
use pic_x.Config.Layer.{LayerError, Pairs, get, setting_of, only_certificate, only_key}

-- The keys of a surface's material beyond the certificate and its key, where the surface reads them.
pub record TlsKeys : Type 0 where
  pub client_ca : Option Text
  pub crl : Option Text
  pub allow : Option Text
  pub min_version : Text

abbrev pub get_if : Pairs → Option Text → Option Text
get_if s none = none
get_if s (some key) = get key s

abbrev allowed_in : Pairs → Option Text → Result LayerError (List AllowedPeer)
allowed_in s none = ok []
allowed_in s (some key) = setting_of s key parse_allowed []

-- The material of a certificate and its key.
abbrev pub material : Pairs → TlsKeys → Text → Text → Result LayerError TlsSettings
material s keys certificate key = do
  allow ← allowed_in s keys.allow
  min_version ← setting_of s keys.min_version parse_version v1_3
  ok (record (tls_settings certificate key) {
    client_ca = get_if s keys.client_ca;
    crl = get_if s keys.crl;
    allow = allow;
    min_version = min_version;
  })

abbrev some_material : Result LayerError TlsSettings → Result LayerError (Option TlsSettings)
some_material r = do tls ← r; ok (some tls)

abbrev pub tls_from :
    Pairs
    → TlsKeys
    → Text
    → Text
    → Option Text
    → Option Text
    → Option TlsSettings
    → Result LayerError (Option TlsSettings)
tls_from s keys cert_key key_key (some certificate) (some key) previous =
    some_material (material s keys certificate key)
tls_from s keys cert_key key_key none none previous = ok previous
tls_from s keys cert_key key_key (some certificate) none previous = err (only_certificate cert_key)
tls_from s keys cert_key key_key none (some key) previous = err (only_key key_key)

unfoldable pub tls_of :
    Pairs → Text → Text → TlsKeys → Option TlsSettings → Result LayerError (Option TlsSettings)
tls_of s cert_key key_key keys previous =
    tls_from s keys cert_key key_key (get cert_key s) (get key_key s) previous

abbrev pub public_keys_of : TlsKeys
public_keys_of = record {
  client_ca = some setting_public_tls_client_ca;
  crl = some setting_public_tls_crl;
  allow = some setting_public_tls_allow;
  min_version = setting_public_tls_min_version;
}

-- The peers of the administrative surface stand beside its address, in `admin_allow`.
abbrev pub admin_keys_of : TlsKeys
admin_keys_of = record {
  client_ca = some setting_admin_tls_client_ca;
  crl = some setting_admin_tls_crl;
  allow = none;
  min_version = setting_admin_tls_min_version;
}

abbrev pub telemetry_keys_of : TlsKeys
telemetry_keys_of = record {
  client_ca = none;
  crl = none;
  allow = none;
  min_version = setting_telemetry_tls_min_version;
}

unfoldable pub apply_tls : Pairs → Tls → Result LayerError Tls
apply_tls s c = do
  public_tls ← tls_of s setting_public_tls_cert setting_public_tls_key public_keys_of c.public_tls
  admin_tls ← tls_of s setting_admin_tls_cert setting_admin_tls_key admin_keys_of c.admin_tls
  telemetry_tls ←
      tls_of s setting_telemetry_tls_cert setting_telemetry_tls_key telemetry_keys_of
        c.telemetry_tls
  ok (record { public_tls = public_tls; admin_tls = admin_tls; telemetry_tls = telemetry_tls })
