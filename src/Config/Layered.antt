-- ===== src/Config/Layered.antt =====
-- What the layers of a configuration come to (`from_layers`, crates/pic-x-core/src/config.rs).
mod Chosen
mod Build
mod General
mod Surfaces
mod Reloading
mod Limits
mod Secrets
mod Audit
mod Lifecycle
mod Tls
mod Declared
mod Tests
use pic_x.Base.{
  arith, Text, Option, none, List, [], Bool, if◌then◌else◌, ◌≡◌, refl, sym, ◌∙◌, ap, subst, ok,
  has_text, lookup,
}
use pic_x.Base.Fallible.{through, same}
use pic_x.Limits.{IpAddr}
use pic_x.Config.State.{Build as BuildSettings, Config, default}
use pic_x.Config.Groups.{
  apply_build, apply_general, apply_surfaces, apply_reloading, apply_limits, apply_secrets,
  apply_audit, apply_keys,
}
use pic_x.Config.Material.{apply_tls}
use pic_x.Config.Layer.{Pairs, get}
use pic_x.Config.Apply.{Layers, apply_pairs, declare_values, apply_build_settings, from_layers}
use pic_x.Config.Layered.Chosen.{over, topmost}
use pic_x.Config.Layered.Declared.{
  lookup-values_after, values_after_steps, AreStated, after_all-AreStated,
}
use pic_x.Config.Layered.Build.{AreChosen as BuildAreChosen, apply_build-AreChosen}
use pic_x.Config.Layered.General.{AreChosen as GeneralAreChosen, apply_general-AreChosen}
use pic_x.Config.Layered.Surfaces.{AreChosen as SurfacesAreChosen, apply_surfaces-AreChosen}
use pic_x.Config.Layered.Tls.{AreWhole as TlsAreWhole, apply_tls-AreWhole}
use pic_x.Config.Layered.Reloading.{AreChosen as ReloadingAreChosen, apply_reloading-AreChosen}
use pic_x.Config.Layered.Limits.{AreChosen as LimitsAreChosen, apply_limits-AreChosen}
use pic_x.Config.Layered.Secrets.{AreChosen as SecretsAreChosen, apply_secrets-AreChosen}
use pic_x.Config.Layered.Audit.{AreChosen as AuditAreChosen, apply_audit-AreChosen}
use pic_x.Config.Layered.Lifecycle.{AreChosen as LifecycleAreChosen, apply_keys-AreChosen}

record Applies (parse_address : Text → Option IpAddr) (s : Pairs) (c d : Config) : Type 0 where
  pub build : apply_build s c.build ≡ ok d.build
  pub general : apply_general s c.general ≡ ok d.general
  pub surfaces : apply_surfaces s c.surfaces ≡ ok d.surfaces
  pub tls : apply_tls s c.tls ≡ ok d.tls
  pub reloading : apply_reloading s c.reloading ≡ ok d.reloading
  pub limits : apply_limits parse_address s c.limits ≡ ok d.limits
  pub secrets : apply_secrets s c.secrets ≡ ok d.secrets
  pub audit : apply_audit s c.audit ≡ ok d.audit
  pub keys : apply_keys s c.keys ≡ ok d.keys
  pub realms : d.realms ≡ c.realms
  pub declared : d.declared ≡ c.declared
  pub values : d.declared_values ≡ declare_values s c.declared c.declared_values

apply_pairs-Applies :
    (parse_address : Text → Option IpAddr) (s : Pairs) (c : Config) {d : Config}
    → apply_pairs parse_address s c ≡ ok d
    → Applies parse_address s c d
unfolding apply_pairs
apply_pairs-Applies parse_address s c h = ground arith

-- Each setting is what the topmost layer that supplies it says, or its default; the TLS material of a
-- surface is whole from one layer; the settings that the build declares are known by the topmost layer's
-- values; and there are no realms yet.
pub record IsLayered (parse_address : Text → Option IpAddr) (settings : BuildSettings)
    (names : List Text) (l : Layers) (c : Config) : Type 0 where
  pub build : BuildAreChosen l settings c.build
  pub general : GeneralAreChosen l default.general c.general
  pub surfaces : SurfacesAreChosen l default.surfaces c.surfaces
  pub tls : TlsAreWhole l c.tls
  pub reloading : ReloadingAreChosen l default.reloading c.reloading
  pub limits : LimitsAreChosen parse_address l default.limits c.limits
  pub secrets : SecretsAreChosen l default.secrets c.secrets
  pub audit : AuditAreChosen l default.audit c.audit
  pub keys : LifecycleAreChosen l default.keys c.keys
  pub lifecycle : AreStated l c.keys.keys_lifecycle_declared
  pub declared_values :
      (key : Text)
      → lookup key c.declared_values ≡ (if has_text names key then topmost l key else none)
  pub realms : c.realms ≡ []

-- When a configuration is assembled from its layers, each of its settings is what the topmost layer
-- that supplies it says (the command line, then the environment, then the file; an empty value
-- supplies nothing), or its default where no layer does. The TLS material of a surface is whole
-- from the topmost layer that supplies its certificate. A setting of the key lifecycle is on record
-- exactly when some layer supplies it, a setting that the build declares is known by the topmost
-- layer's value, and there are no realms yet.
pub from_layers-IsLayered :
    (parse_address : Text → Option IpAddr) (build : BuildSettings) (declared : List Text)
    (l : Layers) {c : Config}
    → from_layers parse_address build declared l ≡ ok c
    → IsLayered parse_address build declared l c
unfolding from_layers
from_layers-IsLayered parse_address build declared l h =
    let start = apply_build_settings build (record default { declared = declared }) in
    let (filed, e0, h0) = through (apply_pairs parse_address l.file start) _ h in
    let (running, e1, h1) = through (apply_pairs parse_address l.environment filed) _ h0 in
    let x = apply_pairs-Applies parse_address l.file start e0 in
    let y = apply_pairs-Applies parse_address l.environment filed e1 in
    let z = apply_pairs-Applies parse_address l.command_line running h1 in
    let values = values_after_steps l declared x.declared y.declared x.values y.values z.values in
    let keys = apply_keys-AreChosen l default.keys x.keys y.keys z.keys in
    record {
      build = apply_build-AreChosen l build x.build y.build z.build;
      general = apply_general-AreChosen l default.general x.general y.general z.general;
      surfaces = apply_surfaces-AreChosen l default.surfaces x.surfaces y.surfaces z.surfaces;
      tls = apply_tls-AreWhole l x.tls y.tls z.tls;
      reloading = apply_reloading-AreChosen l default.reloading x.reloading y.reloading z.reloading;
      limits = apply_limits-AreChosen parse_address l default.limits x.limits y.limits z.limits;
      secrets = apply_secrets-AreChosen l default.secrets x.secrets y.secrets z.secrets;
      audit = apply_audit-AreChosen l default.audit x.audit y.audit z.audit;
      keys = keys;
      lifecycle = subst (AreStated l) (sym keys.stated) (after_all-AreStated l);
      declared_values = λ key. ap (lookup key) values ∙ lookup-values_after l declared key;
      realms = z.realms ∙ y.realms ∙ x.realms;
    }
