-- ===== src/Config/Apply.antt =====
-- A layer applied to a configuration, and the layers in turn (`apply_pairs` and `from_layers`,
-- crates/pic-x-core/src/config.rs).
use pic_x.Base.{Text, Option, none, some, List, [], ◌∷◌, Result, ok}
use pic_x.Base.Fallible.{◌>>=◌}
use pic_x.Limits.{IpAddr}
use pic_x.Config.State.{Build, Config, default}
use pic_x.Config.Layer.{LayerError, Pairs, get}
use pic_x.Config.Groups.{
  apply_audit, apply_build, apply_general, apply_keys, apply_limits, apply_reloading, apply_secrets,
  apply_surfaces,
}
use pic_x.Config.Material.{apply_tls}

abbrev pub put_value : Text → Option Text → Pairs → Pairs
put_value key none values = values
put_value key (some v) values = (key, v) ∷ values

-- The value of each declared key that the layer supplies, in front of those from before.
unfoldable pub declare_values : Pairs → List Text → Pairs → Pairs
declare_values s [] values = values
declare_values s (key ∷ keys) values = declare_values s keys (put_value key (get key s) values)

module _ (parse_address : Text → Option IpAddr) where
  unfoldable pub apply_pairs : Pairs → Config → Result LayerError Config
  apply_pairs s c = do
    build ← apply_build s c.build
    general ← apply_general s c.general
    surfaces ← apply_surfaces s c.surfaces
    tls ← apply_tls s c.tls
    reloading ← apply_reloading s c.reloading
    limits ← apply_limits parse_address s c.limits
    secrets ← apply_secrets s c.secrets
    audit ← apply_audit s c.audit
    keys ← apply_keys s c.keys
    ok (record {
      build = build;
      general = general;
      surfaces = surfaces;
      tls = tls;
      reloading = reloading;
      limits = limits;
      secrets = secrets;
      audit = audit;
      keys = keys;
      realms = c.realms;
      declared = c.declared;
      declared_values = declare_values s c.declared c.declared_values;
    })

pub record Layers : Type 0 where
  pub file : Pairs
  pub environment : Pairs
  pub command_line : Pairs

-- `BuildSettings` has the fields of this group.
abbrev pub apply_build_settings : Build → Config → Config
apply_build_settings build c = record c { build = build }

module _ (parse_address : Text → Option IpAddr) where
  unfoldable pub from_layers : Build → List Text → Layers → Result LayerError Config
  from_layers build declared layers = do
    let start = apply_build_settings build (record default { declared = declared })
    filed ← apply_pairs parse_address layers.file start
    running ← apply_pairs parse_address layers.environment filed
    apply_pairs parse_address layers.command_line running
