-- ===== src/Config/Layered/Tests.antt =====
-- Layers on concrete inputs.
use pic_x.Base.{
  retain, retain, codes, [], ◌∷◌, refl, text_eq, trim_start, trim_end, strip_last, digits_from,
}
use pic_x.Config.Parse.{named, parse_level, parse_duration, parse_bool}
use pic_x.Config.Layer.{last_of, get, setting_of}
use pic_x.Config.Groups.{
  apply_build, apply_general, apply_surfaces, apply_reloading, apply_limits, apply_secrets,
  apply_audit, apply_keys,
}
use pic_x.Config.Material.{tls_of, apply_tls}
use pic_x.Config.State.{Config, default}
use pic_x.Config.Apply.{declare_values, apply_pairs, from_layers}
use pic_x.Config.Fixture.{no_address, build, layers, or_else}
use pic_x.Config.Layered.{IsLayered, from_layers-IsLayered}

abbrev assembled : Config
assembled = or_else default (from_layers no_address build (codes "EXTRA" ∷ []) layers)

from_layers-IsLayered_example : IsLayered no_address build (codes "EXTRA" ∷ []) layers assembled
unfolding from_layers apply_pairs apply_build apply_general apply_surfaces apply_reloading
    apply_limits apply_secrets apply_audit apply_keys apply_tls tls_of setting_of get last_of
    declare_values text_eq retain named parse_level parse_duration parse_bool trim_start trim_end
    strip_last digits_from
from_layers-IsLayered_example =
    from_layers-IsLayered no_address build (codes "EXTRA" ∷ []) layers refl
