-- ===== src/Config/Layered/Reloading.antt =====
-- The settings of the group `reloading` of a configuration, read from one layer and from three in turn.
use pic_x.Base.{◌≡◌, refl, subst, ok}
use pic_x.Base.Fallible.{through, same}
use pic_x.Config.Parse.{parse_bool, parse_duration}
use pic_x.Config.Keys.{setting_tls_reload, setting_tls_reload_interval}
use pic_x.Config.State.{Reloading}
use pic_x.Config.Layer.{Pairs, setting_of}
use pic_x.Config.Groups.{apply_reloading}
use pic_x.Config.Apply.{Layers}
use pic_x.Config.Layered.Chosen.{IsChosen, topmost, setting_of-IsChosen}

record Reads (s : Pairs) (c d : Reloading) : Type 0 where
  pub tls_reload : setting_of s setting_tls_reload parse_bool c.tls_reload ≡ ok d.tls_reload
  pub tls_reload_interval :
      setting_of s setting_tls_reload_interval parse_duration c.tls_reload_interval
      ≡ ok d.tls_reload_interval

apply_reloading-Reads :
    (s : Pairs) (c : Reloading) {d : Reloading} → apply_reloading s c ≡ ok d → Reads s c d
unfolding apply_reloading
apply_reloading-Reads s c h =
    let (v0, e0, h0) = through (setting_of s setting_tls_reload parse_bool c.tls_reload) _ h in
    let (v1, e1, h1) =
      through (setting_of s setting_tls_reload_interval parse_duration c.tls_reload_interval) _
        h0 in
    subst (Reads s c) (same _ refl h1) (record { tls_reload = e0; tls_reload_interval = e1 })

-- Each setting is what the topmost layer that supplies it says, or as it was.
pub record AreChosen (l : Layers) (c d : Reloading) : Type 0 where
  pub tls_reload : IsChosen parse_bool c.tls_reload d.tls_reload (topmost l setting_tls_reload)
  pub tls_reload_interval :
      IsChosen parse_duration c.tls_reload_interval d.tls_reload_interval
        (topmost l setting_tls_reload_interval)

pub apply_reloading-AreChosen :
    (l : Layers) (c : Reloading) {filed running d : Reloading}
    → apply_reloading l.file c ≡ ok filed
    → apply_reloading l.environment filed ≡ ok running
    → apply_reloading l.command_line running ≡ ok d
    → AreChosen l c d
apply_reloading-AreChosen l c f e g =
    let x = apply_reloading-Reads _ _ f in
    let y = apply_reloading-Reads _ _ e in
    let z = apply_reloading-Reads _ _ g in
    record {
      tls_reload =
          setting_of-IsChosen l setting_tls_reload parse_bool c.tls_reload x.tls_reload y.tls_reload
            z.tls_reload;
      tls_reload_interval =
          setting_of-IsChosen l setting_tls_reload_interval parse_duration c.tls_reload_interval
            x.tls_reload_interval y.tls_reload_interval z.tls_reload_interval;
    }
