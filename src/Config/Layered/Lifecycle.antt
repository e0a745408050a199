-- ===== src/Config/Layered/Lifecycle.antt =====
-- The settings of the group `keys` of a configuration, read from one layer and from three in turn.
use pic_x.Base.{arith, ◌≡◌, ◌∙◌, ap, ok}
use pic_x.Config.Parse.{parse_bool, parse_duration}
use pic_x.Config.Keys.{
  setting_keys_enabled, setting_keys_directory, setting_keys_publish_ahead,
  setting_keys_rotate_every, setting_keys_retain, setting_keys_maintenance_interval,
}
use pic_x.Config.State.{Lifecycle}
use pic_x.Config.Layer.{Pairs, setting_of, some_text}
use pic_x.Config.Groups.{declared_in, apply_keys}
use pic_x.Config.Apply.{Layers}
use pic_x.Config.Layered.Chosen.{IsChosen, topmost, setting_of-IsChosen}

record Reads (s : Pairs) (c d : Lifecycle) : Type 0 where
  pub keys_enabled : setting_of s setting_keys_enabled parse_bool c.keys_enabled ≡ ok d.keys_enabled
  pub keys_directory :
      setting_of s setting_keys_directory some_text c.keys_directory ≡ ok d.keys_directory
  pub keys_publish_ahead :
      setting_of s setting_keys_publish_ahead parse_duration c.keys_publish_ahead
      ≡ ok d.keys_publish_ahead
  pub keys_rotate_every :
      setting_of s setting_keys_rotate_every parse_duration c.keys_rotate_every
      ≡ ok d.keys_rotate_every
  pub keys_retain : setting_of s setting_keys_retain parse_duration c.keys_retain ≡ ok d.keys_retain
  pub keys_maintenance_interval :
      setting_of s setting_keys_maintenance_interval parse_duration c.keys_maintenance_interval
      ≡ ok d.keys_maintenance_interval
  pub stated : d.keys_lifecycle_declared ≡ declared_in s c.keys_lifecycle_declared

apply_keys-Reads : (s : Pairs) (c : Lifecycle) {d : Lifecycle} → apply_keys s c ≡ ok d → Reads s c d
unfolding apply_keys
apply_keys-Reads s c h = ground arith

-- Each setting is what the topmost layer that supplies it says, or as it was.
pub record AreChosen (l : Layers) (c d : Lifecycle) : Type 0 where
  pub keys_enabled :
      IsChosen parse_bool c.keys_enabled d.keys_enabled (topmost l setting_keys_enabled)
  pub keys_directory :
      IsChosen some_text c.keys_directory d.keys_directory (topmost l setting_keys_directory)
  pub keys_publish_ahead :
      IsChosen parse_duration c.keys_publish_ahead d.keys_publish_ahead
        (topmost l setting_keys_publish_ahead)
  pub keys_rotate_every :
      IsChosen parse_duration c.keys_rotate_every d.keys_rotate_every
        (topmost l setting_keys_rotate_every)
  pub keys_retain :
      IsChosen parse_duration c.keys_retain d.keys_retain (topmost l setting_keys_retain)
  pub keys_maintenance_interval :
      IsChosen parse_duration c.keys_maintenance_interval d.keys_maintenance_interval
        (topmost l setting_keys_maintenance_interval)
  pub stated :
      d.keys_lifecycle_declared
      ≡ declared_in l.command_line
          (declared_in l.environment (declared_in l.file c.keys_lifecycle_declared))

pub apply_keys-AreChosen :
    (l : Layers) (c : Lifecycle) {filed running d : Lifecycle}
    → apply_keys l.file c ≡ ok filed
    → apply_keys l.environment filed ≡ ok running
    → apply_keys l.command_line running ≡ ok d
    → AreChosen l c d
apply_keys-AreChosen l c f e g =
    let x = apply_keys-Reads _ _ f in
    let y = apply_keys-Reads _ _ e in
    let z = apply_keys-Reads _ _ g in
    record {
      keys_enabled =
          setting_of-IsChosen l setting_keys_enabled parse_bool c.keys_enabled x.keys_enabled
            y.keys_enabled z.keys_enabled;
      keys_directory =
          setting_of-IsChosen l setting_keys_directory some_text c.keys_directory x.keys_directory
            y.keys_directory z.keys_directory;
      keys_publish_ahead =
          setting_of-IsChosen l setting_keys_publish_ahead parse_duration c.keys_publish_ahead
            x.keys_publish_ahead y.keys_publish_ahead z.keys_publish_ahead;
      keys_rotate_every =
          setting_of-IsChosen l setting_keys_rotate_every parse_duration c.keys_rotate_every
            x.keys_rotate_every y.keys_rotate_every z.keys_rotate_every;
      keys_retain =
          setting_of-IsChosen l setting_keys_retain parse_duration c.keys_retain x.keys_retain
            y.keys_retain z.keys_retain;
      keys_maintenance_interval =
          setting_of-IsChosen l setting_keys_maintenance_interval parse_duration
            c.keys_maintenance_interval x.keys_maintenance_interval y.keys_maintenance_interval
            z.keys_maintenance_interval;
      stated =
          z.stated
          ∙ ap (declared_in l.command_line) (y.stated ∙ ap (declared_in l.environment) x.stated);
    }
