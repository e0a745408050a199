-- ===== src/Config/Layered/General.antt =====
-- The settings of the group `general` of a configuration, read from one layer and from three in turn.
use pic_x.Base.{◌≡◌, refl, subst, ok}
use pic_x.Base.Fallible.{through, same}
use pic_x.Config.Parse.{parse_bool}
use pic_x.Config.Keys.{setting_working_dir, setting_autogenerate, setting_development_mode}
use pic_x.Config.State.{General}
use pic_x.Config.Layer.{Pairs, setting_of, some_text}
use pic_x.Config.Groups.{apply_general}
use pic_x.Config.Apply.{Layers}
use pic_x.Config.Layered.Chosen.{IsChosen, topmost, setting_of-IsChosen}

record Reads (s : Pairs) (c d : General) : Type 0 where
  pub working_dir : setting_of s setting_working_dir some_text c.working_dir ≡ ok d.working_dir
  pub autogenerate : setting_of s setting_autogenerate parse_bool c.autogenerate ≡ ok d.autogenerate
  pub development_mode :
      setting_of s setting_development_mode parse_bool c.development_mode ≡ ok d.development_mode

apply_general-Reads :
    (s : Pairs) (c : General) {d : General} → apply_general s c ≡ ok d → Reads s c d
unfolding apply_general
apply_general-Reads s c h =
    let (v0, e0, h0) = through (setting_of s setting_working_dir some_text c.working_dir) _ h in
    let (v1, e1, h1) = through (setting_of s setting_autogenerate parse_bool c.autogenerate) _ h0 in
    let (v2, e2, h2) =
      through (setting_of s setting_development_mode parse_bool c.development_mode) _ h1 in
    subst (Reads s c) (same _ refl h2)
      (record { working_dir = e0; autogenerate = e1; development_mode = e2 })

-- Each setting is what the topmost layer that supplies it says, or as it was.
pub record AreChosen (l : Layers) (c d : General) : Type 0 where
  pub working_dir : IsChosen some_text c.working_dir d.working_dir (topmost l setting_working_dir)
  pub autogenerate :
      IsChosen parse_bool c.autogenerate d.autogenerate (topmost l setting_autogenerate)
  pub development_mode :
      IsChosen parse_bool c.development_mode d.development_mode (topmost l setting_development_mode)

pub apply_general-AreChosen :
    (l : Layers) (c : General) {filed running d : General}
    → apply_general l.file c ≡ ok filed
    → apply_general l.environment filed ≡ ok running
    → apply_general l.command_line running ≡ ok d
    → AreChosen l c d
apply_general-AreChosen l c f e g =
    let x = apply_general-Reads _ _ f in
    let y = apply_general-Reads _ _ e in
    let z = apply_general-Reads _ _ g in
    record {
      working_dir =
          setting_of-IsChosen l setting_working_dir some_text c.working_dir x.working_dir
            y.working_dir z.working_dir;
      autogenerate =
          setting_of-IsChosen l setting_autogenerate parse_bool c.autogenerate x.autogenerate
            y.autogenerate z.autogenerate;
      development_mode =
          setting_of-IsChosen l setting_development_mode parse_bool c.development_mode
            x.development_mode y.development_mode z.development_mode;
    }
