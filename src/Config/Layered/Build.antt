-- ===== src/Config/Layered/Build.antt =====
-- The settings of the group `build` of a configuration, read from one layer and from three in turn.
use pic_x.Base.{◌≡◌, refl, ◌∙◌, subst, ok}
use pic_x.Base.Fallible.{through, same}
use pic_x.Config.Keys.{setting_version, setting_copyright_year, setting_copyright_holder}
use pic_x.Config.State.{Build}
use pic_x.Config.Layer.{Pairs, setting_of}
use pic_x.Config.Groups.{apply_build}
use pic_x.Config.Apply.{Layers}
use pic_x.Config.Layered.Chosen.{IsChosen, topmost, setting_of-IsChosen}

record Reads (s : Pairs) (c d : Build) : Type 0 where
  pub commit : d.commit ≡ c.commit
  pub version : setting_of s setting_version ok c.version ≡ ok d.version
  pub copyright_year : setting_of s setting_copyright_year ok c.copyright_year ≡ ok d.copyright_year
  pub copyright_holder :
      setting_of s setting_copyright_holder ok c.copyright_holder ≡ ok d.copyright_holder

apply_build-Reads : (s : Pairs) (c : Build) {d : Build} → apply_build s c ≡ ok d → Reads s c d
unfolding apply_build
apply_build-Reads s c h =
    let (v0, e0, h0) = through (setting_of s setting_version ok c.version) _ h in
    let (v1, e1, h1) = through (setting_of s setting_copyright_year ok c.copyright_year) _ h0 in
    let (v2, e2, h2) = through (setting_of s setting_copyright_holder ok c.copyright_holder) _ h1 in
    subst (Reads s c) (same _ refl h2)
      (record { commit = refl; version = e0; copyright_year = e1; copyright_holder = e2 })

-- Each setting is what the topmost layer that supplies it says, or as it was.
pub record AreChosen (l : Layers) (c d : Build) : Type 0 where
  pub commit : d.commit ≡ c.commit
  pub version : IsChosen ok c.version d.version (topmost l setting_version)
  pub copyright_year :
      IsChosen ok c.copyright_year d.copyright_year (topmost l setting_copyright_year)
  pub copyright_holder :
      IsChosen ok c.copyright_holder d.copyright_holder (topmost l setting_copyright_holder)

pub apply_build-AreChosen :
    (l : Layers) (c : Build) {filed running d : Build}
    → apply_build l.file c ≡ ok filed
    → apply_build l.environment filed ≡ ok running
    → apply_build l.command_line running ≡ ok d
    → AreChosen l c d
apply_build-AreChosen l c f e g =
    let x = apply_build-Reads _ _ f in
    let y = apply_build-Reads _ _ e in
    let z = apply_build-Reads _ _ g in
    record {
      commit = z.commit ∙ y.commit ∙ x.commit;
      version = setting_of-IsChosen l setting_version ok c.version x.version y.version z.version;
      copyright_year =
          setting_of-IsChosen l setting_copyright_year ok c.copyright_year x.copyright_year
            y.copyright_year z.copyright_year;
      copyright_holder =
          setting_of-IsChosen l setting_copyright_holder ok c.copyright_holder x.copyright_holder
            y.copyright_holder z.copyright_holder;
    }
