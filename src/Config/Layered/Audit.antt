-- ===== src/Config/Layered/Audit.antt =====
-- The settings of the group `audit` of a configuration, read from one layer and from three in turn.
use pic_x.Base.{arith, ◌≡◌, ok}
use pic_x.Config.Parse.{parse_bool, parse_destination, parse_duration}
use pic_x.Config.Keys.{
  setting_audit_pseudonym_enabled, setting_audit_pseudonym_key_ref,
  setting_audit_pseudonym_key_version, setting_audit_sink, setting_audit_directory,
  setting_audit_retention,
}
use pic_x.Config.State.{Audit}
use pic_x.Config.Layer.{Pairs, setting_of, some_text}
use pic_x.Config.Groups.{apply_audit}
use pic_x.Config.Apply.{Layers}
use pic_x.Config.Layered.Chosen.{IsChosen, topmost, setting_of-IsChosen}

record Reads (s : Pairs) (c d : Audit) : Type 0 where
  pub audit_pseudonym_enabled :
      setting_of s setting_audit_pseudonym_enabled parse_bool c.audit_pseudonym_enabled
      ≡ ok d.audit_pseudonym_enabled
  pub audit_pseudonym_key_ref :
      setting_of s setting_audit_pseudonym_key_ref some_text c.audit_pseudonym_key_ref
      ≡ ok d.audit_pseudonym_key_ref
  pub audit_pseudonym_key_version :
      setting_of s setting_audit_pseudonym_key_version ok c.audit_pseudonym_key_version
      ≡ ok d.audit_pseudonym_key_version
  pub audit_destination :
      setting_of s setting_audit_sink parse_destination c.audit_destination ≡ ok d.audit_destination
  pub audit_directory :
      setting_of s setting_audit_directory some_text c.audit_directory ≡ ok d.audit_directory
  pub audit_retention :
      setting_of s setting_audit_retention parse_duration c.audit_retention ≡ ok d.audit_retention

apply_audit-Reads : (s : Pairs) (c : Audit) {d : Audit} → apply_audit s c ≡ ok d → Reads s c d
unfolding apply_audit
apply_audit-Reads s c h = ground arith

-- Each setting is what the topmost layer that supplies it says, or as it was.
pub record AreChosen (l : Layers) (c d : Audit) : Type 0 where
  pub audit_pseudonym_enabled :
      IsChosen parse_bool c.audit_pseudonym_enabled d.audit_pseudonym_enabled
        (topmost l setting_audit_pseudonym_enabled)
  pub audit_pseudonym_key_ref :
      IsChosen some_text c.audit_pseudonym_key_ref d.audit_pseudonym_key_ref
        (topmost l setting_audit_pseudonym_key_ref)
  pub audit_pseudonym_key_version :
      IsChosen ok c.audit_pseudonym_key_version d.audit_pseudonym_key_version
        (topmost l setting_audit_pseudonym_key_version)
  pub audit_destination :
      IsChosen parse_destination c.audit_destination d.audit_destination
        (topmost l setting_audit_sink)
  pub audit_directory :
      IsChosen some_text c.audit_directory d.audit_directory (topmost l setting_audit_directory)
  pub audit_retention :
      IsChosen parse_duration c.audit_retention d.audit_retention
        (topmost l setting_audit_retention)

pub apply_audit-AreChosen :
    (l : Layers) (c : Audit) {filed running d : Audit}
    → apply_audit l.file c ≡ ok filed
    → apply_audit l.environment filed ≡ ok running
    → apply_audit l.command_line running ≡ ok d
    → AreChosen l c d
apply_audit-AreChosen l c f e g =
    let x = apply_audit-Reads _ _ f in
    let y = apply_audit-Reads _ _ e in
    let z = apply_audit-Reads _ _ g in
    record {
      audit_pseudonym_enabled =
          setting_of-IsChosen l setting_audit_pseudonym_enabled parse_bool c.audit_pseudonym_enabled
            x.audit_pseudonym_enabled y.audit_pseudonym_enabled z.audit_pseudonym_enabled;
      audit_pseudonym_key_ref =
          setting_of-IsChosen l setting_audit_pseudonym_key_ref some_text c.audit_pseudonym_key_ref
            x.audit_pseudonym_key_ref y.audit_pseudonym_key_ref z.audit_pseudonym_key_ref;
      audit_pseudonym_key_version =
          setting_of-IsChosen l setting_audit_pseudonym_key_version ok c.audit_pseudonym_key_version
            x.audit_pseudonym_key_version y.audit_pseudonym_key_version
            z.audit_pseudonym_key_version;
      audit_destination =
          setting_of-IsChosen l setting_audit_sink parse_destination c.audit_destination
            x.audit_destination y.audit_destination z.audit_destination;
      audit_directory =
          setting_of-IsChosen l setting_audit_directory some_text c.audit_directory
            x.audit_directory y.audit_directory z.audit_directory;
      audit_retention =
          setting_of-IsChosen l setting_audit_retention parse_duration c.audit_retention
            x.audit_retention y.audit_retention z.audit_retention;
    }
