-- ===== src/Config/Layered/Surfaces.antt =====
-- The settings of the group `surfaces` of a configuration, read from one layer and from three in turn.
use pic_x.Base.{arith, ◌≡◌, ok}
use pic_x.Config.Parse.{parse_allowed, parse_bool, parse_format, parse_level}
use pic_x.Config.Keys.{
  setting_issuer, setting_public_path_prefix, setting_public_http_addr, setting_telemetry_addr,
  setting_admin_addr, setting_admin_allow, setting_log_level, setting_log_format,
  setting_public_disclose_build,
}
use pic_x.Config.State.{Surfaces}
use pic_x.Config.Layer.{Pairs, setting_of, some_text, base, some_base}
use pic_x.Config.Groups.{apply_surfaces}
use pic_x.Config.Apply.{Layers}
use pic_x.Config.Layered.Chosen.{IsChosen, topmost, setting_of-IsChosen}

record Reads (s : Pairs) (c d : Surfaces) : Type 0 where
  pub issuer : setting_of s setting_issuer some_base c.issuer ≡ ok d.issuer
  pub public_path_prefix :
      setting_of s setting_public_path_prefix base c.public_path_prefix ≡ ok d.public_path_prefix
  pub public_http_addr :
      setting_of s setting_public_http_addr some_text c.public_http_addr ≡ ok d.public_http_addr
  pub telemetry_addr :
      setting_of s setting_telemetry_addr some_text c.telemetry_addr ≡ ok d.telemetry_addr
  pub admin_addr : setting_of s setting_admin_addr some_text c.admin_addr ≡ ok d.admin_addr
  pub admin_allow : setting_of s setting_admin_allow parse_allowed c.admin_allow ≡ ok d.admin_allow
  pub log_level : setting_of s setting_log_level parse_level c.log_level ≡ ok d.log_level
  pub log_format : setting_of s setting_log_format parse_format c.log_format ≡ ok d.log_format
  pub disclose_build :
      setting_of s setting_public_disclose_build parse_bool c.disclose_build ≡ ok d.disclose_build

apply_surfaces-Reads :
    (s : Pairs) (c : Surfaces) {d : Surfaces} → apply_surfaces s c ≡ ok d → Reads s c d
unfolding apply_surfaces
apply_surfaces-Reads s c h = ground arith

-- Each setting is what the topmost layer that supplies it says, or as it was.
pub record AreChosen (l : Layers) (c d : Surfaces) : Type 0 where
  pub issuer : IsChosen some_base c.issuer d.issuer (topmost l setting_issuer)
  pub public_path_prefix :
      IsChosen base c.public_path_prefix d.public_path_prefix (topmost l setting_public_path_prefix)
  pub public_http_addr :
      IsChosen some_text c.public_http_addr d.public_http_addr (topmost l setting_public_http_addr)
  pub telemetry_addr :
      IsChosen some_text c.telemetry_addr d.telemetry_addr (topmost l setting_telemetry_addr)
  pub admin_addr : IsChosen some_text c.admin_addr d.admin_addr (topmost l setting_admin_addr)
  pub admin_allow :
      IsChosen parse_allowed c.admin_allow d.admin_allow (topmost l setting_admin_allow)
  pub log_level : IsChosen parse_level c.log_level d.log_level (topmost l setting_log_level)
  pub log_format : IsChosen parse_format c.log_format d.log_format (topmost l setting_log_format)
  pub disclose_build :
      IsChosen parse_bool c.disclose_build d.disclose_build
        (topmost l setting_public_disclose_build)

pub apply_surfaces-AreChosen :
    (l : Layers) (c : Surfaces) {filed running d : Surfaces}
    → apply_surfaces l.file c ≡ ok filed
    → apply_surfaces l.environment filed ≡ ok running
    → apply_surfaces l.command_line running ≡ ok d
    → AreChosen l c d
apply_surfaces-AreChosen l c f e g =
    let x = apply_surfaces-Reads _ _ f in
    let y = apply_surfaces-Reads _ _ e in
    let z = apply_surfaces-Reads _ _ g in
    record {
      issuer = setting_of-IsChosen l setting_issuer some_base c.issuer x.issuer y.issuer z.issuer;
      public_path_prefix =
          setting_of-IsChosen l setting_public_path_prefix base c.public_path_prefix
            x.public_path_prefix y.public_path_prefix z.public_path_prefix;
      public_http_addr =
          setting_of-IsChosen l setting_public_http_addr some_text c.public_http_addr
            x.public_http_addr y.public_http_addr z.public_http_addr;
      telemetry_addr =
          setting_of-IsChosen l setting_telemetry_addr some_text c.telemetry_addr x.telemetry_addr
            y.telemetry_addr z.telemetry_addr;
      admin_addr =
          setting_of-IsChosen l setting_admin_addr some_text c.admin_addr x.admin_addr y.admin_addr
            z.admin_addr;
      admin_allow =
          setting_of-IsChosen l setting_admin_allow parse_allowed c.admin_allow x.admin_allow
            y.admin_allow z.admin_allow;
      log_level =
          setting_of-IsChosen l setting_log_level parse_level c.log_level x.log_level y.log_level
            z.log_level;
      log_format =
          setting_of-IsChosen l setting_log_format parse_format c.log_format x.log_format
            y.log_format z.log_format;
      disclose_build =
          setting_of-IsChosen l setting_public_disclose_build parse_bool c.disclose_build
            x.disclose_build y.disclose_build z.disclose_build;
    }
