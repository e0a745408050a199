-- ===== src/Config/Layered/Secrets.antt =====
-- The settings of the group `secrets` of a configuration, read from one layer and from three in turn.
use pic_x.Base.{arith, ◌≡◌, ok}
use pic_x.Config.Parse.{parse_duration, parse_provider}
use pic_x.Config.Keys.{
  setting_shutdown_timeout, setting_secrets_provider, setting_secrets_directory,
  setting_secrets_env_prefix,
}
use pic_x.Config.State.{Secrets}
use pic_x.Config.Layer.{Pairs, setting_of, some_text}
use pic_x.Config.Groups.{apply_secrets}
use pic_x.Config.Apply.{Layers}
use pic_x.Config.Layered.Chosen.{IsChosen, topmost, setting_of-IsChosen}

record Reads (s : Pairs) (c d : Secrets) : Type 0 where
  pub shutdown_timeout :
      setting_of s setting_shutdown_timeout parse_duration c.shutdown_timeout
      ≡ ok d.shutdown_timeout
  pub secrets_provider :
      setting_of s setting_secrets_provider parse_provider c.secrets_provider
      ≡ ok d.secrets_provider
  pub secrets_directory :
      setting_of s setting_secrets_directory some_text c.secrets_directory ≡ ok d.secrets_directory
  pub secrets_env_prefix :
      setting_of s setting_secrets_env_prefix ok c.secrets_env_prefix ≡ ok d.secrets_env_prefix

apply_secrets-Reads :
    (s : Pairs) (c : Secrets) {d : Secrets} → apply_secrets s c ≡ ok d → Reads s c d
unfolding apply_secrets
apply_secrets-Reads s c h = ground arith

-- Each setting is what the topmost layer that supplies it says, or as it was.
pub record AreChosen (l : Layers) (c d : Secrets) : Type 0 where
  pub shutdown_timeout :
      IsChosen parse_duration c.shutdown_timeout d.shutdown_timeout
        (topmost l setting_shutdown_timeout)
  pub secrets_provider :
      IsChosen parse_provider c.secrets_provider d.secrets_provider
        (topmost l setting_secrets_provider)
  pub secrets_directory :
      IsChosen some_text c.secrets_directory d.secrets_directory
        (topmost l setting_secrets_directory)
  pub secrets_env_prefix :
      IsChosen ok c.secrets_env_prefix d.secrets_env_prefix (topmost l setting_secrets_env_prefix)

pub apply_secrets-AreChosen :
    (l : Layers) (c : Secrets) {filed running d : Secrets}
    → apply_secrets l.file c ≡ ok filed
    → apply_secrets l.environment filed ≡ ok running
    → apply_secrets l.command_line running ≡ ok d
    → AreChosen l c d
apply_secrets-AreChosen l c f e g =
    let x = apply_secrets-Reads _ _ f in
    let y = apply_secrets-Reads _ _ e in
    let z = apply_secrets-Reads _ _ g in
    record {
      shutdown_timeout =
          setting_of-IsChosen l setting_shutdown_timeout parse_duration c.shutdown_timeout
            x.shutdown_timeout y.shutdown_timeout z.shutdown_timeout;
      secrets_provider =
          setting_of-IsChosen l setting_secrets_provider parse_provider c.secrets_provider
            x.secrets_provider y.secrets_provider z.secrets_provider;
      secrets_directory =
          setting_of-IsChosen l setting_secrets_directory some_text c.secrets_directory
            x.secrets_directory y.secrets_directory z.secrets_directory;
      secrets_env_prefix =
          setting_of-IsChosen l setting_secrets_env_prefix ok c.secrets_env_prefix
            x.secrets_env_prefix y.secrets_env_prefix z.secrets_env_prefix;
    }
