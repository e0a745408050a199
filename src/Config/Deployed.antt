-- ===== src/Config/Deployed.antt =====
-- A deployment with two realms that passes the check of a configuration, for tests.
use pic_x.Base.{
  ◌≡◌, refl, any, starts_with, has_text, text_eq, ok, trim_start, trim_end, strip_last, digits_from,
  trim_end_matches, trim_start_matches,
}
use pic_x.Config.State.{Config}
use pic_x.Config.Parse.{
  collect, parse_bool, parse_duration, parse_duration_allow_zero, named, is_loopback, rsplit_host,
}
use pic_x.Config.Resolve.{inherited, require_token, signing_algorithm, resolve_realm, with_realms}
use pic_x.Config.Fixture.{start, inputs, every_file, or_else}
use pic_x.Config.Validate.{require_public_https, check_key_lifecycle}
use pic_x.Config.Validate.Attesters.{check_attesters, validate_trusted_attesters}
use pic_x.Config.Validate.Profiles.{
  check_mappings, check_rules, check_profile, check_profiles, validate_exchange_profiles,
}
use pic_x.Config.Validate.Material.{ends_with_slash, validate_in}
use pic_x.Config.Validate.Realms.{
  all_chars, ends_with_hyphen, check_realm, check_realms, validate_realms,
}
use pic_x.Config.Validate.Whole.{
  validate, validate_development, validate_admin_access, validate_key_lifecycle,
}

-- The upper case of these texts is not looked at.
abbrev pub deployed : Config
deployed = or_else start (with_realms (λ s. s) start inputs)

pub valid : validate every_file deployed ≡ ok tt
unfolding validate validate_development validate_admin_access validate_key_lifecycle validate_realms
    check_realms check_realm check_key_lifecycle require_public_https validate_exchange_profiles
    check_profiles check_profile check_rules check_mappings validate_trusted_attesters
    check_attesters validate_in all_chars ends_with_hyphen ends_with_slash with_realms resolve_realm
    inherited require_token signing_algorithm collect parse_bool parse_duration
    parse_duration_allow_zero named is_loopback rsplit_host starts_with has_text text_eq any
    trim_start trim_end strip_last digits_from trim_end_matches trim_start_matches
valid = refl

pub resolved : with_realms (λ s. s) start inputs ≡ ok deployed
unfolding with_realms resolve_realm inherited require_token signing_algorithm collect parse_bool
    parse_duration parse_duration_allow_zero named has_text text_eq trim_start trim_end strip_last
    digits_from trim_end_matches
resolved = refl
