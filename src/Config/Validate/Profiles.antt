-- ===== src/Config/Validate/Profiles.antt =====
-- The exchange profiles of a realm (`validate_exchange_profiles`, crates/pic-x-core/src/config.rs).
use pic_x.Base.{
  Text, codes, Option, none, some, List, [], ◌∷◌, Bool, true, false, not, ◌&&◌, any, text_eq,
  has_text, trim, is_empty_text, Result, ok,
}
use pic_x.Base.Fallible.{◌>>◌, ensure}
use pic_x.Base.Int.{ℤ, ltb_ℤ}
use pic_x.Realm.Exchange.Source.{ClaimMapping, PrivilegeEmit, PrivilegeRule, ExchangeProfileConfig}
use pic_x.Config.Validate.{
  ConfigError, ProfileError, bad_profile, no_profile_id, profile_twice, unsupported_token_type,
  unsupported_format, no_source_issuer, no_source_audience, no_algorithms, expiration_not_required,
  no_token_type, not_exactly_one, no_scopes, scopes_not_a_set, unsupported_source, no_rules,
  rule_without_name, rule_twice, priority_twice, rule_without_pattern, emits_nothing,
  unsupported_on_unmatched,
}
use pic_x.Config.Validate.Attesters.{is_nil, blank}

-- `is_some_and` of a value that is not blank, and of one that is not empty.
abbrev pub is_stated : Option Text → Bool
is_stated none = false
is_stated (some value) = not (blank value)

abbrev pub is_non_empty : Option Text → Bool
is_non_empty none = false
is_non_empty (some value) = not (is_empty_text value)

abbrev same_test : Bool → Bool → Bool
same_test true b = b
same_test false b = not b

-- Two numbers neither of which is below the other.
abbrev pub same_priority : ℤ → ℤ → Bool
same_priority a b = not (ltb_ℤ a b) && not (ltb_ℤ b a)

abbrev pub is_text : Option Text → Text → Bool
is_text none t = false
is_text (some s) t = text_eq s t

module _ (realm id : Text) where
  abbrev refuse_if : Bool → ProfileError → Result ConfigError (Unit {0})
  refuse_if test e = ensure (not test) (bad_profile realm id e)

  unfoldable pub check_mappings : List (Text × ClaimMapping) → Result ConfigError (Unit {0})
  check_mappings [] = ok tt
  check_mappings ((claim, mapping) ∷ rest) = do
    refuse_if (same_test (is_stated mapping.from) (is_stated mapping.value)) not_exactly_one
    check_mappings rest

  abbrev check_emit : PrivilegeEmit → Result ConfigError (Unit {0})
  check_emit emit = do
    refuse_if (blank emit.scope) emits_nothing
    refuse_if (blank emit.operation) emits_nothing
    refuse_if (blank emit.resource_type) emits_nothing
    refuse_if (blank emit.resource_id) emits_nothing

  abbrev pub check_rule : List Text → List ℤ → PrivilegeRule → Result ConfigError (Unit {0})
  check_rule names priorities rule = do
    refuse_if (blank rule.name) rule_without_name
    refuse_if (has_text names rule.name) rule_twice
    refuse_if (any (same_priority rule.priority) priorities) priority_twice
    refuse_if (blank rule.pattern) rule_without_pattern
    check_emit rule.emit

  unfoldable pub check_rules :
      List Text → List ℤ → List PrivilegeRule → Result ConfigError (Unit {0})
  check_rules names priorities [] = ok tt
  check_rules names priorities (rule ∷ rest) = do
    check_rule names priorities rule
    check_rules (rule.name ∷ names) (rule.priority ∷ priorities) rest

  -- The checks of one profile behind those of its id.
  unfoldable pub check_profile : ExchangeProfileConfig → Result ConfigError (Unit {0})
  check_profile profile = do
    let source = profile.source
    let validation = source.validation
    refuse_if (not (text_eq source.token_type (codes "oauth-access-token"))) unsupported_token_type
    refuse_if (not (text_eq source.format (codes "jwt"))) unsupported_format
    refuse_if (blank source.issuer) no_source_issuer
    refuse_if (blank source.audience) no_source_audience
    refuse_if (is_nil validation.allowed_algorithms) no_algorithms
    refuse_if (not validation.require_expiration) expiration_not_required
    refuse_if (not (is_stated validation.require_token_type)) no_token_type
    check_mappings profile.identity_context
    refuse_if (not (is_non_empty profile.scopes.from)) no_scopes
    refuse_if (not (is_text profile.scopes.value_type (codes "set"))) scopes_not_a_set
    refuse_if (not (text_eq profile.privileges_source (codes "scopes"))) unsupported_source
    refuse_if (is_nil profile.rules) no_rules
    check_rules [] [] profile.rules
    refuse_if (not (text_eq profile.on_unmatched_scope (codes "reject"))) unsupported_on_unmatched

module _ (realm : Text) where
  unfoldable pub check_profiles :
      List Text → List ExchangeProfileConfig → Result ConfigError (Unit {0})
  check_profiles seen [] = ok tt
  check_profiles seen (profile ∷ rest) = do
    let id = trim profile.id
    ensure (not (is_empty_text id)) (bad_profile realm id no_profile_id)
    ensure (not (has_text seen id)) (bad_profile realm id profile_twice)
    check_profile realm id profile
    check_profiles (id ∷ seen) rest

  unfoldable pub validate_exchange_profiles :
      List ExchangeProfileConfig → Result ConfigError (Unit {0})
  validate_exchange_profiles profiles = check_profiles [] profiles
