-- ===== src/Realm/Exchange/Mapping.antt =====
-- The authority that a source access token maps to (map_authority and what it calls,
-- crates/pic-x-realm/src/exchange.rs). What the regex crate makes of a pattern is a parameter, and so is
-- the order of a `BTreeSet`, of which only that it holds each element once is kept.
pub mod Granted
use pic_x.Base.{
  ℕ, Text, codes, Option, none, some, List, [], ◌∷◌, ◌++◌, Bool, true, false, not, ◌&&◌,
  if◌then◌else◌, ◌==◌, text_eq, is_whitespace, is_empty_text, retain, any, Result, ok, err,
}
use pic_x.Base.Fallible.{◌>>=◌, ◌>>◌, ensure, ok_or}
use pic_x.Base.Int.{ℤ, ltb_ℤ}
use pic_x.Json.{Value, text, array, items, as_str}
use pic_x.Realm.Exchange.{ExchangeError, invalid_request, invalid_grant}
use pic_x.Realm.Exchange.Source.{
  ClaimMapping, PrivilegeEmit, PrivilegeRule, ExchangeProfileConfig, is_exactly, claim_at_path,
  is_empty,
}

-- `Captures`, by the text of each named group, and a compiled pattern.
abbrev pub Captures : Type 0
Captures = Text → Option Text

abbrev pub Pattern : Type 0
Pattern = Text → Option Captures

pub data AuthorityValue : Type 0 where
  one : Text → AuthorityValue
  many : List Text → AuthorityValue

pub record Invariant : Type 0 where
  pub scope : Text
  pub operation : Text
  pub resource_type : Text
  pub resource_id : Text

pub record MappedAuthority : Type 0 where
  pub identity_context : Option (List (Text × AuthorityValue))
  pub invariants : List Invariant

abbrev push_word : Text → List Text → List Text
push_word [] l = l
push_word (c ∷ w) l = (c ∷ w) ∷ l

-- `split_whitespace`
unfoldable pub words_at : Text → Text × List Text
words_at [] = ([], [])
words_at (c ∷ s) =
    let r = words_at s in if is_whitespace c then ([], push_word r.0 r.1) else (c ∷ r.0, r.1)

abbrev pub split_whitespace : Text → List Text
split_whitespace s = let r = words_at s in push_word r.0 r.1

unfoldable pub strings_of : List Value → Result ExchangeError (List Text)
strings_of [] = ok []
strings_of (v ∷ vs) = do t ← ok_or (as_str v) invalid_grant; rest ← strings_of vs; ok (t ∷ rest)

-- A claim that is read as a set of texts.
abbrev pub set_of : Option Text → Value → Result ExchangeError (List Text)
set_of encoding (text t) =
    if is_exactly encoding (codes "space-delimited") then ok (split_whitespace t) else ok (t ∷ [])
set_of encoding (array vs) = strings_of (items vs)
set_of encoding _ = err invalid_grant

unfoldable pub map_scopes : ClaimMapping → Value → Result ExchangeError (List Text)
map_scopes mapping payload = do
  ensure (is_exactly mapping.value_type (codes "set")) invalid_grant
  path ← ok_or mapping.from invalid_grant
  source ← ok_or (claim_at_path payload path) invalid_grant
  scopes ← set_of mapping.encoding source
  let kept = retain (λ scope. not (is_empty_text scope)) scopes
  ensure (not (is_empty kept)) invalid_grant
  ok kept

abbrev read_value : ClaimMapping → Value → Result ExchangeError AuthorityValue
read_value mapping value =
    if is_exactly mapping.value_type (codes "set")
    then (do ts ← set_of mapping.encoding value; ok (many ts))
    else (do t ← ok_or (as_str value) invalid_grant; ok (one t))

abbrev fixed_or_claim : Option Text → ClaimMapping → Value → Result ExchangeError AuthorityValue
fixed_or_claim (some value) mapping payload = ok (one value)
fixed_or_claim none mapping payload = do
  path ← ok_or mapping.from invalid_grant
  value ← ok_or (claim_at_path payload path) invalid_grant
  read_value mapping value

unfoldable pub map_authority_value : ClaimMapping → Value → Result ExchangeError AuthorityValue
map_authority_value mapping payload = fixed_or_claim mapping.value mapping payload

unfoldable pub map_entries :
    List (Text × ClaimMapping) → Value → Result ExchangeError (List (Text × AuthorityValue))
map_entries [] payload = ok []
map_entries ((key, mapping) ∷ rest) payload = do
  value ← map_authority_value mapping payload
  others ← map_entries rest payload
  ok ((key, value) ∷ others)

abbrev unless_empty : {A : Type 0} → List A → Option (List A)
unless_empty [] = none
unless_empty (a ∷ l) = some (a ∷ l)

abbrev pub map_identity_context :
    ExchangeProfileConfig → Value → Result ExchangeError (Option (List (Text × AuthorityValue)))
map_identity_context profile payload = do
  identity ← map_entries profile.identity_context payload
  ok (unless_empty identity)

abbrev value_of : Text → Captures → Text → Result ExchangeError Text
value_of raw captures name =
    if text_eq name (codes "raw") then ok raw else ok_or (captures name) invalid_request

abbrev before : Text → Result ExchangeError Text → Result ExchangeError Text
before t rest = do r ← rest; ok (t ++ r)

-- The loop of `render_template`, with the name of the placeholder that is open, if one is.
unfoldable pub render_from : Text → Captures → Option Text → Text → Result ExchangeError Text
render_from raw captures none [] = ok []
render_from raw captures none (c ∷ []) = ok (c ∷ [])
render_from raw captures none (c ∷ d ∷ s) =
    let inside = render_from raw captures (some []) s in
    let outside = render_from raw captures none (d ∷ s) in
    if c == b'$' && d == b'{' then inside else before (c ∷ []) outside
render_from raw captures (some name) [] = err invalid_request
render_from raw captures (some name) (c ∷ s) =
    let outside = render_from raw captures none s in
    let inside = render_from raw captures (some (name ++ c ∷ [])) s in
    if c == b'}' then (do value ← value_of raw captures name; before value outside) else inside

abbrev pub render_template : Text → Text → Captures → Result ExchangeError Text
render_template template raw captures = render_from raw captures none template

abbrev pub emitted : PrivilegeEmit → Text → Captures → Result ExchangeError Invariant
emitted emit raw captures = do
  scope ← render_template emit.scope raw captures
  operation ← render_template emit.operation raw captures
  resource_type ← render_template emit.resource_type raw captures
  resource_id ← render_template emit.resource_id raw captures
  let invariant : Invariant = record {
    scope = scope;
    operation = operation;
    resource_type = resource_type;
    resource_id = resource_id;
  }
  ok invariant

-- A stable order by priority, the highest first.
unfoldable pub place :
    PrivilegeRule × Pattern → List (PrivilegeRule × Pattern) → List (PrivilegeRule × Pattern)
place r [] = r ∷ []
place r (x ∷ rest) =
    let below = place r rest in if ltb_ℤ x.0.priority r.0.priority then r ∷ x ∷ rest else x ∷ below

unfoldable pub first_match :
    Text → List (PrivilegeRule × Pattern) → Option (PrivilegeRule × Captures)
first_match scope [] = none
first_match scope ((rule, pattern) ∷ rest) = elim (pattern scope) [
  | none ↦ first_match scope rest
  | some captures ↦ some (rule, captures)
]

abbrev pub same_invariant : Invariant → Invariant → Bool
same_invariant a b =
    text_eq a.scope b.scope
    && text_eq a.operation b.operation
    && text_eq a.resource_type b.resource_type
    && text_eq a.resource_id b.resource_id

abbrev pub add_invariant : Invariant → List Invariant → List Invariant
add_invariant i l = if any (same_invariant i) l then l else i ∷ l

abbrev pub from_match :
    Bool
    → Text
    → Option (PrivilegeRule × Captures)
    → List Invariant
    → Result ExchangeError (List Invariant)
from_match rejects scope none acc = if rejects then err invalid_grant else ok acc
from_match rejects scope (some (rule, captures)) acc = do
  invariant ← emitted rule.emit scope captures
  ok (add_invariant invariant acc)

unfoldable pub emit_all :
    Bool
    → List (PrivilegeRule × Pattern)
    → List Text
    → List Invariant
    → Result ExchangeError (List Invariant)
emit_all rejects rules [] acc = ok acc
emit_all rejects rules (scope ∷ rest) acc = do
  acc' ← from_match rejects scope (first_match scope rules) acc
  emit_all rejects rules rest acc'

module _ (compile : Text → Option Pattern) where
  unfoldable pub compile_rules :
      List PrivilegeRule
      → List (PrivilegeRule × Pattern)
      → Result ExchangeError (List (PrivilegeRule × Pattern))
  compile_rules [] acc = ok acc
  compile_rules (rule ∷ rest) acc = do
    pattern ← ok_or (compile rule.pattern) invalid_request
    compile_rules rest (place (rule, pattern) acc)

  unfoldable pub map_invariants :
      ExchangeProfileConfig → List Text → Result ExchangeError (List Invariant)
  map_invariants profile scopes = do
    rules ← compile_rules profile.rules []
    invariants ← emit_all (text_eq profile.on_unmatched_scope (codes "reject")) rules scopes []
    ensure (not (is_empty invariants)) invalid_grant
    ok invariants

  unfoldable pub map_authority :
      ExchangeProfileConfig → Value → Result ExchangeError MappedAuthority
  map_authority profile payload = do
    identity_context ← map_identity_context profile payload
    scopes ← map_scopes profile.scopes payload
    invariants ← map_invariants profile scopes
    let mapped : MappedAuthority = record {
      identity_context = identity_context;
      invariants = invariants;
    }
    ok mapped
