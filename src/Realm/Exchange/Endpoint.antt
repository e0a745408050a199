-- ===== src/Realm/Exchange/Endpoint.antt =====
-- `TokenEndpoint` (crates/pic-x-realm/src/exchange.rs): the exchange of a source token for the first
-- token of a lineage, and the advancement of a lineage, with the record that comes before each answer.
-- The artifacts of the pic crate, the regex crate and the key ring are parameters; the clock, the random
-- source and the audit sink answer from lists in the world.
pub mod Recorded
use pic_x.Base.{
  ℕ, Text, codes, Option, none, some, List, [], ◌∷◌, ◌++◌, Bool, true, false, not, ◌||◌, ◌&&◌,
  if◌then◌else◌, text_eq, lookup, Result, ok, err, Exec, pure, raise, lift, modify, ◌>>=◌, ◌>>◌,
}
use pic_x.Base.Fallible.{ensure, ok_or}
use pic_x.Base.Int.{ℤ, ltb_ℤ}
use pic_x.Keys.{Duration}
use pic_x.Keys.Encoding.{base64url}
use pic_x.Keys.Manager.{Signature}
use pic_x.Json.{Value}
use pic_x.Audit.Event.{
  AuditEvent, Subject, principal, anonymous, continuity, new, on, with_continuity_id,
  at_continuity_position,
}
use pic_x.Realm.Profile.{Bytes, Crates, Attester, is_absent}
use pic_x.Realm.Profile.Validate.{Validator}
use pic_x.Realm.Exchange.{
  ExchangeError, invalid_request, invalid_grant, invalid_target, unsupported_token_type,
  temporarily_unavailable, server_error, Form, parse_form, require,
}
use pic_x.Realm.Exchange.Expiry.{TokenInitialExpiryPolicy, initial_expiry}
use pic_x.Realm.Exchange.Source.{
  ExchangeProfileConfig, DecodedJwt, claim_string, claim_i64, decode, select_initial_profile,
  validate_source_jwt,
}
use pic_x.Realm.Exchange.Mapping.{Pattern, MappedAuthority, map_authority}
use pic_x.Realm.Exchange.Preflight.{Candidate, CandidateMetadata, check_candidate}

-- The part of a realm that the endpoint reads. `active_key_id` is what the token key ring answers,
-- where there is a ring.
pub record Realm : Type 0 where
  pub name : Text
  pub mount_path : Text
  pub issuer : Option Text
  pub exchange_profiles : List ExchangeProfileConfig
  pub token_lifetime : Duration
  pub token_initial_expiry_policy : TokenInitialExpiryPolicy
  pub token_signing_algorithm : Text
  pub token_keys : Option (Option Text)
  pub attesters : List Attester
  pub attester_keys : Text → Option (List Value)
  pub idp_keys : Text → Option (List Value)

pub record SettlementContext : Type 0 where
  pub iss : Text
  pub sub : Option Text
  pub iat : ℤ
  pub exp : ℤ
  pub jti : Text

pub record Issued : Type 0 where
  pub token : Text
  pub position : ℕ
  pub lineage_id : Option Text

-- The pic crate. A mapped authority and a contract make an authority, or none; `issue` signs a payload
-- with the key of a name, and `settle` is `SettlementAuthority::settle`.
pub record PicCrate : Type 1 where
  pub Contract : Type 0
  pub Authority : Type 0
  pub Payload : Type 0
  pub token_type : Text
  pub proposal_type : Text
  pub accepted_type : Text
  pub from_continuity_proposal : Text → Option Contract
  pub from_logical : MappedAuthority → Contract → Option Authority
  pub payload : Authority → Bytes → Text → ℤ → Payload
  pub issue : Text → SettlementContext → Payload → Option Issued
  pub read_candidate : Text → Option Candidate
  pub expected_algorithms : Value → Option (Text × Option Text)
  pub settle : Text → SettlementContext → Text → Option Issued

-- What becomes of an event that is handed to the audit sink: it is recorded; it is answered with an error
-- and lost; or it is answered with an error and stays in the trail, where the sink had written it before
-- it failed to flush.
pub data Outcome : Type 0 where
  recorded lost unflushed : Outcome

pub record World : Type 0 where
  pub clock : List ℤ
  pub random : List Bytes
  pub outcomes : List Outcome
  pub log : List AuditEvent

abbrev pub Step : Type 0 → Type 0
Step A = Exec ExchangeError World A

abbrev next_time : List ℤ → Step ℤ
next_time [] w = (err server_error, w)
next_time (t ∷ rest) w = (ok t, record w { clock = rest })

abbrev pub unix_now : Step ℤ
unix_now w = next_time w.clock w

-- The clock as a value: nothing where it stands before the epoch.
abbrev pub clock_now : Step (Option ℤ)
clock_now w = elim w.clock [
  | [] ↦ (ok none, w)
  | t ∷ rest ↦ (ok (some t), record w { clock = rest })
]

-- The clock is read for a profile that requires an expiration.
abbrev pub clock_for : Bool → Step (Option ℤ)
clock_for true = clock_now
clock_for false = pure none

abbrev next_random : List Bytes → Step Bytes
next_random [] w = (err server_error, w)
next_random (b ∷ rest) w = (ok b, record w { random = rest })

abbrev pub fill : Step Bytes
fill w = next_random w.random w

-- The exchange goes on where the sink says that the event is recorded; the log is what the trail has.
abbrev written : AuditEvent → List Outcome → Step (Unit {0})
written event [] w = (ok tt, record w { log = w.log ++ event ∷ [] })
written event (recorded ∷ rest) w = (ok tt, record w { outcomes = rest; log = w.log ++ event ∷ [] })
written event (lost ∷ rest) w = (err server_error, record w { outcomes = rest })
written event (unflushed ∷ rest) w =
    (err server_error, record w { outcomes = rest; log = w.log ++ event ∷ [] })

unfoldable pub record_event : AuditEvent → Step (Unit {0})
record_event event w = written event w.outcomes w

abbrev pub initialized : Text → Option Text → Text → ℕ → AuditEvent
initialized profile_id sub lineage_id position =
    let subject = elim sub as (λ x. Subject) [ none ↦ anonymous | some s ↦ principal s ] in
    at_continuity_position
      (with_continuity_id (on (new (codes "pic.exchange.initialized") subject) profile_id)
        lineage_id)
      position

abbrev pub advanced : Text → Text → ℕ → AuditEvent
advanced realm lineage_id position =
    at_continuity_position
      (with_continuity_id (on (new (codes "pic.exchange.advanced") (continuity lineage_id)) realm)
        lineage_id)
      position

abbrev rejected_lineage : Option Text → AuditEvent
rejected_lineage none = new (codes "pic.exchange.rejected") anonymous
rejected_lineage (some id) =
    with_continuity_id (new (codes "pic.exchange.rejected") (continuity id)) id

abbrev at_position : Option ℕ → AuditEvent → AuditEvent
at_position none event = event
at_position (some position) event = at_continuity_position event position

abbrev pub rejected : Text → Option Text → Option ℕ → AuditEvent
rejected realm lineage_id position = at_position position (on (rejected_lineage lineage_id) realm)

-- `record_advancement_rejected`, and the error that is answered then.
abbrev pub refuse : {A : Type 0} → AuditEvent → ExchangeError → Step A
refuse event e = do record_event event; raise e

abbrev pub or_else : Option Text → Text → Text
or_else none t = t
or_else (some s) t = s

-- `RealmTokenSigner::new`, by the name of the key.
abbrev pub signer_new : Realm → Result ExchangeError Text
signer_new realm = elim realm.token_keys [
  | none ↦ err temporarily_unavailable
  | some active ↦
      if text_eq realm.token_signing_algorithm (codes "EdDSA")
        || text_eq realm.token_signing_algorithm (codes "ES256")
      then ok_or active temporarily_unavailable
      else err server_error
]

-- `RealmTokenSigner::sign`, on what the ring answers: a signature of another algorithm, or under a key
-- that has become active in between, is none.
unfoldable pub sign : Text → Text → Option Signature → Option Bytes
sign kid jose none = none
sign kid jose (some signature) =
    if text_eq signature.algorithm jose && text_eq signature.key_id kid
    then some signature.bytes
    else none

abbrev pub is_one_of : Option Text → Text → Bool
is_one_of none expected = true
is_one_of (some t) expected = text_eq t expected

module _ (crates : Crates) (pic : PicCrate) (compile : Text → Option Pattern) (realm : Realm) where
  unfoldable pub exchange_initial : Text → Form → Step Issued
  exchange_initial access_token form = do
    proposal ← lift (require form (codes "continuity_proposal"))
    lift (
        ensure (is_one_of (lookup (codes "continuity_proposal_type") form) pic.proposal_type)
          invalid_request)
    jwt ← lift (decode crates access_token)
    profile ← lift (select_initial_profile realm.exchange_profiles jwt)
    clock ← clock_for profile.source.validation.require_expiration
    lift (validate_source_jwt crates realm.idp_keys clock jwt profile)
    mapped ← lift (map_authority compile profile jwt.payload)
    contract ← lift (ok_or (pic.from_continuity_proposal proposal) invalid_request)
    authority ← lift (ok_or (pic.from_logical mapped contract) invalid_grant)
    challenge ← fill
    lineage_bytes ← fill
    let lineage_id = base64url lineage_bytes
    now ← unix_now
    expiry ← lift (
        initial_expiry crates proposal (claim_i64 jwt (codes "exp")) now realm.token_lifetime
          realm.token_initial_expiry_policy)
    kid ← lift (signer_new realm)
    let context : SettlementContext = record {
      iss = or_else realm.issuer realm.mount_path;
      sub = claim_string jwt (codes "sub");
      iat = now;
      exp = expiry;
      jti = lineage_id;
    }
    issued ← lift (
        ok_or (pic.issue kid context (pic.payload authority challenge lineage_id expiry))
          server_error)
    record_event
        (initialized profile.id (claim_string jwt (codes "sub")) lineage_id issued.position)
    pure issued

  abbrev pub validator : ℤ → Validator
  validator now = record { attesters = realm.attesters; keys_for = realm.attester_keys; now = now }

  -- `preflight_candidate_key_metadata`
  abbrev pub preflight : Text → ℤ → Result ExchangeError CandidateMetadata
  preflight candidate_token now = elim (pic.read_candidate candidate_token) [
    | none ↦ err invalid_grant
    | some c ↦ check_candidate crates pic.accepted_type pic.expected_algorithms (validator now) c
  ]

  abbrev pub settled : Text → Text → ℕ → Option Issued → Step Issued
  settled kid lineage_id position none =
      refuse (rejected realm.name (some lineage_id) (some position)) invalid_grant
  settled kid lineage_id position (some issued) = do
    issued_lineage ← lift (ok_or issued.lineage_id server_error)
    record_event (advanced realm.name issued_lineage issued.position)
    pure issued

  abbrev pub settle_lineage : Text → ℤ → Text → CandidateMetadata → Option Text → Step Issued
  settle_lineage candidate_token now kid metadata none =
      refuse (rejected realm.name none (some metadata.proposed_position)) invalid_grant
  settle_lineage candidate_token now kid metadata (some lineage_id) =
      if not (ltb_ℤ now metadata.expires_at)
      then refuse (rejected realm.name (some lineage_id) (some metadata.proposed_position))
          invalid_grant
      else (let context : SettlementContext = record {
        iss = or_else realm.issuer realm.mount_path;
        sub = none;
        iat = now;
        exp = metadata.expires_at;
        jti = lineage_id;
      } in
          settled kid lineage_id metadata.proposed_position
            (pic.settle kid context candidate_token))

  abbrev pub preflighted : Text → ℤ → Text → Result ExchangeError CandidateMetadata → Step Issued
  preflighted candidate_token now kid (err e) = refuse (rejected realm.name none none) e
  preflighted candidate_token now kid (ok metadata) =
      settle_lineage candidate_token now kid metadata metadata.lineage_id

  unfoldable pub advance : Text → Step Issued
  advance candidate_token = do
    now ← unix_now
    kid ← lift (signer_new realm)
    preflighted candidate_token now kid (preflight candidate_token now)

  abbrev pub dispatch : Form → Text → Text → Step Issued
  dispatch form subject_token_type subject_token =
      if text_eq subject_token_type (codes "urn:ietf:params:oauth:token-type:access_token")
      then exchange_initial subject_token form
      else if text_eq subject_token_type pic.token_type
      then (do
        lift (ensure (is_absent (lookup (codes "continuity_proposal") form)) invalid_request)
        lift (ensure (is_absent (lookup (codes "continuity_proposal_type") form)) invalid_request)
        advance subject_token)
      else raise unsupported_token_type

  unfoldable pub exchange : Bytes → Step Issued
  exchange body = do
    form ← lift (parse_form crates body)
    grant ← lift (require form (codes "grant_type"))
    lift (
        ensure (text_eq grant (codes "urn:ietf:params:oauth:grant-type:token-exchange"))
          invalid_request)
    lift (
        ensure (is_one_of (lookup (codes "requested_token_type") form) pic.token_type)
          invalid_target)
    subject_token_type ← lift (require form (codes "subject_token_type"))
    subject_token ← lift (require form (codes "subject_token"))
    dispatch form subject_token_type subject_token
