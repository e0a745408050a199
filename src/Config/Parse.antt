-- ===== src/Config/Parse.antt =====
-- How a setting is read from its text: the parsers at the end of crates/pic-x-core/src/config.rs, and
-- the names that the choices of crates/pic-x-core/src/{logging,tls,secrets,audit}.rs are written by.
use pic_x.Base.{
  ℕ, ◌*◌, ◌^◌, ◌-◌, Text, codes, Option, none, some, List, [], ◌∷◌, Bool, true, false, not, ◌&&◌,
  ◌||◌, if◌then◌else◌, ◌==◌, leb, retain, map, text_eq, has_text, lines, split, trim,
  trim_end_matches, trim_start_matches, strip_last, starts_with, is_empty_text, parse_unsigned,
  Result, ok, err,
}
use pic_x.Base.Fallible.{◌>>=◌, ◌>>◌, ensure, ok_or}
use pic_x.Keys.{Duration}
use pic_x.Limits.{IpAddr, PeerBlock, InvalidPeerBlock, from_secs}
use pic_x.Limits
use pic_x.Peer.{AllowedPeer, lower}
use pic_x.Peer
use pic_x.Realm.Exchange.Expiry.{TokenInitialExpiryPolicy, later, pic, oauth}

-- What a parser says is wrong, in place of its message.
pub data ParseError : Type 0 where
  not_a_duration zero_duration too_long not_a_policy not_a_count zero_count not_a_size zero_size
        too_large not_a_boolean not_a_level not_a_format not_a_version not_a_provider
        not_a_destination :
      ParseError
  bad_peer : Peer.Refusal → ParseError
  bad_block : InvalidPeerBlock → ParseError

pub data LogLevel : Type 0 where
  error warn info debug trace : LogLevel

pub data LogFormat : Type 0 where
  json terminal : LogFormat

pub data TlsVersion : Type 0 where
  v1_2 v1_3 : TlsVersion

-- `SecretProvider::None` is `nowhere`.
pub data SecretProvider : Type 0 where
  nowhere directory environment : SecretProvider

pub data AuditDestination : Type 0 where
  tracing file : AuditDestination

abbrev u64_max : ℕ
u64_max = 2 ^ 64 - 1

abbrev u32_max : ℕ
u32_max = 2 ^ 32 - 1

abbrev either : ℕ → ℕ → ℕ → Bool
either a b c = (c == a) || (c == b)

abbrev or_else {ℓ} : {A : Type ℓ} → Option A → A → A
or_else none a = a
or_else (some b) _ = b

abbrev with_unit : ℕ → ℕ → ℕ → Text → Text × ℕ → Text × ℕ
with_unit small capital multiplier value other = elim (strip_last (either small capital) value) [
  | some digits ↦ (digits, multiplier)
  | none ↦ other
]

-- The digits of a duration, and the seconds that its unit stands for.
abbrev pub duration_parts : Text → Text × ℕ
duration_parts value = with_unit b's' b'S' 1 value (
    with_unit b'm' b'M' 60 value
      (with_unit b'h' b'H' 3600 value (with_unit b'd' b'D' 86400 value (value, 1))))

unfoldable pub parse_duration : Text → Result ParseError Duration
parse_duration written = do
  let parts = duration_parts (trim written)
  amount ← ok_or (parse_unsigned u64_max (trim parts.0)) not_a_duration
  ensure (not (amount == 0)) zero_duration
  ensure (leb (amount * parts.1) u64_max) too_long
  ok (from_secs (amount * parts.1))

abbrev spells_zero : Text → Bool
spells_zero t =
    has_text (map codes ("0" ∷ "0s" ∷ "0S" ∷ "0m" ∷ "0M" ∷ "0h" ∷ "0H" ∷ "0d" ∷ "0D" ∷ [])) t

unfoldable pub parse_duration_allow_zero : Text → Result ParseError Duration
parse_duration_allow_zero value =
    if spells_zero (trim value) then ok (from_secs 0) else parse_duration (trim value)

-- The value that a text names, of names each with its value.
unfoldable pub named : {A : Type 0} → List (Text × A) → ParseError → Text → Result ParseError A
named [] e t = err e
named ((n, a) ∷ rest) e t = let below = named rest e t in if text_eq n t then ok a else below

unfoldable pub parse_token_initial_expiry_policy : Text → Result ParseError TokenInitialExpiryPolicy
parse_token_initial_expiry_policy value =
    named ((codes "later", later) ∷ (codes "pic", pic) ∷ (codes "oauth", oauth) ∷ []) not_a_policy
      (trim value)

unfoldable pub parse_count : Text → Result ParseError ℕ
parse_count value = do
  count ← ok_or (parse_unsigned u32_max (trim value)) not_a_count
  ensure (not (count == 0)) zero_count
  ok count

abbrev pub size_parts : Text → Text × ℕ
size_parts value = with_unit b'k' b'K' 1024 value (
    with_unit b'm' b'M' (1024 * 1024) value
      (with_unit b'g' b'G' (1024 * 1024 * 1024) value (value, 1)))

unfoldable pub parse_bytes : Text → Result ParseError ℕ
parse_bytes written = do
  let parts = size_parts (trim written)
  let digits = trim (trim_end_matches (either b'b' b'B') (trim parts.0))
  amount ← ok_or (parse_unsigned u64_max digits) not_a_size
  ensure (not (amount == 0)) zero_size
  ensure (leb (amount * parts.1) u64_max) too_large
  ok (amount * parts.1)

-- `collect` of results, up to the first that failed.
unfoldable pub collect {ℓ κ} :
    {A : Type 0} {B : Type ℓ} {E : Type κ} → (A → Result E B) → List A → Result E (List B)
collect read [] = ok []
collect read (a ∷ l) = do b ← read a; rest ← collect read l; ok (b ∷ rest)

abbrev map_err {ℓ} : {E F : Type 0} {A : Type ℓ} → (E → F) → Result E A → Result F A
map_err f (ok a) = ok a
map_err f (err e) = err (f e)

abbrev pub non_blank : List Text → List Text
non_blank l = retain (λ s. not (is_empty_text s)) (map trim l)

unfoldable pub parse_allowed : Text → Result ParseError (List AllowedPeer)
parse_allowed value =
    collect (λ line. map_err bad_peer (Peer.from_str line)) (non_blank (lines value))

-- The addresses exempt from the bound on one address, with commas between them.
module _ (parse_address : Text → Option IpAddr) where
  unfoldable pub parse_exempt : Text → Result ParseError (List PeerBlock)
  parse_exempt value =
      collect (λ entry. map_err bad_block (Limits.from_str parse_address entry))
        (non_blank (split b',' value))

-- Zero switches this bound off, so it is read as a plain number.
unfoldable pub parse_per_peer : Text → Result ParseError ℕ
parse_per_peer value = ok_or (parse_unsigned u32_max (trim value)) not_a_count

abbrev unless_zero : Duration → Option Duration
unless_zero d = if (d.secs == 0) && (d.nanos == 0) then none else some d

unfoldable pub parse_lifetime : Text → Result ParseError (Option Duration)
parse_lifetime value = do lifetime ← parse_duration_allow_zero value; ok (unless_zero lifetime)

-- What `rsplit_once(':')` leaves before the last colon, or all of a text that has none.
unfoldable pub rsplit_host : Text → Option Text
rsplit_host [] = none
rsplit_host (c ∷ s) =
    let rest = rsplit_host s in
    elim rest [ some host ↦ some (c ∷ host) | none ↦ if c == b':' then some [] else none ]

abbrev before_last_colon : Text → Text
before_last_colon address = or_else (rsplit_host address) address

-- Anything unrecognised is taken as reachable from elsewhere.
unfoldable pub is_loopback : Text → Bool
is_loopback address =
    let host =
      trim_end_matches (λ c. c == b']')
        (trim_start_matches (λ c. c == b'[') (trim (before_last_colon address))) in
    text_eq host (codes "localhost")
    || text_eq host (codes "::1")
    || starts_with (codes "127.") host

unfoldable pub parse_bool : Text → Result ParseError Bool
parse_bool value =
    named
      ((codes "true", true)
        ∷ (codes "yes", true)
        ∷ (codes "on", true)
        ∷ (codes "1", true)
        ∷ (codes "false", false)
        ∷ (codes "no", false)
        ∷ (codes "off", false)
        ∷ (codes "0", false)
        ∷ [])
      not_a_boolean (lower (trim value))

unfoldable pub parse_level : Text → Result ParseError LogLevel
parse_level value =
    named
      ((codes "error", error)
        ∷ (codes "warn", warn)
        ∷ (codes "warning", warn)
        ∷ (codes "info", info)
        ∷ (codes "debug", debug)
        ∷ (codes "trace", trace)
        ∷ [])
      not_a_level (lower (trim value))

unfoldable pub parse_format : Text → Result ParseError LogFormat
parse_format value =
    named
      ((codes "json", json)
        ∷ (codes "terminal", terminal)
        ∷ (codes "text", terminal)
        ∷ (codes "pretty", terminal)
        ∷ [])
      not_a_format (lower (trim value))

unfoldable pub parse_version : Text → Result ParseError TlsVersion
parse_version value =
    named
      ((codes "1.2", v1_2)
        ∷ (codes "1_2", v1_2)
        ∷ (codes "12", v1_2)
        ∷ (codes "1.3", v1_3)
        ∷ (codes "1_3", v1_3)
        ∷ (codes "13", v1_3)
        ∷ [])
      not_a_version (trim_start_matches (either b'v' b'V') (trim value))

unfoldable pub parse_provider : Text → Result ParseError SecretProvider
parse_provider value =
    named
      ((codes "none", nowhere)
        ∷ ([], nowhere)
        ∷ (codes "directory", directory)
        ∷ (codes "dir", directory)
        ∷ (codes "file", directory)
        ∷ (codes "environment", environment)
        ∷ (codes "env", environment)
        ∷ [])
      not_a_provider (lower (trim value))

unfoldable pub parse_destination : Text → Result ParseError AuditDestination
parse_destination value =
    named
      ((codes "tracing", tracing)
        ∷ (codes "log", tracing)
        ∷ ([], tracing)
        ∷ (codes "file", file)
        ∷ (codes "directory", file)
        ∷ [])
      not_a_destination (lower (trim value))
