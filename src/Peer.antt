-- ===== src/Peer.antt =====
-- crates/pic-x-core/src/peer.rs: who is at the other end of a connection, and the list of peers that
-- a surface answers.
pub mod Reading
mod Tests
use pic_x.Base.{
  ℕ, ◌+◌, Text, codes, Option, none, some, List, [], ◌∷◌, ◌++◌, Bool, true, false, ◌&&◌, ◌||◌, any,
  not, if◌then◌else◌, ◌==◌, leb, Result, ok, err, All, text_eq, trim, is_empty_text, strip_prefix,
  retain, is_digit, length, map,
}
use pic_x.Base.Fallible.{◌>>=◌, ◌>>◌, ensure}

pub record PeerIdentity : Type 0 where
  pub subject : Text
  pub common_name : Option Text
  pub fingerprint : Text
  pub serial : Text

abbrev nonempty_or : Text → Text → Text
nonempty_or t other = if is_empty_text t then other else t

abbrev name_or : Option Text → Text → Text
name_or none subject = subject
name_or (some name) subject = nonempty_or name subject

-- The common name, or the subject, or the fingerprint: the first that is not empty.
unfoldable pub label : PeerIdentity → Text
label p = nonempty_or (name_or p.common_name p.subject) p.fingerprint

pub data AllowedPeer : Type 0 where
  common_name subject fingerprint : Text → AllowedPeer

abbrev pub to_ascii_lowercase : ℕ → ℕ
to_ascii_lowercase c = if leb b'A' c && leb c b'Z' then c + 32 else c

abbrev pub lower : Text → Text
lower s = map to_ascii_lowercase s

abbrev pub eq_ignore_ascii_case : Text → Text → Bool
eq_ignore_ascii_case s t = text_eq (lower s) (lower t)

abbrev is_name : Option Text → Text → Bool
is_name none name = false
is_name (some n) name = text_eq n name

unfoldable pub matches : AllowedPeer → PeerIdentity → Bool
matches (common_name name) peer = is_name peer.common_name name
matches (subject s) peer = text_eq peer.subject s
matches (fingerprint f) peer = eq_ignore_ascii_case peer.fingerprint f

unfoldable pub is_allowed_by : PeerIdentity → List AllowedPeer → Bool
is_allowed_by peer allowed = any (λ entry. matches entry peer) allowed

abbrev pub kind : AllowedPeer → Text
kind (common_name _) = codes "cn"
kind (subject _) = codes "dn"
kind (fingerprint _) = codes "sha256"

-- `Display`
unfoldable pub to_string : AllowedPeer → Text
to_string (common_name name) = codes "cn:" ++ name
to_string (subject s) = codes "dn:" ++ s
to_string (fingerprint f) = codes "sha256:" ++ f

-- What `from_str` says is wrong with an entry.
pub data Refusal : Type 0 where
  names_no_peer not_a_fingerprint : Refusal

abbrev pub non_empty : Text → Result Refusal Text
non_empty value = do let name = trim value; ensure (not (is_empty_text name)) names_no_peer; ok name

-- `char::is_ascii_hexdigit`
abbrev pub is_hex : ℕ → Bool
is_hex c = is_digit c || (leb b'a' c && leb c b'f') || (leb b'A' c && leb c b'F')

unfoldable pub all_hex : Text → Bool
all_hex [] = true
all_hex (c ∷ s) = is_hex c && all_hex s

-- `replace(':', "")`
abbrev pub without_colons : Text → Text
without_colons s = retain (λ c. not (c == b':')) s

-- The length is counted in bytes; where all characters are hexadecimal digits, each is one.
abbrev pub read_fingerprint : Text → Result Refusal AllowedPeer
read_fingerprint s = do
  let f = without_colons (trim s)
  ensure ((length f == 64) && all_hex f) not_a_fingerprint
  ok (fingerprint (lower f))

abbrev pub read_common_name : Text → Result Refusal AllowedPeer
read_common_name s = do name ← non_empty s; ok (common_name name)

abbrev pub read_subject : Text → Result Refusal AllowedPeer
read_subject s = do name ← non_empty s; ok (subject name)

abbrev read_bare : Text → Option Text → Result Refusal AllowedPeer
read_bare value (some f) = read_fingerprint f
read_bare value none = ok (common_name value)

abbrev read_rest : Text → Option Text → Result Refusal AllowedPeer
read_rest value (some s) = read_subject s
read_rest value none = read_bare value (strip_prefix (codes "sha256:") value)

abbrev read_entry : Text → Option Text → Result Refusal AllowedPeer
read_entry value (some name) = read_common_name name
read_entry value none = read_rest value (strip_prefix (codes "dn:") value)

-- `AllowedPeer::from_str`
unfoldable pub from_str : Text → Result Refusal AllowedPeer
from_str written = do
  let value = trim written
  ensure (not (is_empty_text value)) names_no_peer
  read_entry value (strip_prefix (codes "cn:") value)
