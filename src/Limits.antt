-- ===== src/Limits.antt =====
-- crates/pic-x-core/src/limits.rs: what a surface refuses to spend on any one client, and the blocks
-- of addresses that are exempt from the bound on one address. How the standard library reads an
-- address from text is a parameter.
pub mod Blocks
mod Tests
use pic_x.Base.{
  ℕ, ◌-◌, ◌*◌, ◌^◌, ◌%◌, bit_and, Text, Option, none, some, List, [], Bool, false, any,
  if◌then◌else◌, ◌==◌, leb, Result, ok, err, trim, split_once_at, parse_unsigned,
}
use pic_x.Base.Fallible.{◌>>=◌, ◌>>◌, ensure, ok_or}
use pic_x.Keys.{Duration}

-- `IpAddr`, by its bits.
pub data IpAddr : Type 0 where
  v4 v6 : ℕ → IpAddr

pub record PeerBlock : Type 0 where
  pub address : IpAddr
  pub prefix : ℕ

-- `InvalidPeerBlock`, by its detail.
pub data InvalidPeerBlock : Type 0 where
  not_an_address not_a_number too_wide : InvalidPeerBlock

pub record Limits : Type 0 where
  pub connections : ℕ
  pub connections_per_peer : ℕ
  pub peer_exempt : List PeerBlock
  pub concurrent_requests : ℕ
  pub request_timeout : Duration
  pub handshake_timeout : Duration
  pub header_timeout : Duration
  pub body_bytes : ℕ
  pub header_bytes : ℕ
  pub connection_lifetime : Option Duration
  pub write_stall_timeout : Duration

abbrev pub from_secs : ℕ → Duration
from_secs n = record { secs = n; nanos = 0 }

-- `Limits::new`
abbrev pub new : Limits
new = record {
  connections = 1024;
  connections_per_peer = 256;
  peer_exempt = [];
  concurrent_requests = 256;
  request_timeout = from_secs 30;
  handshake_timeout = from_secs 10;
  header_timeout = from_secs 10;
  body_bytes = 1024 * 1024;
  header_bytes = 64 * 1024;
  connection_lifetime = none;
  write_stall_timeout = from_secs 30;
}

abbrev pub with_connections : Limits → ℕ → Limits
with_connections l n = record l { connections = n }

abbrev pub with_connections_per_peer : Limits → ℕ → Limits
with_connections_per_peer l n = record l { connections_per_peer = n }

abbrev pub with_peer_exempt : Limits → List PeerBlock → Limits
with_peer_exempt l exempt = record l { peer_exempt = exempt }

abbrev pub with_connection_lifetime : Limits → Option Duration → Limits
with_connection_lifetime l lifetime = record l { connection_lifetime = lifetime }

abbrev pub with_write_stall_timeout : Limits → Duration → Limits
with_write_stall_timeout l timeout = record l { write_stall_timeout = timeout }

abbrev pub with_concurrent_requests : Limits → ℕ → Limits
with_concurrent_requests l n = record l { concurrent_requests = n }

abbrev pub with_request_timeout : Limits → Duration → Limits
with_request_timeout l timeout = record l { request_timeout = timeout }

abbrev pub with_handshake_timeout : Limits → Duration → Limits
with_handshake_timeout l timeout = record l { handshake_timeout = timeout }

abbrev pub with_header_timeout : Limits → Duration → Limits
with_header_timeout l timeout = record l { header_timeout = timeout }

abbrev pub with_body_bytes : Limits → ℕ → Limits
with_body_bytes l n = record l { body_bytes = n }

abbrev pub with_header_bytes : Limits → ℕ → Limits
with_header_bytes l n = record l { header_bytes = n }

-- `MAX << (width - prefix)` in a type of that width, and 0 for the prefix 0.
abbrev pub mask : ℕ → ℕ → ℕ
mask width prefix = if prefix == 0 then 0 else (2 ^ width - 1) * 2 ^ (width - prefix) % 2 ^ width

abbrev pub same_bits : ℕ → ℕ → ℕ → ℕ → Bool
same_bits width prefix block candidate =
    bit_and block (mask width prefix) == bit_and candidate (mask width prefix)

abbrev contains_address : ℕ → IpAddr → IpAddr → Bool
contains_address prefix (v4 block) (v4 candidate) = same_bits 32 prefix block candidate
contains_address prefix (v6 block) (v6 candidate) = same_bits 128 prefix block candidate
contains_address prefix _ _ = false

unfoldable pub contains : PeerBlock → IpAddr → Bool
contains b candidate = contains_address b.prefix b.address candidate

unfoldable pub is_peer_exempt : Limits → IpAddr → Bool
is_peer_exempt l address = any (λ block. contains block address) l.peer_exempt

abbrev pub width_of : IpAddr → ℕ
width_of (v4 _) = 32
width_of (v6 _) = 128

abbrev pub u8_max : ℕ
u8_max = 255

-- `prefix > width` refuses; without a prefix the block is one address.
abbrev read_prefix : ℕ → Option Text → Result InvalidPeerBlock ℕ
read_prefix width none = ok width
read_prefix width (some s) = do
  prefix ← ok_or (parse_unsigned u8_max s) not_a_number
  ensure (leb prefix width) too_wide
  ok prefix

abbrev address_part : Text → Option (Text × Text) → Text × Option Text
address_part written none = (written, none)
address_part written (some p) = (p.0, some p.1)

module _ (parse_address : Text → Option IpAddr) where
  -- `PeerBlock::from_str`
  unfoldable pub from_str : Text → Result InvalidPeerBlock PeerBlock
  from_str written = do
    let s = trim written
    let p = address_part s (split_once_at b'/' s)
    address ← ok_or (parse_address p.0) not_an_address
    prefix ← read_prefix (width_of address) p.1
    ok (record { address = address; prefix = prefix })
