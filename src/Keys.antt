-- ===== src/Keys.antt =====
-- The key ring: core/src/keys.rs and std/src/keys.rs of crates/pic-x-*.
-- Durations are kept as `Duration`, whose whole seconds are what the ring computes with.
pub mod Encoding
pub mod Disk
pub mod Lifecycle
pub mod Manager
pub mod Published
pub mod Rotation
mod Tests
use pic_x.Base.{
  text_eq, ◌||◌, if◌then◌else◌, ℕ, Text, codes, Option, none, some, List, [], Bool, true, false,
  max,
}

-- `std::time::Duration`
pub record Duration : Type 0 where
  pub secs : ℕ
  pub nanos : ℕ

pub data RingAlgorithm : Type 0 where
  ed25519 es256 : RingAlgorithm

-- `RingAlgorithm::parse`
abbrev pub algorithm_named : Text → Option RingAlgorithm
algorithm_named t =
    if text_eq t (codes "EdDSA") || text_eq t (codes "Ed25519")
    then some ed25519
    else if text_eq t (codes "ES256") || text_eq t (codes "P-256")
    then some es256
    else none

pub data KeyState : Type 0 where
  published active retired archived : KeyState

pub record KeyPolicy : Type 0 where
  pub publish_ahead : Duration
  pub rotate_every : Duration
  pub retain : Duration
  pub verify_retain : Duration

abbrev pub seconds_ahead : KeyPolicy → ℕ
seconds_ahead p = p.publish_ahead.secs

abbrev pub seconds_rotating : KeyPolicy → ℕ
seconds_rotating p = p.rotate_every.secs

abbrev pub seconds_retained : KeyPolicy → ℕ
seconds_retained p = p.retain.secs

abbrev pub seconds_verify_retained : KeyPolicy → ℕ
seconds_verify_retained p = max p.verify_retain.secs p.retain.secs

pub record Entry : Type 0 where
  pub kid : Text
  pub state : KeyState
  pub algorithm : RingAlgorithm
  pub public_key : Text
  pub created_at : ℕ
  pub activated_at : Option ℕ
  pub retired_at : Option ℕ

-- `state == KeyState::…` and `algorithm == …`, the derived `PartialEq`.
abbrev pub state_eq : KeyState → KeyState → Bool
state_eq published published = true
state_eq active active = true
state_eq retired retired = true
state_eq archived archived = true
state_eq _ _ = false

abbrev pub algorithm_eq : RingAlgorithm → RingAlgorithm → Bool
algorithm_eq ed25519 ed25519 = true
algorithm_eq es256 es256 = true
algorithm_eq _ _ = false

pub record Ring : Type 0 where
  pub version : ℕ
  pub keys : List Entry

pub record Maintenance : Type 0 where
  pub published : ℕ
  pub activated : ℕ
  pub retired : ℕ
  pub archived : ℕ
  pub forgotten : ℕ

abbrev pub no_maintenance : Maintenance
no_maintenance = record { published = 0; activated = 0; retired = 0; archived = 0; forgotten = 0 }
