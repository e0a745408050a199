-- ===== src/Keys/Manager.antt =====
-- `DirectoryKeyManager` (crates/pic-x-std/src/keys.rs): the lifecycle pass, and what signs and serves.
pub mod Advance
pub mod Maintained
pub mod Phases
pub mod Signing
use mathlib.Core.Option
use pic_x.Base.{
  ℕ, suc, ◌+◌, Text, none, some, List, [], ◌∷◌, ◌++◌, Bool, true, false, not, ◌==◌, map,
  if◌then◌else◌, find, count_if, text_eq, lookup, pure, lift, gets, modify, ◌>>=◌, ◌>>◌, ◌&&◌,
}
use pic_x.Keys.{RingAlgorithm, KeyPolicy, Entry, Maintenance, no_maintenance}
use pic_x.Keys.Encoding.{Bytes, from_pem}
use pic_x.Keys.Published.{Jwk, jose, to_jwk}
use pic_x.Keys.Disk.{
  stuck, not_ready, backend, unavailable, RingCrate, World, Io, io, read_ring, write_ring, create,
  forget_all, or_fail, draw,
}
use pic_x.Keys.Rotation.{
  Pass, is_active, is_published, active_is_current, retire_active, take_over, successor_due,
  waiting, to_archive, to_forget, settle,
}

pub record Manager : Type 0 where
  pub policy : KeyPolicy
  pub algorithm : RingAlgorithm

-- A created key joins the entries.
abbrev pub joined : Bool → Pass → Entry → Pass
joined signing p e = record {
  keys = p.keys ++ e ∷ [];
  report = record p.report {
    published = p.report.published + 1;
    activated = if signing then p.report.activated + 1 else p.report.activated;
  };
}

abbrev pub is_empty : {A : Type 0} → List A → Bool
is_empty [] = true
is_empty (_ ∷ _) = false

-- The rounds given to the loop: one for each published key, and one to see that none is due.
abbrev pub rounds : Pass → ℕ
rounds p = suc (count_if is_published p.keys)

abbrev pub is_quiet : Maintenance → Bool
is_quiet r =
    (r.published == 0)
    && (r.activated == 0)
    && (r.retired == 0)
    && (r.archived == 0)
    && (r.forgotten == 0)

pub record Signature : Type 0 where
  pub key_id : Text
  pub algorithm : Text
  pub bytes : Bytes

-- The algorithm that the ring names for a key, or the manager's own.
abbrev pub algorithm_of : Manager → Text → List Entry → RingAlgorithm
algorithm_of m kid keys = elim (find (λ e. text_eq e.kid kid) keys) [
  | none ↦ m.algorithm
  | some e ↦ e.algorithm
]

module _ {crate : RingCrate} where
  open crate use {SigningPair, from_pkcs8, kind, sign_with}

  -- A ring with nothing in it: the first key signs at once.
  unfoldable pub first_key : Manager → ℕ → Pass → Io crate Pass
  first_key m now p =
      if is_empty p.keys
      then (do e ← create m.algorithm now true; pure (joined true p e))
      else pure p

  -- A ring whose active key is of another algorithm gets a key of the configured one, which signs at
  -- once.
  unfoldable pub switch_algorithm : Manager → ℕ → Pass → Io crate Pass
  switch_algorithm m now p =
      if not (active_is_current m.algorithm p.keys) && not (is_empty p.keys)
      then (do let q = retire_active now p; e ← create m.algorithm now true; pure (joined true q e))
      else pure p

  unfoldable pub publish_successor : Manager → ℕ → Pass → Io crate Pass
  publish_successor m now p =
      if successor_due m.policy now p.keys && not (waiting p.keys)
      then (do e ← create m.algorithm now false; pure (joined false p e))
      else pure p

  -- The end of a key's life: the private halves go first, then the entries change.
  unfoldable pub sweep : Manager → ℕ → Pass → Io crate Pass
  sweep m now p = do
    let archiving = to_archive m.policy now p.keys
    let forgetting = to_forget m.policy now p.keys
    forget_all (archiving ++ forgetting)
    pure (settle archiving forgetting p)

  -- The pass over the entries, from the ring that was read.
  unfoldable pub advance : Manager → ℕ → Pass → Io crate Pass
  advance m now p0 = do
    p1 ← first_key m now p0
    p2 ← switch_algorithm m now p1
    p3 ← lift (or_fail stuck (take_over m.policy now (rounds p2) p2))
    p4 ← publish_successor m now p3
    sweep m now p4

  unfoldable pub maintain : Manager → ℕ → Io crate Maintenance
  maintain m now = do
    ring ← read_ring
    p ← advance m now (record { keys = ring.keys; report = no_maintenance })
    if is_quiet p.report
        then pure p.report
        else (do write_ring (record ring { keys = p.keys }); pure p.report)

  unfoldable pub public_keys : Io crate (List Jwk)
  public_keys = do ring ← read_ring; pure (map to_jwk ring.keys)

  unfoldable pub active_key_id : Io crate Text
  active_key_id = do
    ring ← read_ring
    lift (or_fail not_ready (Option.map (λ e. e.kid) (find is_active ring.keys)))

  abbrev cache : Text → SigningPair → World crate → World crate
  cache kid pair w = record w { signers = (kid, pair) ∷ w.signers }

  unfoldable pub load_signer : Manager → Text → Io crate SigningPair
  load_signer m kid = do
    io unavailable
    files ← gets (λ w. w.files)
    text ← lift (or_fail not_ready (lookup kid files))
    pkcs8 ← lift (or_fail backend (from_pem text))
    ring ← read_ring
    pair ← lift (or_fail backend (from_pkcs8 (algorithm_of m kid ring.keys) pkcs8))
    modify (cache kid pair)
    pure pair

  unfoldable pub signer : Manager → Text → Io crate SigningPair
  signer m kid = do
    signers ← gets (λ w. w.signers)
    let cached = lookup kid signers
    elim cached [ none ↦ load_signer m kid | some pair ↦ pure pair ]

  unfoldable pub sign : Manager → Bytes → Io crate Signature
  sign m payload = do
    kid ← active_key_id
    pair ← signer m kid
    seed ← draw
    bytes ← lift (or_fail backend (sign_with pair seed payload))
    pure (record { key_id = kid; algorithm = jose (kind pair); bytes = bytes })
