-- ===== src/Keys/Rotation.antt =====
-- The steps of `maintain` that only read and write the entries in memory
-- (crates/pic-x-std/src/keys.rs, lines 495 to 614).
use mathlib.Core.Option
pub mod Entries
pub mod Counting
pub mod Ends
pub mod Fates
pub mod Handover
pub mod Moves
pub mod Settling
pub mod Switch
use pic_x.Base.{
  ℕ, zero, suc, ◌+◌, ◌-◌, Text, Option, none, some, List, [], ◌∷◌, Bool, true, false, ◌&&◌, not,
  map, leb, ltb, if◌then◌else◌, saturating_add, any, find, retain, count_if, text_eq, has_text,
  length,
}
use pic_x.Keys.{
  KeyPolicy, Entry, KeyState, published, active, retired, archived, state_eq, RingAlgorithm,
  algorithm_eq, Maintenance, seconds_ahead, seconds_rotating, seconds_retained,
  seconds_verify_retained,
}

abbrev pub is_active : Entry → Bool
is_active e = state_eq e.state active

abbrev pub is_published : Entry → Bool
is_published e = state_eq e.state published

-- The entries and the report, as the local variables of one pass hold them.
pub record Pass : Type 0 where
  pub keys : List Entry
  pub report : Maintenance

-- The active key is one that signs with the configured algorithm.
abbrev pub active_is_current : RingAlgorithm → List Entry → Bool
active_is_current algorithm keys = any (λ e. is_active e && algorithm_eq e.algorithm algorithm) keys

abbrev pub retire_entry : ℕ → Entry → Entry
retire_entry now e = if is_active e then record e { state = retired; retired_at = some now } else e

unfoldable pub retire_active : ℕ → Pass → Pass
retire_active now p = record {
  keys = map (retire_entry now) p.keys;
  report = record p.report { retired = p.report.retired + count_if is_active p.keys };
}

abbrev pub is_due : KeyPolicy → ℕ → Entry → Bool
is_due policy now e = is_published e && leb (saturating_add e.created_at (seconds_ahead policy)) now

-- `min_by_key(created_at)`, which answers the first of equal minima.
abbrev pub earlier : Entry → Option Entry → Entry
earlier e none = e
earlier e (some d) = if leb e.created_at d.created_at then e else d

unfoldable pub earliest : List Entry → Option Entry
earliest [] = none
earliest (e ∷ es) = some (earlier e (earliest es))

unfoldable pub due : KeyPolicy → ℕ → List Entry → Option Text
due policy now keys = Option.map (λ e. e.kid) (earliest (retain (is_due policy now) keys))

abbrev pub activate_entry : ℕ → Entry → Entry
activate_entry now e = record e { state = active; activated_at = some now }

-- The first entry of that name starts to sign; the number says how many were found.
unfoldable pub activate_first : Text → ℕ → List Entry → List Entry × ℕ
activate_first kid now [] = ([], 0)
activate_first kid now (e ∷ es) =
    let rest = activate_first kid now es in
    if text_eq e.kid kid then (activate_entry now e ∷ es, 1) else (e ∷ rest.0, rest.1)

-- One round of the loop: the due key takes over from the one that signs.
unfoldable pub hand_over : ℕ → Text → Pass → Pass
hand_over now kid p =
    let q = retire_active now p in
    let r = activate_first kid now q.keys in
    record { keys = r.0; report = record q.report { activated = q.report.activated + r.1 } }

-- The loop; `none` means that the rounds ran out while a key was still due.
unfoldable pub take_over : KeyPolicy → ℕ → ℕ → Pass → Option Pass
take_over policy now zero p = none
take_over policy now (suc rounds) p = elim (due policy now p.keys) [
  | none ↦ some p
  | some kid ↦ take_over policy now rounds (hand_over now kid p)
]

abbrev pub successor_due : KeyPolicy → ℕ → List Entry → Bool
successor_due policy now keys = elim (find is_active keys) [
  | none ↦ false
  | some e ↦ elim e.activated_at [
    | none ↦ false
    | some t ↦ leb (saturating_add t (seconds_rotating policy) - seconds_ahead policy) now
  ]
]

abbrev pub waiting : List Entry → Bool
waiting keys = any is_published keys

-- What the sweep decides about one entry.
pub data Fate : Type 0 where
  keep archive forget : Fate

abbrev pub has_archive_phase : KeyPolicy → Bool
has_archive_phase policy = ltb (seconds_retained policy) (seconds_verify_retained policy)

abbrev pub fate_at : KeyPolicy → ℕ → KeyState → Option ℕ → Fate
fate_at policy now retired (some t) =
    if leb (saturating_add t (seconds_retained policy)) now
    then (if has_archive_phase policy then archive else forget)
    else keep
fate_at policy now archived (some t) =
    if leb (saturating_add t (seconds_verify_retained policy)) now then forget else keep
fate_at policy now _ _ = keep

abbrev pub fate : KeyPolicy → ℕ → Entry → Fate
fate policy now e = fate_at policy now e.state e.retired_at

abbrev pub is_archive : Fate → Bool
is_archive archive = true
is_archive _ = false

abbrev pub is_forget : Fate → Bool
is_forget forget = true
is_forget _ = false

abbrev pub kids : List Entry → List Text
kids = map (λ e. e.kid)

abbrev pub to_archive : KeyPolicy → ℕ → List Entry → List Text
to_archive policy now keys = kids (retain (λ e. is_archive (fate policy now e)) keys)

abbrev pub to_forget : KeyPolicy → ℕ → List Entry → List Text
to_forget policy now keys = kids (retain (λ e. is_forget (fate policy now e)) keys)

abbrev pub archive_entry : List Text → Entry → Entry
archive_entry names e = if has_text names e.kid then record e { state = archived } else e

-- The two writes at the end of the sweep: entries named for the archive move there, and those
-- named to be forgotten are dropped.
unfoldable pub settle : List Text → List Text → Pass → Pass
settle archiving forgetting p = record {
  keys = retain (λ e. not (has_text forgetting e.kid)) (map (archive_entry archiving) p.keys);
  report = record p.report {
    archived = p.report.archived + count_if (λ e. has_text archiving e.kid) p.keys;
    forgotten = p.report.forgotten + length forgetting;
  };
}
