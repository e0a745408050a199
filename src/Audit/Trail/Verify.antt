-- ===== src/Audit/Trail/Verify.antt =====
-- `verify` (crates/pic-x-std/src/audit/file.rs) over a directory that can be read.
pub mod Intact
pub mod Tamper
pub mod Walked
use pic_x.Base.{
  ℕ, suc, ◌+◌, Text, Option, none, some, List, [], ◌∷◌, ◌++◌, Bool, true, false, not, if◌then◌else◌,
  ◌==◌, ltb, text_eq, any, length, Result, ok, err,
}
use pic_x.Base.Fallible.{◌>>=◌, ◌>>◌, ensure}
use pic_x.Base.Int.{ℤ}
use pic_x.Audit.Trail.{
  genesis, Body, Record, Seal, Line, blank, garbled, entry, SealFile, torn, sealed, Directory,
  of_day,
}

-- Why a trail does not verify.
pub data Fault : Type 0 where
  unreadable_seal unreadable_record altered unlinked misnumbered rewritten truncated : Fault

pub record Verification : Type 0 where
  pub records : ℕ
  pub days : ℕ
  pub head : Text
  pub seals : List Seal

-- The seals by the point that they attest to. A later one for the same point takes its place.
abbrev pub Points : Type 0
Points = List (ℕ × Seal)

unfoldable pub insert_point : ℕ → Seal → Points → Points
insert_point n seal [] = (n, seal) ∷ []
insert_point n seal ((m, s) ∷ rest) =
    let below = insert_point n seal rest in if m == n then (m, seal) ∷ rest else (m, s) ∷ below

unfoldable pub seal_at : ℕ → Points → Option Seal
seal_at n [] = none
seal_at n ((m, s) ∷ rest) = if m == n then some s else seal_at n rest

abbrev add_seal : Option SealFile → Points → Result Fault Points
add_seal none points = ok points
add_seal (some torn) points = err unreadable_seal
add_seal (some (sealed s)) points = ok (insert_point s.body.records s points)

-- `read_seals`, over the days that there are records for.
unfoldable pub read_seals :
    List (ℤ × SealFile) → List (ℤ × List Line) → Points → Result Fault Points
read_seals seals [] points = ok points
read_seals seals ((day, l) ∷ rest) points = do
  points' ← add_seal (of_day day seals) points
  read_seals seals rest points'

-- The variables of the loop.
pub record Walk : Type 0 where
  pub previous : Text
  pub next_seq : ℕ
  pub records : ℕ
  pub checked : List Seal

abbrev pub start : Walk
start = record { previous = genesis; next_seq = 1; records = 0; checked = [] }

abbrev pub advance : Walk → Record → Walk
advance k r = record {
  previous = r.digest;
  next_seq = suc k.next_seq;
  records = suc k.records;
  checked = k.checked;
}

abbrev pub agree : Walk → Option Seal → Result Fault Walk
agree k none = ok k
agree k (some s) =
    if text_eq s.body.head k.previous
    then ok (record k { checked = k.checked ++ s ∷ [] })
    else err rewritten

abbrev pub finish : Directory → Points → Walk → Result Fault Verification
finish d points k = do
  ensure (not (any (λ p. ltb k.records p.0) points)) truncated
  ok (record { records = k.records; days = length d.days; head = k.previous; seals = k.checked })

module _ (digest_of : Body → Text) where
  unfoldable pub check_record : Points → Walk → Record → Result Fault Walk
  check_record points k r = do
    ensure (text_eq (digest_of r.body) r.digest) altered
    ensure (text_eq r.body.prev k.previous) unlinked
    ensure (r.body.seq == k.next_seq) misnumbered
    agree (advance k r) (seal_at (suc k.records) points)

  abbrev pub check_line : Points → Walk → Line → Result Fault Walk
  check_line points k blank = ok k
  check_line points k garbled = err unreadable_record
  check_line points k (entry r) = check_record points k r

  unfoldable pub check_lines : Points → Walk → List Line → Result Fault Walk
  check_lines points k [] = ok k
  check_lines points k (l ∷ rest) = do k' ← check_line points k l; check_lines points k' rest

  unfoldable pub check_days : Points → Walk → List (ℤ × List Line) → Result Fault Walk
  check_days points k [] = ok k
  check_days points k ((day, l) ∷ rest) = do k' ← check_lines points k l; check_days points k' rest

  unfoldable pub verify : Directory → Result Fault Verification
  verify d = do
    points ← read_seals d.seals d.days []
    k ← check_days points start d.days
    finish d points k
