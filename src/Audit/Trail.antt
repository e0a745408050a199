-- ===== src/Audit/Trail.antt =====
-- crates/pic-x-std/src/audit/file.rs: records as a chain of digests, a file of records for each day, and
-- seals over a prefix of the chain. A directory is kept as the content of its files, by day, the oldest
-- first: a line is what parsing makes of it. What `sha2` and `serde_json` make of a body is a parameter.
pub mod Chain
pub mod Sink
pub mod Verify
mod Tests
use pic_x.Base.{
  ℕ, suc, ◌+◌, Text, codes, Option, none, some, List, [], ◌∷◌, ◌++◌, Bool, true, false,
  if◌then◌else◌, ◌==◌, map, map_opt, zeros, strip_prefix, strip_suffix,
}
use mathlib.Core.Option
use pic_x.Base.Int.{ℤ, pos_part, neg_part, ltb_ℤ}
use pic_x.Audit.Civil.{Date, date_of, days_of, to_iso, from_iso}

abbrev pub genesis : Text
genesis = zeros 64

pub record Body : Type 0 where
  pub seq : ℕ
  pub at : Text
  pub prev : Text
  pub action : Text
  pub subject : Text
  pub subject_kind : Text
  pub subject_sensitivity : Text
  pub target : Option Text
  pub continuity_id : Option Text
  pub continuity_position : Option ℕ
  pub service : Text
  pub version : Text

pub record Record : Type 0 where
  pub body : Body
  pub digest : Text

pub record SealBody : Type 0 where
  pub day : Text
  pub at : Text
  pub records : ℕ
  pub head : Text

pub record Seal : Type 0 where
  pub body : SealBody
  pub kid : Option Text
  pub algorithm : Option Text
  pub signature : Option Text

-- A line of a day's file: white space, what is no record, or a record.
pub data Line : Type 0 where
  blank garbled : Line
  entry : Record → Line

-- A seal's file: one that does not parse, or a seal.
pub data SealFile : Type 0 where
  torn : SealFile
  sealed : Seal → SealFile

pub record Directory : Type 0 where
  pub days : List (ℤ × List Line)
  pub seals : List (ℤ × SealFile)

abbrev pub eq_ℤ : ℤ → ℤ → Bool
eq_ℤ a b = pos_part a + neg_part b == pos_part b + neg_part a

-- What is kept for a day.
unfoldable pub of_day : {A : Type 0} → ℤ → List (ℤ × A) → Option A
of_day day [] = none
of_day day ((d, a) ∷ rest) = if eq_ℤ d day then some a else of_day day rest

-- A day gets its place among the others, unless it is there.
unfoldable pub add_day : ℤ → List (ℤ × List Line) → List (ℤ × List Line)
add_day day [] = (day, []) ∷ []
add_day day ((d, l) ∷ rest) =
    let below = add_day day rest in
    if eq_ℤ d day
    then (d, l) ∷ rest
    else if ltb_ℤ day d
    then (day, []) ∷ (d, l) ∷ rest
    else (d, l) ∷ below

unfoldable pub append_line : ℤ → Line → List (ℤ × List Line) → List (ℤ × List Line)
append_line day line [] = []
append_line day line ((d, l) ∷ rest) =
    let below = append_line day line rest in
    if eq_ℤ d day then (d, l ++ line ∷ []) ∷ rest else (d, l) ∷ below

unfoldable pub without_day : {A : Type 0} → ℤ → List (ℤ × A) → List (ℤ × A)
without_day day [] = []
without_day day ((d, a) ∷ rest) =
    let below = without_day day rest in if eq_ℤ d day then below else (d, a) ∷ below

abbrev pub put_seal : ℤ → SealFile → List (ℤ × SealFile) → List (ℤ × SealFile)
put_seal day s seals = (day, s) ∷ without_day day seals

-- The records of a day, and of the whole directory, oldest first.
abbrev record_of : Line → Option Record
record_of blank = none
record_of garbled = none
record_of (entry r) = some r

unfoldable pub records_of : List Line → List Record
records_of l = map_opt record_of l

unfoldable pub all_lines : List (ℤ × List Line) → List Line
all_lines [] = []
all_lines ((d, l) ∷ rest) = l ++ all_lines rest

-- The last line of a day that is not blank.
unfoldable pub last_line : List Line → Option Line
last_line [] = none
last_line (l ∷ rest) = elim (last_line rest) [
  | some m ↦ some m
  | none ↦ elim l [ blank ↦ none | garbled ↦ some garbled | entry r ↦ some (entry r) ]
]

unfoldable pub last_day : {A : Type 0} → List (ℤ × A) → Option (ℤ × A)
last_day [] = none
last_day (p ∷ rest) = elim (last_day rest) [ none ↦ some p | some q ↦ some q ]

-- The names of the files of a day, and the day that a name stands for.
unfoldable pub path_for : ℤ → Text
path_for day = codes "audit-" ++ (to_iso (date_of day) ++ codes ".jsonl")

unfoldable pub seal_path : ℤ → Text
seal_path day = codes "audit-" ++ (to_iso (date_of day) ++ codes ".seal")

abbrev dated : Option Text → Option ℤ
dated none = none
dated (some date) = Option.map days_of (from_iso date)

abbrev without_suffix : Option Text → Option Text
without_suffix none = none
without_suffix (some rest) = strip_suffix (codes ".jsonl") rest

unfoldable pub day_of_file : Text → Option ℤ
day_of_file name = dated (without_suffix (strip_prefix (codes "audit-") name))
