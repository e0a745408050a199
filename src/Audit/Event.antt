-- ===== src/Audit/Event.antt =====
-- crates/pic-x-core/src/audit.rs and the masks of crates/pic-x-core/src/redact.rs: what is recorded, and
-- whom it is about. A pseudonymiser is a function on texts.
pub mod Masks
use pic_x.Base.{
  ℕ, ◌-◌, Text, codes, Option, none, some, Bool, false, true, ◌++◌, if◌then◌else◌, ltb, ◌==◌, min,
  drop, length,
}

-- `Masked`, by the value and the length of the tail that is shown.
pub record Masked : Type 0 where
  pub value : Text
  pub tail : ℕ

abbrev pub mask : Text
mask = codes "********"

abbrev pub max_tail : ℕ
max_tail = 4

abbrev pub full : Text → Masked
full value = record { value = value; tail = 0 }

unfoldable pub tail : Text → ℕ → Masked
tail value keep =
    let kept = min keep max_tail in
    record { value = value; tail = if ltb kept (length value) then kept else 0 }

unfoldable pub render_mask : Masked → Text
render_mask m = if m.tail == 0 then mask else mask ++ drop (length m.value - m.tail) m.value

pub data Sensitivity : Type 0 where
  public pseudonymous personal : Sensitivity

abbrev pub sensitivity_text : Sensitivity → Text
sensitivity_text public = codes "public"
sensitivity_text pseudonymous = codes "pseudonymous"
sensitivity_text personal = codes "personal"

pub data Subject : Type 0 where
  system principal continuity capability : Text → Subject
  anonymous : Subject

abbrev pub subject_value : Subject → Option Text
subject_value (system v) = some v
subject_value (principal v) = some v
subject_value (continuity v) = some v
subject_value (capability v) = some v
subject_value anonymous = none

abbrev pub sensitivity : Subject → Sensitivity
sensitivity (system v) = public
sensitivity anonymous = public
sensitivity (continuity v) = pseudonymous
sensitivity (capability v) = pseudonymous
sensitivity (principal v) = personal

abbrev pub is_personal : Subject → Bool
is_personal s = elim (sensitivity s) [ personal ↦ true | public ↦ false | pseudonymous ↦ false ]

abbrev pub subject_kind : Subject → Text
subject_kind (system v) = codes "system"
subject_kind (principal v) = codes "principal"
subject_kind (continuity v) = codes "continuity"
subject_kind (capability v) = codes "capability"
subject_kind anonymous = codes "anonymous"

-- `Display`: a principal is masked.
unfoldable pub shown : Subject → Text
unfolding render_mask
shown (system v) = v
shown (continuity v) = v
shown (capability v) = v
shown (principal v) = render_mask (full v)
shown anonymous = codes "-"

unfoldable pub render : Subject → Option (Text → Text) → Text
unfolding shown
render (principal v) (some pseudonymize) = pseudonymize v
render subject policy = shown subject

pub record AuditEvent : Type 0 where
  pub action : Text
  pub subject : Subject
  pub target : Option Text
  pub continuity_id : Option Text
  pub continuity_position : Option ℕ

abbrev pub new : Text → Subject → AuditEvent
new action subject = record {
  action = action;
  subject = subject;
  target = none;
  continuity_id = none;
  continuity_position = none;
}

abbrev pub on : AuditEvent → Text → AuditEvent
on e target = record e { target = some target }

abbrev pub with_continuity_id : AuditEvent → Text → AuditEvent
with_continuity_id e id = record e { continuity_id = some id }

abbrev pub at_continuity_position : AuditEvent → ℕ → AuditEvent
at_continuity_position e position = record e { continuity_position = some position }
