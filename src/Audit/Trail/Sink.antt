-- ===== src/Audit/Trail/Sink.antt =====
-- `FileAuditSink` (crates/pic-x-std/src/audit/file.rs). Each call of the file system takes its outcome
-- from a list that the environment has chosen; a write that fails leaves nothing of its line. The key
-- ring's answers to the requests for a signature are a list too.
pub mod Restart
pub mod Steady
pub mod Unflushed
use pic_x.Base.{
  ℕ, suc, ◌+◌, ◌/◌, Text, codes, Option, none, some, List, [], ◌∷◌, Bool, true, false, not, ◌&&◌,
  if◌then◌else◌, map, Result, ok, err, Exec, pure, raise, lift, gets, modify, ◌>>=◌, ◌>>◌,
}
use mathlib.Core.Option
use pic_x.Base.Int.{ℤ, pos, ◌-ℤ◌, ltb_ℤ}
use pic_x.Keys.{Duration}
use pic_x.Keys.Encoding.{Bytes}
use pic_x.Keys.Manager.{Signature}
use pic_x.Audit.Civil.{day_of, date_of, to_iso, to_rfc3339}
use pic_x.Audit.Event.{AuditEvent, render, subject_kind, sensitivity, sensitivity_text}
use pic_x.Audit.Trail.{
  genesis, Body, Record, SealBody, Seal, Line, blank, garbled, entry, SealFile, torn, sealed,
  Directory, eq_ℤ, add_day, append_line, without_day, put_seal, last_line, last_day,
}

pub data AuditError : Type 0 where
  backend unavailable : AuditError

pub record Open : Type 0 where
  pub day : ℤ
  pub seq : ℕ
  pub previous : Text

-- `FileAuditSink`, without the state behind its lock.
pub record Sink : Type 0 where
  pub service_name : Text
  pub service_version : Text
  pub retention : Duration
  pub has_keys : Bool

pub record Disk : Type 0 where
  pub directory : Directory
  pub open_day : Option Open
  pub signatures : List (Option Signature)
  pub outcomes : List Bool

abbrev pub Io : Type 0 → Type 0
Io A = Exec AuditError Disk A

abbrev pub answer : AuditError → List Bool → Io (Unit {0})
answer e [] w = (ok tt, w)
answer e (true ∷ rest) w = (ok tt, record w { outcomes = rest })
answer e (false ∷ rest) w = (err e, record w { outcomes = rest })

unfoldable pub io : AuditError → Io (Unit {0})
io e w = answer e w.outcomes w

-- What becomes of an error that is logged and nothing more.
abbrev pub swallow : Io (Unit {0}) → Io (Unit {0})
swallow m w = (ok tt, (m w).1)

abbrev pub set_days : (List (ℤ × List Line) → List (ℤ × List Line)) → Disk → Disk
set_days f w = record w { directory = record w.directory { days = f w.directory.days } }

abbrev pub set_seals : (List (ℤ × SealFile) → List (ℤ × SealFile)) → Disk → Disk
set_seals f w = record w { directory = record w.directory { seals = f w.directory.seals } }

-- The seal's file is removed if it can be.
abbrev drop_seal : ℤ → Io (Unit {0})
drop_seal day = swallow (do io backend; modify (set_seals (without_day day)))

unfoldable pub expire_days : ℤ → List ℤ → Io ℕ
expire_days oldest_kept [] = pure 0
expire_days oldest_kept (day ∷ rest) =
    let others = expire_days oldest_kept rest in
    if not (ltb_ℤ day oldest_kept) then others else (do
      io backend
      modify (set_days (without_day day))
      drop_seal day
      removed ← others
      pure (suc removed))

abbrev pub oldest_kept : Sink → ℤ → ℤ
oldest_kept sink today = today -ℤ pos (sink.retention.secs / 86400)

unfoldable pub expire : Sink → ℤ → Io ℕ
expire sink today = do
  io unavailable
  days ← gets (λ w. map (λ p. p.0) w.directory.days)
  expire_days (oldest_kept sink today) days

-- The directory is made and narrowed, and what is past its retention goes.
unfoldable pub prepare : Sink → ℤ → Io (Unit {0})
prepare sink now = do io backend; io backend; _ ← expire sink (day_of now); pure tt

abbrev next_signature : List (Option Signature) → Io (Option Signature)
next_signature [] w = (ok none, w)
next_signature (s ∷ rest) w = (ok s, record w { signatures = rest })

-- A ring that cannot sign leaves the seal unsigned.
unfoldable pub signed : Sink → Io (Option Signature)
signed sink = if sink.has_keys then (λ w. next_signature w.signatures w) else pure none

abbrev pub seal_body : ℤ → ℤ → ℕ → Text → SealBody
seal_body now day records head = record {
  day = to_iso (date_of day);
  at = to_rfc3339 now;
  records = records;
  head = head;
}

abbrev pub position_of : Option Line → Result AuditError (Option (ℕ × Text))
position_of none = ok none
position_of (some blank) = ok none
position_of (some garbled) = err backend
position_of (some (entry r)) = ok (some (r.body.seq, r.digest))

abbrev pub read_newest : Option (ℤ × List Line) → Io (Option (ℕ × Text))
read_newest none = pure none
read_newest (some p) = do io unavailable; lift (position_of (last_line p.1))

-- Where the chain left off, on the newest day that there is a file for.
unfoldable pub tail : Io (Option (ℕ × Text))
tail = do io unavailable; newest ← gets (λ w. last_day w.directory.days); read_newest newest

abbrev pub is_open_for : ℤ → Option Open → Bool
is_open_for day none = false
is_open_for day (some o) = eq_ℤ o.day day

abbrev tail_of : Option Open → Io (Option (ℕ × Text))
tail_of none = tail
tail_of (some o) = pure (some (o.seq, o.previous))

abbrev pub opened : ℤ → Option (ℕ × Text) → Open
opened day none = record { day = day; seq = 0; previous = genesis }
opened day (some p) = record { day = day; seq = p.0; previous = p.1 }

abbrev pub roll : ℤ → Option Open → Io (Unit {0})
roll day o = do
  t ← tail_of o
  io backend
  io backend
  modify (set_days (add_day day))
  io backend
  modify (λ w. record w { open_day = some (opened day t) })

unfoldable pub open_for : ℤ → Io (Unit {0})
open_for day = do o ← gets (λ w. w.open_day); if is_open_for day o then pure tt else roll day o

abbrev current : Option Open → Result AuditError Open
current none = err backend
current (some o) = ok o

abbrev pub body_of : Sink → ℤ → AuditEvent → Option (Text → Text) → Open → Body
body_of sink now event policy o = record {
  seq = suc o.seq;
  at = to_rfc3339 now;
  prev = o.previous;
  action = event.action;
  subject = render event.subject policy;
  subject_kind = subject_kind event.subject;
  subject_sensitivity = sensitivity_text (sensitivity event.subject);
  target = event.target;
  continuity_id = event.continuity_id;
  continuity_position = event.continuity_position;
  service = sink.service_name;
  version = sink.service_version;
}

module _ (digest_of : Body → Text) where
  -- The line is written and flushed before the sink counts it.
  unfoldable pub append : Sink → ℤ → AuditEvent → Option (Text → Text) → Io (Unit {0})
  append sink now event policy = do
    o ← gets (λ w. w.open_day)
    open_file ← lift (current o)
    let body = body_of sink now event policy open_file
    let digest = digest_of body
    io backend
    modify (set_days (append_line open_file.day (entry (record { body = body; digest = digest }))))
    io backend
    modify (λ w. record w {
      open_day = some (record open_file { seq = suc open_file.seq; previous = digest });
    })

module _ (hex : Bytes → Text) where
  abbrev seal_of : SealBody → Option Signature → Seal
  seal_of body s = record {
    body = body;
    kid = Option.map (λ x. x.key_id) s;
    algorithm = Option.map (λ x. x.algorithm) s;
    signature = Option.map (λ x. hex x.bytes) s;
  }

  -- A write that was begun and failed leaves a file that is no seal.
  unfoldable pub seal : Sink → ℤ → ℤ → ℕ → Text → Io (Unit {0})
  seal sink now day records head = do
    let body = seal_body now day records head
    s ← signed sink
    io backend
    modify (set_seals (put_seal day torn))
    io backend
    modify (set_seals (put_seal day (sealed (seal_of body s))))
    io backend

  -- The closing day is sealed before the next is opened; that this fails is logged only.
  abbrev close_day : Sink → ℤ → Option Open → Io (Unit {0})
  close_day sink now none = pure tt
  close_day sink now (some o) = swallow (seal sink now o.day o.seq o.previous)

  module _ (digest_of : Body → Text) where
    unfoldable pub record_event : Sink → ℤ → AuditEvent → Option (Text → Text) → Io (Unit {0})
    record_event sink now event policy = do
      o ← gets (λ w. w.open_day)
      let day = day_of now
      if is_open_for day o then pure tt else close_day sink now o
      open_for day
      _ ← if is_open_for day o then pure 0 else expire sink day
      append digest_of sink now event policy

  -- The trail is flushed and sealed; a flush that fails leaves it open.
  abbrev close : Sink → ℤ → Option Open → Io (Unit {0})
  close sink now none = pure tt
  close sink now (some o) = do io backend; swallow (seal sink now o.day o.seq o.previous)

  unfoldable pub shutdown : Sink → ℤ → Io (Unit {0})
  shutdown sink now = do
    o ← gets (λ w. w.open_day)
    close sink now o
    modify (λ w. record w { open_day = none })
