-- ===== src/Audit/Trail/Tests.antt =====
-- The audit trail (crates/pic-x-std/src/audit/file.rs) at concrete records.
use pic_x.Base.{
  ℕ, suc, ◌≡◌, refl, sym, ◌∙◌, ap, ◌≢◌, ◌⊎◌, inl, inr, Text, codes, none, some, Bool, List, [], ◌∷◌,
  ◌++◌, true, false, any, map_opt, text_eq, ok,
}
use pic_x.Base.Int.{ℤ, pos}
use pic_x.Keys.Encoding.{Bytes}
use pic_x.Audit.Civil.{day_of}
use pic_x.Audit.Event.{AuditEvent, system, new}
use pic_x.Audit.Trail.{
  genesis, Body, Record, Line, blank, entry, Directory, eq_ℤ, of_day, append_line, records_of,
  all_lines,
}
use pic_x.Audit.Trail.Chain.{head}
use pic_x.Audit.Trail.Verify.{
  Verification, seal_at, read_seals, check_record, check_lines, check_days, verify,
}
use pic_x.Audit.Trail.Verify.Tamper.{IsApart, verify-head, verify-expired}
use pic_x.Audit.Trail.Sink.{backend, Open, Sink, Disk, io, append, open_for, record_event}
use pic_x.Audit.Trail.Sink.Steady.{IsSteady, IsNewest, Appends, record_event-Appends}
use pic_x.Audit.Trail.Sink.{tail}
use pic_x.Audit.Trail.{add_day, last_day, last_line}
use pic_x.Audit.Trail.Sink.Restart.{record_event-restarted}
use pic_x.Audit.Trail.Sink.Unflushed.{record_event-unflushed}

-- A digest that tells apart bodies with different numbers.
abbrev numbered : Body → Text
numbered b = suc b.seq ∷ b.action

abbrev a_record : ℕ → Text → Text → Record
a_record seq prev action =
    let body : Body = record {
      seq = seq;
      at = codes "now";
      prev = prev;
      action = action;
      subject = codes "pic-x";
      subject_kind = codes "service";
      subject_sensitivity = codes "internal";
      target = none;
      continuity_id = none;
      continuity_position = none;
      service = codes "pic-x";
      version = codes "1";
    } in
    record { body = body; digest = numbered body }

abbrev first : Record
first = a_record 1 genesis (codes "start")

abbrev second : Record
second = a_record 2 first.digest (codes "stop")

abbrev older : List (ℤ × List Line)
older = (pos 20000, entry first ∷ []) ∷ []

abbrev newer : List (ℤ × List Line)
newer = (pos 20001, blank ∷ entry second ∷ []) ∷ []

abbrev over_two_days : Directory
over_two_days = record { days = older ++ newer; seals = [] }

abbrev on_one_day : Directory
on_one_day = record { days = (pos 20000, entry first ∷ entry second ∷ []) ∷ []; seals = [] }

abbrev in_two_days : Verification
in_two_days = record { records = 2; days = 2; head = second.digest; seals = [] }

abbrev in_one_day : Verification
in_one_day = record { records = 2; days = 1; head = second.digest; seals = [] }

verify-over_two_days : verify numbered over_two_days ≡ ok in_two_days
unfolding verify read_seals of_day check_days check_lines check_record seal_at text_eq any
verify-over_two_days = refl

verify-on_one_day : verify numbered on_one_day ≡ ok in_one_day
unfolding verify read_seals of_day check_days check_lines check_record seal_at text_eq any
verify-on_one_day = refl

abbrev Known : Body → Type 0
Known b = (b ≡ first.body) ⊎ (b ≡ second.body)

apart : (a b : Body) → Known a → Known b → numbered a ≡ numbered b → a ≡ b
apart a b (inl k) (inl l) e = k ∙ sym l
apart a b (inl k) (inr l) e = let q = sym (ap numbered k) ∙ e ∙ ap numbered l in cc
apart a b (inr k) (inl l) e = let q = sym (ap numbered k) ∙ e ∙ ap numbered l in cc
apart a b (inr k) (inr l) e = k ∙ sym l

off : (a : Body) → Known a → numbered a ≢ genesis
off a (inl k) e = let q = sym (ap numbered k) ∙ e in cc
off a (inr k) e = let q = sym (ap numbered k) ∙ e in cc

Known-IsApart : IsApart numbered Known
Known-IsApart = record { injective = apart; off_genesis = off }

verify-head_example :
    records_of (all_lines over_two_days.days) ≡ records_of (all_lines on_one_day.days)
unfolding records_of all_lines map_opt
verify-head_example =
    verify-head numbered Known Known-IsApart over_two_days on_one_day in_two_days in_one_day
      (inl refl, (inr refl, tt)) (inl refl, (inr refl, tt)) verify-over_two_days verify-on_one_day
      refl

verify-expired_example : verify numbered (record { days = newer; seals = [] }) ≢ ok in_one_day
unfolding records_of all_lines map_opt
verify-expired_example =
    verify-expired numbered older newer [] [] in_two_days in_one_day (λ e. cc) (λ e. cc)
      verify-over_two_days

abbrev at_second : Open
at_second = record { day = pos 20001; seq = 2; previous = second.digest }

abbrev a_sink : Sink
a_sink = record {
  service_name = codes "pic-x";
  service_version = codes "1";
  retention = record { secs = 2592000; nanos = 0 };
  has_keys = false;
}

abbrev disk : List Bool → Disk
disk outcomes = record {
  directory = over_two_days;
  open_day = some at_second;
  signatures = [];
  outcomes = outcomes;
}

abbrev noon : ℤ
noon = pos 1728129600

abbrev minted : AuditEvent
minted = new (codes "key.minted") (system (codes "pic-x"))

abbrev no_hex : Bytes → Text
no_hex b = []

disk-IsSteady : (l : List Bool) → IsSteady numbered (disk l)
unfolding records_of all_lines map_opt head IsNewest
disk-IsSteady l = record {
  at = at_second;
  opened = refl;
  newest = (refl, refl);
  before = genesis;
  passed = 0;
  chained = (refl, refl, refl, (refl, refl, refl, tt));
  numbered = refl;
  linked = refl;
}

at_noon : eq_ℤ at_second.day (day_of noon) ≡ true
unfolding day_of
at_noon = refl

record_event-Appends_example :
    Appends numbered a_sink noon minted none
      (disk [])
      at_second
      (record_event no_hex numbered a_sink noon minted none (disk []))
record_event-Appends_example =
    record_event-Appends numbered a_sink noon minted none no_hex (disk []) at_second refl at_noon
      (disk-IsSteady [])

abbrev two_flushes : List Bool
two_flushes = true ∷ false ∷ []

abbrev unflushed : Disk
unflushed = (record_event no_hex numbered a_sink noon minted none (disk two_flushes)).1

abbrev gone_on : Disk
gone_on = (record_event no_hex numbered a_sink noon minted none unflushed).1

record_event-unflushed_example : verify numbered gone_on.directory ≢ ok in_two_days
unfolding record_event open_for append io append_line day_of records_of all_lines map_opt
record_event-unflushed_example =
    record_event-unflushed no_hex numbered a_sink noon noon minted minted none none
      (disk two_flushes) unflushed gone_on at_second backend in_two_days refl at_noon at_noon
      (disk-IsSteady two_flushes) refl (λ e. cc) refl

-- The newest day's file was made, and the process ended before its first record.
abbrev interrupted : Disk
interrupted = record {
  directory = record { days = older ++ (pos 20001, []) ∷ []; seals = [] };
  open_day = none;
  signatures = [];
  outcomes = [];
}

abbrev restarted : Disk
restarted = (open_for (day_of noon) interrupted).1

restarted-IsNewest : IsNewest (day_of noon) restarted.directory.days
unfolding IsNewest open_for tail io last_day last_line add_day day_of
restarted-IsNewest = (refl, refl)

abbrev after_restart : Disk
after_restart = (record_event no_hex numbered a_sink noon minted none restarted).1

record_event-restarted_example : verify numbered after_restart.directory ≢ ok in_two_days
unfolding record_event open_for tail append io append_line add_day day_of last_day last_line
    records_of all_lines map_opt
record_event-restarted_example =
    record_event-restarted no_hex numbered a_sink noon minted none interrupted restarted
      after_restart (pos 20001) [] in_two_days refl refl refl (λ e. cc) refl restarted-IsNewest refl
