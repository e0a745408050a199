-- ===== src/Audit/Trail/Sink/Steady.antt =====
-- What an append to an open trail (`record`, crates/pic-x-std/src/audit/file.rs) makes of it.
use pic_x.Base.{
  ℕ, suc, ◌+◌, ◌≡◌, refl, sym, ◌∙◌, ap, subst, ◌⊎◌, inl, inr, Text, Option, some, map_opt, List, [],
  ◌∷◌, ◌++◌, Bool, true, false, arith, length, length-append, Result, ok, err,
}
use mathlib.Core.List.{append-nil, append_assoc}
use pic_x.Base.Int.{ℤ}
use pic_x.Keys.Manager.{Signature}
use pic_x.Audit.Event.{AuditEvent}
use pic_x.Audit.Trail.{
  Body, Record, Line, entry, eq_ℤ, Directory, append_line, records_of, all_lines,
}
use pic_x.Audit.Trail.Chain.{head, Chain, Chain-append, head-append, records_of-append}
use pic_x.Audit.Trail.Sink.{
  AuditError, backend, Open, Sink, Disk, io, set_days, body_of, append, is_open_for, open_for,
  record_event,
}
use pic_x.Keys.Encoding.{Bytes}
use pic_x.Audit.Civil.{day_of}

abbrev pub trail : Disk → List Record
trail w = records_of (all_lines w.directory.days)

-- The day is the last in the directory, and there once.
unfoldable pub IsNewest : ℤ → List (ℤ × List Line) → Type 0
IsNewest day [] = ⊥
IsNewest day ((d, l) ∷ []) = eq_ℤ d day ≡ true
IsNewest day ((d, l) ∷ x ∷ rest) = (eq_ℤ d day ≡ false) × IsNewest day (x ∷ rest)

-- The records that are kept are a chain, and the sink stands at its end.
pub record IsSteady (digest_of : Body → Text) (w : Disk) : Type 0 where
  pub at : Open
  pub opened : w.open_day ≡ some at
  pub newest : IsNewest at.day w.directory.days
  pub before : Text
  pub passed : ℕ
  pub chained : Chain digest_of before (suc passed) (trail w)
  pub numbered : at.seq ≡ passed + length (trail w)
  pub linked : at.previous ≡ head before (trail w)

all_lines-append_line :
    (day : ℤ) (line : Line) (days : List (ℤ × List Line))
    → IsNewest day days
    → all_lines (append_line day line days) ≡ all_lines days ++ line ∷ []
unfolding IsNewest append_line all_lines
all_lines-append_line day line [] h = absurd h
all_lines-append_line day line ((d, l) ∷ []) h =
    rw (h, append-nil (l ++ line ∷ []), append-nil l) refl
all_lines-append_line day line ((d, l) ∷ x ∷ rest) h = rw h.0 (
    ap (λ z. l ++ z) (all_lines-append_line day line (x ∷ rest) h.1)
    ∙ sym (append_assoc l (all_lines (x ∷ rest)) (line ∷ [])))

IsNewest-cons :
    (day d : ℤ) (l : List Line) (m : List (ℤ × List Line))
    → eq_ℤ d day ≡ false
    → IsNewest day m
    → IsNewest day ((d, l) ∷ m)
unfolding IsNewest
IsNewest-cons day d l [] e n = absurd n
IsNewest-cons day d l (y ∷ ys) e n = (e, n)

IsNewest-append_line :
    (day : ℤ) (line : Line) (days : List (ℤ × List Line))
    → IsNewest day days
    → IsNewest day (append_line day line days)
unfolding IsNewest append_line
IsNewest-append_line day line [] h = h
IsNewest-append_line day line ((d, l) ∷ []) h = rw h h
IsNewest-append_line day line ((d, l) ∷ x ∷ rest) h = rw h.0 (
    IsNewest-cons day d l (append_line day line (x ∷ rest)) h.0
      (IsNewest-append_line day line (x ∷ rest) h.1))

is_open :
    {digest_of : Body → Text} {w : Disk} (o : Open)
    → w.open_day ≡ some o
    → (s : IsSteady digest_of w) → s.at ≡ o
is_open o h s = let e = sym s.opened ∙ h in cc

IsSteady-IsNewest :
    {digest_of : Body → Text} {w : Disk} (o : Open)
    → w.open_day ≡ some o
    → IsSteady digest_of w
    → IsNewest o.day w.directory.days
IsSteady-IsNewest {w = w} o h s =
    subst (λ x. IsNewest x.day w.directory.days) (is_open o h s) s.newest

open_for-same :
    (day : ℤ) (w : Disk) → is_open_for day w.open_day ≡ true → open_for day w ≡ (ok tt, w)
unfolding open_for
open_for-same day w h = rw h refl

module _ (digest_of : Body → Text) (sink : Sink) (now : ℤ) (event : AuditEvent)
    (policy : Option (Text → Text)) where
  -- The record of the event, behind the position that the sink has.
  abbrev pub next_record : Open → Record
  next_record o =
      let body = body_of sink now event policy o in record { body = body; digest = digest_of body }

  abbrev added : Disk → Open → Disk
  added w o = set_days (append_line o.day (entry (next_record o))) w

  abbrev counted : Disk → Open → Disk
  counted w o = record (added w o) {
    open_day = some (record o { seq = suc o.seq; previous = (next_record o).digest });
  }

  abbrev Cases : Disk → Open → Type 0
  Cases w o =
      (os : List Bool) × ((append digest_of sink now event policy w
          ≡ (err backend, record w { outcomes = os }))
        ⊎ (append digest_of sink now event policy w
            ≡ (err backend, record (added w o) { outcomes = os }))
        ⊎ (append digest_of sink now event policy w
            ≡ (ok tt, record (counted w o) { outcomes = os })))

  append-Cases : (w : Disk) (o : Open) → w.open_day ≡ some o → Cases w o
  unfolding append io
  append-Cases w o h =
      subst (λ x. Cases x o) (λ i. record w { open_day = sym h i })
        (at w.directory w.signatures w.outcomes)
    where
      at :
          (d : Directory) (sg : List (Option Signature)) (l : List Bool)
          → Cases (record { directory = d; open_day = some o; signatures = sg; outcomes = l }) o
      at d sg [] = ([], inr (inr refl))
      at d sg (true ∷ []) = ([], inr (inr refl))
      at d sg (true ∷ true ∷ rest) = (rest, inr (inr refl))
      at d sg (true ∷ false ∷ rest) = (rest, inr (inl refl))
      at d sg (false ∷ rest) = (rest, inl refl)

  -- What is done, in the trail and in the sink.
  abbrev pub Appends : Disk → Open → Result AuditError (Unit {0}) × Disk → Type 0
  Appends w o (ok u, w') =
      (trail w' ≡ trail w ++ next_record o ∷ [])
      × (w'.open_day ≡ some (record o { seq = suc o.seq; previous = (next_record o).digest }))
      × IsSteady digest_of w'
  Appends w o (err e, w') =
      (w'.open_day ≡ some o)
      × IsNewest o.day w'.directory.days
      × ((trail w' ≡ trail w) ⊎ (trail w' ≡ trail w ++ next_record o ∷ []))

  trail-append_line :
      (w : Disk) (o : Open)
      → IsNewest o.day w.directory.days
      → trail (added w o) ≡ trail w ++ next_record o ∷ []
  unfolding records_of map_opt
  trail-append_line w o n =
      ap records_of (all_lines-append_line o.day (entry (next_record o)) w.directory.days n)
      ∙ records_of-append (all_lines w.directory.days) (entry (next_record o) ∷ [])

  counted-IsSteady :
      (w : Disk) (o : Open) (os : List Bool)
      → w.open_day ≡ some o
      → IsSteady digest_of w
      → IsSteady digest_of (record (counted w o) { outcomes = os })
  unfolding head
  counted-IsSteady w o os h s =
      let same = is_open o h s in
      let n = IsSteady-IsNewest o h s in
      let more = trail-append_line w o n in
      let seq = ap (λ x. x.seq) (sym same) ∙ s.numbered in
      let here : Chain digest_of (head s.before (trail w)) (suc s.passed + length (trail w))
          (next_record o ∷ []) =
        (refl, ap (λ x. x.previous) (sym same) ∙ s.linked, omega (arith, seq), tt) in
      record {
        at = record o { seq = suc o.seq; previous = (next_record o).digest };
        opened = refl;
        newest = IsNewest-append_line o.day (entry (next_record o)) w.directory.days n;
        before = s.before;
        passed = s.passed;
        chained = rw more (
            Chain-append digest_of s.before (suc s.passed) (trail w) (next_record o ∷ []) s.chained
              here);
        numbered = omega (arith, seq, ap length more, length-append (trail w) (next_record o ∷ []));
        linked = rw (more, head-append s.before (trail w) (next_record o ∷ [])) refl;
      }

  append-Appends :
      (w : Disk) (o : Open)
      → w.open_day ≡ some o
      → IsSteady digest_of w
      → Appends w o (append digest_of sink now event policy w)
  append-Appends w o h s =
      let (os, cases) = append-Cases w o h in
      elim cases [
        | inl e ↦ rw e (h, IsSteady-IsNewest o h s, inl refl)
        | inr (inl e) ↦ rw e (
          h,
          IsNewest-append_line o.day (entry (next_record o)) w.directory.days
              (IsSteady-IsNewest o h s),
          inr (trail-append_line w o (IsSteady-IsNewest o h s)),
        )
        | inr (inr e) ↦
            rw e
              (trail-append_line w o (IsSteady-IsNewest o h s), refl, counted-IsSteady w o os h s)
      ]

  -- The day that is open is gone on with.
  record_event-append :
      (hex : Bytes → Text) (w : Disk)
      → is_open_for (day_of now) w.open_day ≡ true
      → record_event hex digest_of sink now event policy w
        ≡ append digest_of sink now event policy w
  unfolding record_event
  record_event-append hex w h = rw (h, open_for-same (day_of now) w h) refl

  -- Whatever the trail, it has the record if the sink says so.
  pub record_event-trail :
      (hex : Bytes → Text) (w : Disk) (o : Open) {w' : Disk}
      → w.open_day ≡ some o
      → eq_ℤ o.day (day_of now) ≡ true
      → IsNewest o.day w.directory.days
      → record_event hex digest_of sink now event policy w ≡ (ok tt, w')
      → trail w' ≡ trail w ++ next_record o ∷ []
  record_event-trail hex w o {w'} h d n e =
      let (os, cases) = append-Cases w o h in
      let f = sym (record_event-append hex w (rw h d)) ∙ e in
      elim cases [
        | inl a ↦ cc
        | inr (inl a) ↦ cc
        | inr (inr a) ↦ ap (λ x. trail x.1) (sym f ∙ a) ∙ trail-append_line w o n
      ]

  -- Let the kept records be a chain, the sink stand at its end, and the day that it has open be the
  -- newest in the directory, there once, and the day of the clock. A record that is reported as
  -- written is the trail with the event's record behind it, and the sink stands at the new end of a
  -- chain again. A failure leaves the position, and the trail either as it was or with that one
  -- record more.
  pub record_event-Appends :
      (hex : Bytes → Text) (w : Disk) (o : Open)
      → w.open_day ≡ some o
      → eq_ℤ o.day (day_of now) ≡ true
      → IsSteady digest_of w
      → Appends w o (record_event hex digest_of sink now event policy w)
  record_event-Appends hex w o h d s =
      rw (record_event-append hex w (rw h d)) (append-Appends w o h s)
