-- ===== src/Audit/Trail/Sink/Restart.antt =====
-- What a sink goes on from when it is opened, where the newest day's file has no record.
use pic_x.Base.{
  ℕ, ◌+◌, ◌≡◌, refl, sym, ◌∙◌, ap, subst, ◌≢◌, inl, inr, Text, Option, none, some, List, [], ◌∷◌,
  ◌++◌, Bool, true, false, if◌then◌else◌, arith, length, Result, ok, err, lift, pure, ==_iff,
  continue, ◌>>=◌, Bool-cases,
}
use pic_x.Base.Int.{ℤ, ltb_ℤ}
use pic_x.Keys.Encoding.{Bytes}
use pic_x.Audit.Civil.{day_of}
use pic_x.Audit.Event.{AuditEvent}
use pic_x.Audit.Trail.{
  genesis, Body, Record, Line, eq_ℤ, add_day, records_of, all_lines, last_line, last_day,
}
use pic_x.Audit.Trail.Chain.{Chain, Chain-split}
use pic_x.Audit.Trail.Verify.{Verification, verify}
use pic_x.Audit.Trail.Verify.Intact.{verify_iff}
use pic_x.Audit.Trail.Sink.{
  AuditError, backend, unavailable, Open, Sink, Disk, Io, io, tail, opened, roll, set_days,
  position_of, read_newest, is_open_for, open_for, record_event,
}
use pic_x.Audit.Trail.Sink.Steady.{trail, IsNewest, next_record, record_event-trail}

all_lines-add_day :
    (day : ℤ) (days : List (ℤ × List Line)) → all_lines (add_day day days) ≡ all_lines days
unfolding all_lines add_day
all_lines-add_day day [] = refl
all_lines-add_day day ((d, l) ∷ rest) = elim (Bool-cases (eq_ℤ d day)) [
  | inl e ↦ rw e refl
  | inr e ↦ elim (Bool-cases (ltb_ℤ day d)) [
    | inl f ↦ rw e (rw f refl)
    | inr f ↦ rw e (rw f (ap (λ z. l ++ z) (all_lines-add_day day rest)))
  ]
]

-- A call that ended well went on from the outcome of its first step.
went_on :
    {A B : Type 0} (m : Io A) (f : A → Io B) (w : Disk) {b : B} {w' : Disk}
    → (m >>= f) w ≡ (ok b, w')
    → (a : A) × (w1 : Disk) × (m w ≡ (ok a, w1)) × (f a w1 ≡ (ok b, w'))
went_on {A} {B} m f w {b} {w'} h = at (m w) refl h
  where
    at :
        (r : Result AuditError A × Disk)
        → m w ≡ r
        → continue r.0 f r.1 ≡ (ok b, w')
        → (a : A) × (w1 : Disk) × (m w ≡ (ok a, w1)) × (f a w1 ≡ (ok b, w'))
    at (ok a, w1) e h = (a, w1, e, h)
    at (err x, w1) e h = cc

-- The files and the position are as they were.
abbrev Keeps : Disk → Disk → Type 0
Keeps w w' = (w'.directory ≡ w.directory) × (w'.open_day ≡ w.open_day)

io-Keeps :
    (e : AuditError) (w : Disk) {r : Result AuditError (Unit {0})} {w' : Disk}
    → io e w ≡ (r, w')
    → Keeps w w'
unfolding io
io-Keeps e w h = subst (λ z. Keeps w z.1) h (at w.outcomes refl)
  where
    at : (l : List Bool) → w.outcomes ≡ l → Keeps w (io e w).1
    at [] q = rw q (refl, refl)
    at (true ∷ rest) q = rw q (refl, refl)
    at (false ∷ rest) q = rw q (refl, refl)

-- No record in the newest day's file is no place to go on from.
tail-none :
    (w : Disk) (d : ℤ) (l : List Line) {t : Option (ℕ × Text)} {w' : Disk}
    → last_day w.directory.days ≡ some (d, l)
    → last_line l ≡ none
    → tail w ≡ (ok t, w')
    → (t ≡ none) × Keeps w w'
unfolding tail
tail-none w d l {t} {w'} n e h =
    let (_, w1, a, h1) = went_on (io unavailable) _ w h in
    let k = io-Keeps unavailable w a in
    let n' = ap (λ z. last_day z.days) k.0 ∙ n in
    let (_, w2, b, h2) =
      went_on (io unavailable) (λ _. lift (position_of (last_line l))) w1
        (subst (λ o. read_newest o w1 ≡ (ok t, w')) n' h1) in
    let k2 = io-Keeps unavailable w1 b in
    let h3 : ◌≡◌ {A = Result AuditError (Option (ℕ × Text)) × Disk} (ok none, w2) (ok t, w') =
      rw e at h2 in
    (sym (taken (ap (λ z. z.0) h3)), subst (Keeps w) (ap (λ z. z.1) h3) (k2.0 ∙ k.0, k2.1 ∙ k.1))
  where
    taken :
        {a b : Option (ℕ × Text)}
        → ◌≡◌ {A = Result AuditError (Option (ℕ × Text))} (ok a) (ok b)
        → a ≡ b
    taken q = cc

open_for-roll :
    (day : ℤ) (w : Disk) {w' : Disk}
    → w.open_day ≡ none
    → open_for day w ≡ (ok tt, w')
    → roll day none w ≡ (ok tt, w')
unfolding open_for
open_for-roll day w {w'} o h = at w.open_day o h
  where
    at :
        (q : Option Open)
        → q ≡ none
        → ((if is_open_for day q then pure tt else roll day q) w) ≡ (ok tt, w')
        → roll day none w ≡ (ok tt, w')
    at none e h = h
    at (some p) e h = cc

-- What is opened then stands at the start of a trail, whatever the earlier days hold.
open_for-start :
    (day : ℤ) (w : Disk) (d : ℤ) (l : List Line) {w' : Disk}
    → w.open_day ≡ none
    → last_day w.directory.days ≡ some (d, l)
    → last_line l ≡ none
    → open_for day w ≡ (ok tt, w')
    → (w'.open_day ≡ some (opened day none)) × (w'.directory.days ≡ add_day day w.directory.days)
open_for-start day w d l {w'} o n e h =
    let (t, w1, a, h1) = went_on tail _ w (open_for-roll day w o h) in
    let (none_left, k1) = tail-none w d l n e a in
    let (_, w2, b, h2) = went_on (io backend) _ w1 h1 in
    let (_, w3, c, h3) = went_on (io backend) _ w2 h2 in
    let (_, w4, f, h4) = went_on (io backend) _ (set_days (add_day day) w3) h3 in
    let k3 = ap (λ z. z.days) ((io-Keeps backend w2 c).0 ∙ (io-Keeps backend w1 b).0 ∙ k1.0) in
    let k4 = ap (λ z. z.days) (io-Keeps backend (set_days (add_day day) w3) f).0 in
    let last : record w4 { open_day = some (opened day t) } ≡ w' = ap (λ z. z.1) h4 in
    (
      sym (ap (λ z. z.open_day) last) ∙ ap (λ z. some (opened day z)) none_left,
      sym (ap (λ z. z.directory.days) last) ∙ k4 ∙ ap (add_day day) k3,
    )

-- Let a sink be opened on a directory that has records but none in the newest day's file, for a day
-- that is the newest then, and let an event of that day be recorded. Then the directory does not
-- verify.
pub record_event-restarted :
    (hex : Bytes → Text) (digest_of : Body → Text) (sink : Sink) (now : ℤ) (event : AuditEvent)
    (policy : Option (Text → Text)) (w w1 w2 : Disk) (d : ℤ) (l : List Line) (v : Verification)
    → w.open_day ≡ none
    → last_day w.directory.days ≡ some (d, l)
    → last_line l ≡ none
    → trail w ≢ []
    → open_for (day_of now) w ≡ (ok tt, w1)
    → IsNewest (day_of now) w1.directory.days
    → record_event hex digest_of sink now event policy w1 ≡ (ok tt, w2)
    → verify digest_of w2.directory ≢ ok v
record_event-restarted hex digest_of sink now event policy w w1 w2 d l v o n e some_records h newest
      g q =
    let (start, days) = open_for-start (day_of now) w d l o n e h in
    let at = opened (day_of now) none in
    let same : trail w1 ≡ trail w =
      ap (λ z. records_of (all_lines z)) days
      ∙ ap records_of (all_lines-add_day (day_of now) w.directory.days) in
    let more =
      record_event-trail digest_of sink now event policy hex w1 at start ((==_iff _ _).1 refl)
        newest g in
    let r = next_record digest_of sink now event policy at in
    let c =
      subst (Chain digest_of genesis 1) (more ∙ ap (λ z. z ++ r ∷ []) same)
        ((verify_iff digest_of w2.directory v).0 q).chained in
    let (_, last) = Chain-split digest_of genesis 1 (trail w) (r ∷ []) c in
    first (trail w) some_records last.2
  where
    first : (rs : List Record) → rs ≢ [] → 1 ≡ 1 + length rs → ⊥
    first [] s e = s refl
    first (x ∷ rs) s e = omega (arith, e)
