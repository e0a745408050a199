-- ===== src/Audit/Trail/Sink/Unflushed.antt =====
-- What becomes of a record whose flush fails, when the next one is written.
use pic_x.Base.{
  ℕ, ◌≡◌, refl, ◌∙◌, ap, subst, ◌≢◌, inl, inr, Text, Option, some, List, [], ◌∷◌, ◌++◌, true, arith,
  ok, err,
}
use mathlib.Core.List.{append_assoc}
use pic_x.Base.Int.{ℤ}
use pic_x.Keys.Encoding.{Bytes}
use pic_x.Audit.Civil.{day_of}
use pic_x.Audit.Event.{AuditEvent}
use pic_x.Audit.Trail.{genesis, Body, Record, eq_ℤ}
use pic_x.Audit.Trail.Chain.{Chain, Chain-split}
use pic_x.Audit.Trail.Verify.{Verification, verify}
use pic_x.Audit.Trail.Verify.Intact.{verify_iff}
use pic_x.Audit.Trail.Sink.{AuditError, Open, Sink, Disk, record_event}
use pic_x.Audit.Trail.Sink.Steady.{
  trail, IsSteady, next_record, Appends, record_event-trail, record_event-Appends,
}

module _ (hex : Bytes → Text) (digest_of : Body → Text) (sink : Sink) where
  -- Two records with one number in a row are no chain.
  no_repeat :
      (prev : Text) (seq : ℕ) (rs : List Record) (a b : Record)
      → b.body.seq ≡ a.body.seq
      → ¬ (Chain digest_of prev seq ((rs ++ a ∷ []) ++ b ∷ []))
  no_repeat prev seq rs a b e c =
      let (_, d) =
        Chain-split digest_of prev seq rs (a ∷ b ∷ [])
          (subst (Chain digest_of prev seq) (append_assoc rs (a ∷ []) (b ∷ [])) c) in
      omega (arith, d.2, d.3.2, e)

  -- Let a record fail after its line was written, on a sink that stands at the end of its chain,
  -- and let a later event of the same day be recorded. Then the directory does not verify.
  pub record_event-unflushed :
      (now now' : ℤ) (event event' : AuditEvent) (policy policy' : Option (Text → Text))
      (w w1 w2 : Disk) (o : Open) (e : AuditError) (v : Verification)
      → w.open_day ≡ some o
      → eq_ℤ o.day (day_of now) ≡ true
      → eq_ℤ o.day (day_of now') ≡ true
      → IsSteady digest_of w
      → record_event hex digest_of sink now event policy w ≡ (err e, w1)
      → trail w1 ≢ trail w
      → record_event hex digest_of sink now' event' policy' w1 ≡ (ok tt, w2)
      → verify digest_of w2.directory ≢ ok v
  record_event-unflushed now now' event event' policy policy' w w1 w2 o e v h d d' s f c g q =
      let (opened, n, t) =
        subst (Appends digest_of sink now event policy w o) f
          (record_event-Appends digest_of sink now event policy hex w o h d s) in
      let g' = record_event-trail digest_of sink now' event' policy' hex w1 o opened d' n g in
      elim t [
        | inl same ↦ c same
        | inr more ↦
            no_repeat genesis 1 (trail w) (next_record digest_of sink now event policy o)
              (next_record digest_of sink now' event' policy' o) refl
              (subst (Chain digest_of genesis 1)
                (g' ∙ ap (λ z. z ++ next_record digest_of sink now' event' policy' o ∷ []) more)
                ((verify_iff digest_of w2.directory v).0 q).chained)
      ]
