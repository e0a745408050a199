-- ===== src/Realm/Exchange/Endpoint/Recorded.antt =====
-- That no token is answered without a record.
use pic_x.Base.{
  ℕ, ◌≡◌, refl, sym, ◌∙◌, ap, ◌⊎◌, inl, inr, Text, codes, Option, none, some, List, [], ◌∷◌, ◌++◌,
  Bool, true, false, text_eq, lookup, Result, ok, err, pure, lift, ◌>>=◌, ◌>>◌, continue,
  Bool-cases,
}
use pic_x.Base.Int.{ℤ, ltb_ℤ}
use pic_x.Base.Fallible.{ensure, ok_or}
use pic_x.Audit.Event.{AuditEvent}
use pic_x.Realm.Profile.{Bytes, Crates, is_absent}
use pic_x.Realm.Exchange.{
  ExchangeError, invalid_request, invalid_grant, invalid_target, server_error, Form, parse_form,
  require,
}
use pic_x.Realm.Exchange.Mapping.{Pattern, map_authority}
use pic_x.Realm.Exchange.Endpoint.{
  Realm, PicCrate, Issued, Outcome, recorded, lost, unflushed, World, Step, record_event, unix_now,
  exchange_initial, advance, exchange, refuse, rejected, advanced, clock_now, clock_for, fill,
  is_one_of, signer_new, settle_lineage, settled, preflight, preflighted, dispatch,
}
use pic_x.Realm.Exchange.Source.{decode, select_initial_profile, validate_source_jwt, claim_i64}
use pic_x.Realm.Exchange.Expiry.{initial_expiry}
use pic_x.Realm.Exchange.Preflight.{CandidateMetadata}

-- The record of an answer that is given, and of one that is refused.
abbrev pub IsAnswer : AuditEvent → Type 0
IsAnswer e =
    (e.action ≡ codes "pic.exchange.initialized") ⊎ (e.action ≡ codes "pic.exchange.advanced")

-- The sink said that the next event it was handed is recorded.
abbrev pub IsAcknowledged : World → World → Type 0
IsAcknowledged w0 w = (w0.outcomes ≡ []) ⊎ (w0.outcomes ≡ recorded ∷ w.outcomes)

-- What a request that began in `w0` has left in the log, by how it ended.
abbrev pub Records : World → Result ExchangeError Issued × World → Type 0
Records w0 (ok issued, w) =
    (e : AuditEvent) × (w.log ≡ w0.log ++ e ∷ [])
    × IsAnswer e
    × (e.continuity_position ≡ some issued.position)
    × IsAcknowledged w0 w
Records w0 (err x, w) =
    (w.log ≡ w0.log)
    ⊎ (e : AuditEvent) × (w.log ≡ w0.log ++ e ∷ [])
      × ((e.action ≡ codes "pic.exchange.rejected")
          ⊎ (IsAnswer e × (x ≡ server_error) × (w0.outcomes ≡ unflushed ∷ w.outcomes)))

-- Nothing was handed to the sink in between.
abbrev Keeps : World → World → Type 0
Keeps w0 w = (w.log ≡ w0.log) × (w.outcomes ≡ w0.outcomes)

-- A step that hands nothing to the sink, before what records.
quiet :
    {A : Type 0} (w0 : World) (m : Step A) (f : A → Step Issued)
    → ((w : World) → Keeps w (m w).1)
    → ((a : A) (w : World) → Keeps w0 w → Records w0 (f a w))
    → (w : World) → Keeps w0 w
    → Records w0 ((m >>= f) w)
quiet {A} w0 m f q k w h = gone_on (m w) ((q w).0 ∙ h.0, (q w).1 ∙ h.1)
  where
    gone_on : (r : Result ExchangeError A × World) → Keeps w0 r.1 → Records w0 (continue r.0 f r.1)
    gone_on (ok a, w') e = k a w' e
    gone_on (err x, w') e = inl e.0

lifted :
    {A : Type 0} (w0 : World) (r : Result ExchangeError A) (f : A → Step Issued)
    → ((a : A) (w : World) → Keeps w0 w → Records w0 (f a w))
    → (w : World) → Keeps w0 w
    → Records w0 ((lift r >>= f) w)
lifted w0 r f k w h = quiet w0 (lift r) f (λ w'. (refl, refl)) k w h

-- The last step, which records.
record_last :
    (w0 : World) (e : AuditEvent) (issued : Issued) (w : World)
    → Keeps w0 w
    → IsAnswer e
    → e.continuity_position ≡ some issued.position
    → Records w0 ((do record_event e; pure issued) w)
unfolding record_event
record_last w0 e issued w (h, o) a p = at w.outcomes refl
  where
    grown : w.log ++ e ∷ [] ≡ w0.log ++ e ∷ []
    grown = ap (λ z. z ++ e ∷ []) h

    at : (l : List Outcome) → w.outcomes ≡ l → Records w0 ((do record_event e; pure issued) w)
    at [] q = rw q (e, grown, a, p, inl (sym o ∙ q))
    at (recorded ∷ rest) q = rw q (e, grown, a, p, inr (sym o ∙ q))
    at (lost ∷ rest) q = rw q (inl h)
    at (unflushed ∷ rest) q = rw q (inr (e, grown, inr (a, refl, sym o ∙ q)))

refusing :
    (w0 : World) (e : AuditEvent) (x : ExchangeError) (w : World)
    → Keeps w0 w
    → e.action ≡ codes "pic.exchange.rejected"
    → Records w0 (refuse e x w)
unfolding record_event
refusing w0 e x w (h, o) a = at w.outcomes refl
  where
    grown : w.log ++ e ∷ [] ≡ w0.log ++ e ∷ []
    grown = ap (λ z. z ++ e ∷ []) h

    at : (l : List Outcome) → w.outcomes ≡ l → Records w0 (refuse e x w)
    at [] q = rw q (inr (e, grown, inl a))
    at (recorded ∷ rest) q = rw q (inr (e, grown, inl a))
    at (lost ∷ rest) q = rw q (inl h)
    at (unflushed ∷ rest) q = rw q (inr (e, grown, inl a))

unix_now-Keeps : (w : World) → Keeps w (unix_now w).1
unix_now-Keeps w = at w.clock refl
  where
    at : (l : List ℤ) → w.clock ≡ l → Keeps w (unix_now w).1
    at [] q = rw q (refl, refl)
    at (t ∷ rest) q = rw q (refl, refl)

clock_now-Keeps : (w : World) → Keeps w (clock_now w).1
clock_now-Keeps w = at w.clock refl
  where
    at : (l : List ℤ) → w.clock ≡ l → Keeps w (clock_now w).1
    at [] q = rw q (refl, refl)
    at (t ∷ rest) q = rw q (refl, refl)

clock_for-Keeps : (required : Bool) (w : World) → Keeps w (clock_for required w).1
clock_for-Keeps true w = clock_now-Keeps w
clock_for-Keeps false w = (refl, refl)

fill-Keeps : (w : World) → Keeps w (fill w).1
fill-Keeps w = at w.random refl
  where
    at : (l : List Bytes) → w.random ≡ l → Keeps w (fill w).1
    at [] q = rw q (refl, refl)
    at (t ∷ rest) q = rw q (refl, refl)

module _ (crates : Crates) (pic : PicCrate) (compile : Text → Option Pattern) (realm : Realm)
    (w0 : World) where
  exchange_initial-Records :
      (access_token : Text) (form : Form) (w : World)
      → Keeps w0 w
      → Records w0 (exchange_initial crates pic compile realm access_token form w)
  unfolding exchange_initial
  exchange_initial-Records access_token form =
      lifted w0 (require form (codes "continuity_proposal")) _ λ proposal.
        lifted w0
          (ensure (is_one_of (lookup (codes "continuity_proposal_type") form) pic.proposal_type)
            invalid_request)
          _
          λ _. lifted w0 (decode crates access_token) _ λ jwt.
            lifted w0 (select_initial_profile realm.exchange_profiles jwt) _ λ profile.
              quiet w0 (clock_for profile.source.validation.require_expiration) _
                (clock_for-Keeps profile.source.validation.require_expiration)
                λ clock.
                  lifted w0 (validate_source_jwt crates realm.idp_keys clock jwt profile) _ λ _.
                    lifted w0 (map_authority compile profile jwt.payload) _ λ mapped.
                      lifted w0 (ok_or (pic.from_continuity_proposal proposal) invalid_request) _
                        λ contract.
                          lifted w0 (ok_or (pic.from_logical mapped contract) invalid_grant) _
                            λ authority. quiet w0 fill _ fill-Keeps λ challenge.
                              quiet w0 fill _ fill-Keeps λ lineage_bytes.
                                quiet w0 unix_now _ unix_now-Keeps λ now.
                                  lifted w0
                                    (initial_expiry crates proposal (claim_i64 jwt (codes "exp"))
                                      now realm.token_lifetime realm.token_initial_expiry_policy)
                                    _
                                    λ expiry. lifted w0 (signer_new realm) _ λ kid.
                                      lifted w0 (ok_or (pic.issue kid _ _) server_error) _
                                        λ issued. λ w h. record_last w0 _ issued w h (inl refl) refl

  settled-Records :
      (kid lineage_id : Text) (position : ℕ) (o : Option Issued) (w : World)
      → Keeps w0 w
      → Records w0 (settled crates pic compile realm kid lineage_id position o w)
  settled-Records kid lineage_id position none w h =
      refusing w0 (rejected realm.name (some lineage_id) (some position)) invalid_grant w h refl
  settled-Records kid lineage_id position (some issued) w h =
      (lifted w0 (ok_or issued.lineage_id server_error) _ λ issued_lineage. λ w' h'.
          record_last w0 (advanced realm.name issued_lineage issued.position) issued w' h'
            (inr refl) refl)
        w h

  settle_lineage-Records :
      (candidate_token : Text) (now : ℤ) (kid : Text) (metadata : CandidateMetadata)
      (o : Option Text) (w : World)
      → Keeps w0 w
      → Records w0 (settle_lineage crates pic compile realm candidate_token now kid metadata o w)
  settle_lineage-Records candidate_token now kid metadata none w h =
      refusing w0 (rejected realm.name none (some metadata.proposed_position)) invalid_grant w h
        refl
  settle_lineage-Records candidate_token now kid metadata (some lineage_id) w h =
      elim (Bool-cases (ltb_ℤ now metadata.expires_at)) [
        | inl e ↦ rw e (settled-Records kid lineage_id metadata.proposed_position _ w h)
        | inr e ↦ rw e (
            refusing w0 (rejected realm.name (some lineage_id) (some metadata.proposed_position))
              invalid_grant w h refl)
      ]

  preflighted-Records :
      (candidate_token : Text) (now : ℤ) (kid : Text) (r : Result ExchangeError CandidateMetadata)
      (w : World)
      → Keeps w0 w
      → Records w0 (preflighted crates pic compile realm candidate_token now kid r w)
  preflighted-Records candidate_token now kid (err e) w h =
      refusing w0 (rejected realm.name none none) e w h refl
  preflighted-Records candidate_token now kid (ok metadata) w h =
      settle_lineage-Records candidate_token now kid metadata metadata.lineage_id w h

  advance-Records :
      (candidate_token : Text) (w : World)
      → Keeps w0 w
      → Records w0 (advance crates pic compile realm candidate_token w)
  unfolding advance
  advance-Records candidate_token = quiet w0 unix_now _ unix_now-Keeps λ now.
      lifted w0 (signer_new realm) _ λ kid.
        preflighted-Records candidate_token now kid
          (preflight crates pic compile realm candidate_token now)

  dispatch-Records :
      (form : Form) (subject_token_type subject_token : Text) (w : World)
      → Keeps w0 w
      → Records w0 (dispatch crates pic compile realm form subject_token_type subject_token w)
  dispatch-Records form subject_token_type subject_token w h =
      elim (Bool-cases
        (text_eq subject_token_type (codes "urn:ietf:params:oauth:token-type:access_token"))) [
          | inl e ↦ rw e (exchange_initial-Records subject_token form w h)
          | inr e ↦ elim (Bool-cases (text_eq subject_token_type pic.token_type)) [
            | inl f ↦ rw e (
                rw f (
                  (lifted w0
                      (ensure (is_absent (lookup (codes "continuity_proposal") form))
                        invalid_request)
                      _
                      λ _.
                        lifted w0
                          (ensure (is_absent (lookup (codes "continuity_proposal_type") form))
                            invalid_request)
                          _ λ _. advance-Records subject_token)
                    w h))
            | inr f ↦ rw e (rw f (inl h.0))
          ]
        ]

  exchange-from :
      (body : Bytes) (w : World)
      → Keeps w0 w
      → Records w0 (exchange crates pic compile realm body w)
  unfolding exchange
  exchange-from body = lifted w0 (parse_form crates body) _ λ form.
      lifted w0 (require form (codes "grant_type")) _ λ grant.
        lifted w0
          (ensure (text_eq grant (codes "urn:ietf:params:oauth:grant-type:token-exchange"))
            invalid_request)
          _
          λ _.
            lifted w0
              (ensure (is_one_of (lookup (codes "requested_token_type") form) pic.token_type)
                invalid_target)
              _
              λ _. lifted w0 (require form (codes "subject_token_type")) _ λ subject_token_type.
                lifted w0 (require form (codes "subject_token")) _
                  λ subject_token. dispatch-Records form subject_token_type subject_token

-- A request to the token endpoint that is answered with a token has left exactly one event more in
-- the audit trail, of an exchange that was initialized or advanced, at the position of the token,
-- and the sink said that it is recorded. A request that is refused has left the trail as it was, or
-- one event more: of a rejected exchange, or of an exchange that was initialized or advanced, and
-- then the sink failed after it had written the event, and the answer is a server error.
pub exchange-Records :
    (crates : Crates) (pic : PicCrate) (compile : Text → Option Pattern) (realm : Realm)
    (body : Bytes) (w : World)
    → Records w (exchange crates pic compile realm body w)
exchange-Records crates pic compile realm body w =
    exchange-from crates pic compile realm w body w (refl, refl)
