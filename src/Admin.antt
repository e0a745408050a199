-- ===== src/Admin.antt =====
-- crates/pic-x-admin/src/authorization.rs: who may administer a deployment, and the record that has to
-- be there before the work is done. The recorder and the handler are what the surface is built with:
-- they act on a state of their own, `S`, and the handler answers with an `R`.
pub mod Recorded
mod Tests
use pic_x.Base.{Text, codes, List, [], ◌∷◌, Option, none, some, Bool, true, false, if◌then◌else◌}
use pic_x.Peer.{PeerIdentity, AllowedPeer, is_allowed_by, label}

abbrev pub permits_peer : Bool → PeerIdentity → List AllowedPeer → Bool
permits_peer development peer [] = development
permits_peer development peer (a ∷ rest) = is_allowed_by peer (a ∷ rest)

abbrev pub label_of : Option PeerIdentity → Text
label_of none = codes "-"
label_of (some peer) = label peer

module _ (S R : Type 0) where
  -- `record_on`: an action, who did it, and to what; true says that the record is written.
  abbrev pub Recorder : Type 0
  Recorder = Text → Text → Text → S → Bool × S

  pub record Authorization : Type 0 where
    pub allowed : List AllowedPeer
    pub development : Bool
    pub recorder : Option Recorder

  -- What a call gets: an answer of the handler, PERMISSION_DENIED, or UNAVAILABLE.
  pub data Response : Type 0 where
    served : R → Response
    refused unrecordable : Response

module _ {S R : Type 0} where
  unfoldable pub new : List AllowedPeer → Bool → Authorization S R
  new allowed development = record { allowed = allowed; development = development; recorder = none }

  unfoldable pub recording : Authorization S R → Recorder S R → Authorization S R
  recording policy recorder = record policy { recorder = some recorder }

  unfoldable pub permits : Authorization S R → Option PeerIdentity → Bool
  permits policy none = false
  permits policy (some peer) = permits_peer policy.development peer policy.allowed

  -- `record`: without a recorder there is no trail to leave a gap in.
  unfoldable pub record_decision : Authorization S R → Text → Text → Text → S → Bool × S
  record_decision policy action principal target s = elim policy.recorder [
    | none ↦ (true, s)
    | some recorder ↦ recorder action principal target s
  ]

  abbrev pub serve : (S → R × S) → Bool × S → Response S R × S
  serve next (true, s) = let r = next s in (served r.0, r.1)
  serve next (false, s) = (unrecordable, s)

  unfoldable pub authorize :
      Authorization S R → Option PeerIdentity → Text → (S → R × S) → S → Response S R × S
  authorize policy peer target next s =
      if permits policy peer
      then serve next (record_decision policy (codes "admin.request") (label_of peer) target s)
      else (refused, (record_decision policy (codes "admin.refused") (label_of peer) target s).1)
