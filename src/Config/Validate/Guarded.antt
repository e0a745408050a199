-- ===== src/Config/Validate/Guarded.antt =====
-- What the check of a configuration establishes for who may administer the deployment, under the policy
-- that the surface is built with (crates/pic-x-admin/src/service.rs).
use pic_x.Base.{
  Text, Option, none, some, List, [], ◌∷◌, Bool, true, false, ◌||◌, ◌≡◌, refl, sym, subst, ok,
}
use pic_x.Base.Fallible.{after, ensure-ok}
use pic_x.Peer.{PeerIdentity, AllowedPeer, is_allowed_by}
use pic_x.Admin.{Authorization, permits_peer, permits}
use pic_x.Admin
use pic_x.Config.Parse.{is_loopback}
use pic_x.Config.State.{Config}
use pic_x.Config.Validate.Attesters.{is_nil}
use pic_x.Config.Validate.Whole.{
  validate, check_surfaces, validate_development, validate_admin_access, check_admin, is_mutual_tls,
}

module _ (S R : Type 0) where
  -- The policy of the administrative surface, without the recorder that `recording` adds.
  unfoldable pub policy_for : Config → Authorization S R
  policy_for c = Admin.new c.surfaces.admin_allow c.general.development_mode

-- A reachable surface outside development asks for certificates, and names somebody.
check_admin-Guarded :
    (names_nobody demands : Bool) (address : Text)
    → is_loopback address ≡ false
    → check_admin false names_nobody demands address ≡ ok tt
    → (demands ≡ true) × (names_nobody ≡ false)
check_admin-Guarded names_nobody false address l h =
    let e = ensure-ok (is_loopback address || false) _ h in cc (rw l at e)
check_admin-Guarded false true address l h = (refl, refl)
check_admin-Guarded true true address l h = cc

-- The caller presented a certificate that an entry of the list names.
abbrev pub IsNamed : List AllowedPeer → Option PeerIdentity → Type 0
IsNamed allowed peer = (p : PeerIdentity) × (peer ≡ some p) × (is_allowed_by p allowed ≡ true)

permits-IsNamed :
    (S R : Type 0) (c : Config) (peer : Option PeerIdentity) (allowed : List AllowedPeer)
    → c.surfaces.admin_allow ≡ allowed
    → is_nil allowed ≡ false
    → permits (policy_for S R c) peer ≡ true
    → IsNamed c.surfaces.admin_allow peer
unfolding permits policy_for Admin.new
permits-IsNamed S R c none allowed e n h = cc
permits-IsNamed S R c (some p) [] e n h = cc
permits-IsNamed S R c (some p) (a ∷ rest) e n h =
    (p, refl, subst (λ l. is_allowed_by p l ≡ true) (sym e) (rw e at h))

module _ (S R : Type 0) (is_file : Text → Bool) where
  -- Where a configuration passed its check, does not say that it is for development, and has its
  -- administrative surface at an address that is not a loopback one, the surface asks for client
  -- certificates, and a call that the surface's policy permits comes from a caller whose
  -- certificate an entry of the list names.
  pub validate-Guarded :
      (c : Config) (address : Text) (peer : Option PeerIdentity)
      → validate is_file c ≡ ok tt
      → c.general.development_mode ≡ false
      → c.surfaces.admin_addr ≡ some address
      → is_loopback address ≡ false
      → permits (policy_for S R c) peer ≡ true
      → (is_mutual_tls c.tls.admin_tls ≡ true) × IsNamed c.surfaces.admin_allow peer
  unfolding validate validate_admin_access
  validate-Guarded c address peer v d a l p =
      let (_, h1) = after (check_surfaces is_file c) _ v in
      let (_, h2) = after (validate_development c) _ h1 in
      let (g, _) = after (validate_admin_access c) _ h2 in
      let (demands, names) =
        check_admin-Guarded (is_nil c.surfaces.admin_allow) (is_mutual_tls c.tls.admin_tls) address
          l (rw (a, d) at g) in
      (demands, permits-IsNamed S R c peer _ refl names p)
