-- ===== src/Admin/Recorded.antt =====
-- What holds of a call that the handler answered, and who may call.
use pic_x.Base.{
  List, [], ◌∷◌, Option, none, some, Bool, true, ◌≡◌, refl, sym, ◌↔◌, inl, inr, arith, Bool-cases,
  any, In, here, there, subst,
}
use pic_x.Peer.{PeerIdentity, AllowedPeer, is_allowed_by, matches}
use pic_x.Admin.{Authorization, permits, permits_peer}

-- The peer presented a certificate, and it is named by an entry of the list, or the list is empty and
-- the deployment is one for development.
pub data MayCall (S R : Type 0) (policy : Authorization S R) : Option PeerIdentity → Type 0 where
  in_development :
      {peer : PeerIdentity}
      → policy.allowed ≡ []
      → policy.development ≡ true
      → MayCall S R policy (some peer)
  is_named :
      {peer : PeerIdentity} (entry : AllowedPeer)
      → In entry policy.allowed
      → matches entry peer ≡ true
      → MayCall S R policy (some peer)

any-In :
    {A : Type 0} (test : A → Bool) (l : List A)
    → any test l ≡ true
    → (a : A) × In a l × (test a ≡ true)
unfolding any
any-In test [] h = cc
any-In test (x ∷ xs) h = elim (Bool-cases (test x)) [
  | inl p ↦ (x, here, p)
  | inr p ↦ let (a, m, q) = any-In test xs (ground arith) in (a, there m, q)
]

In-any :
    {A : Type 0} (test : A → Bool) {a : A} {l : List A} → In a l → test a ≡ true → any test l ≡ true
unfolding any
In-any test here h = rw h refl
In-any test (there {x = x} m) h = ground (arith, In-any test m h)

module _ {S R : Type 0} (policy : Authorization S R) where
  permits-MayCall :
      (peer : Option PeerIdentity) → permits policy peer ≡ true → MayCall S R policy peer
  unfolding permits is_allowed_by
  permits-MayCall none h = cc
  permits-MayCall (some peer) h = by_list policy.allowed refl h
    where
      by_list :
          (l : List AllowedPeer)
          → policy.allowed ≡ l
          → permits_peer policy.development peer l ≡ true
          → MayCall S R policy (some peer)
      by_list [] e h = in_development e h
      by_list (a ∷ rest) e h =
          let (entry, m, q) = any-In (λ entry. matches entry peer) (a ∷ rest) h in
          is_named entry (subst (In entry) (sym e) m) q

  MayCall-permits :
      {peer : Option PeerIdentity} → MayCall S R policy peer → permits policy peer ≡ true
  unfolding permits is_allowed_by
  MayCall-permits (in_development e d) = rw e d
  MayCall-permits (is_named {peer} entry m q) = by_list policy.allowed m
    where
      by_list : (l : List AllowedPeer) → In entry l → permits_peer policy.development peer l ≡ true
      by_list [] m = elim m [ ]
      by_list (a ∷ rest) m = In-any (λ entry. matches entry peer) m q

  -- The policy permits a call exactly when the caller presented a certificate and an entry of the
  -- list names it, or the list is empty and the deployment is one for development.
  pub permits_iff :
      (peer : Option PeerIdentity) → (permits policy peer ≡ true) ↔ MayCall S R policy peer
  permits_iff peer = (permits-MayCall peer, MayCall-permits)
