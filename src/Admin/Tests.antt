-- ===== src/Admin/Tests.antt =====
-- A call of an operator who is on the list, with a trail that keeps the actions.
use pic_x.Base.{ℕ, Text, codes, List, [], ◌∷◌, some, true, false, ◌≡◌, ◌↔◌}
use pic_x.Peer.{PeerIdentity, common_name}
use pic_x.Admin.{Authorization, permits}
use pic_x.Admin.Recorded.{MayCall, permits_iff}

abbrev operator : PeerIdentity
operator = record {
  subject = codes "CN=operator";
  common_name = some (codes "operator");
  fingerprint = [];
  serial = codes "1";
}

abbrev policy : Authorization (List Text) ℕ
policy = record {
  allowed = common_name (codes "operator") ∷ [];
  development = false;
  recorder = some (λ action principal target s. (true, action ∷ s));
}

permits_iff_example :
    (permits policy (some operator) ≡ true) ↔ MayCall (List Text) ℕ policy (some operator)
permits_iff_example = permits_iff policy (some operator)
