-- ===== src/Keys/Tests.antt =====
-- The theorems about the key ring, at concrete rings. The `ring` crate's place is taken by one that
-- makes two Ed25519 keys, whose bytes are their numbers, and whose digest is the one byte that tells
-- the two apart.
use pic_x.Base.{
  ℕ, zero, suc, ◌<◌, ◌≡◌, refl, ◌∙◌, sym, ap, ◌≢◌, Text, codes, [], ◌∷◌, Option, none, some, true,
  false, arith, ok, count_if, any, All, get_or, find, retain, In, text_eq, has_text,
}
use pic_x.Keys.{
  RingAlgorithm, ed25519, es256, KeyPolicy, Entry, Ring, published, active, retired, no_maintenance,
  Maintenance,
}
use pic_x.Keys.Encoding.{Bytes, encode, base64url, base64, from_base64url, decode}
use pic_x.Keys.Encoding.RoundTrip.{IsByte, from_base64url-base64url, decode-base64}
use pic_x.Keys.Published.{canonical}
use pic_x.Keys.Disk.{
  RingCrate, World, holds, thumbprint, ring_of, create, generate_key, forget_all, read_ring,
  write_ring, io,
}
use pic_x.Keys.Disk.Post.{CollisionFree, kid_at, Unused}
use pic_x.Keys.Rotation.{
  Pass, kids, due, earliest, take_over, hand_over, retire_active, activate_first, settle,
  active_is_current, is_active, is_published,
}
use pic_x.Keys.Rotation.Entries.{Distinct}
use pic_x.Keys.Rotation.Ends.{take_over_ends, Settled}
use pic_x.Keys.Rotation.Switch.{take_over_reverts}
use pic_x.Keys.Manager.{
  Manager, maintain, active_key_id, advance, first_key, switch_algorithm, publish_successor, sweep,
}
use pic_x.Keys.Manager.Maintained.{IsWellFormed, Outcome, maintain-Outcome}
use pic_x.Keys.Manager.Signing.{active_key_id-maintain}

abbrev generate : RingAlgorithm → ℕ → Option Bytes
generate ed25519 zero = some (0 ∷ [])
generate ed25519 (suc zero) = some (1 ∷ [])
generate ed25519 (suc (suc n)) = none
generate es256 n = none

abbrev parse : RingAlgorithm → Bytes → Option ℕ
parse ed25519 (n ∷ []) = some n
parse _ _ = none

abbrev two_keys : RingCrate
two_keys = record {
  SigningPair = ℕ;
  generate_pkcs8 = generate;
  from_pkcs8 = parse;
  kind = λ _. ed25519;
  public_key = λ n. n ∷ [];
  sign_with = λ n r payload. some (n ∷ payload);
  sha256 = λ b. get_or b 35 0 ∷ [];
}

abbrev policy : KeyPolicy
policy = record {
  publish_ahead = record { secs = 10; nanos = 0 };
  rotate_every = record { secs = 100; nanos = 0 };
  retain = record { secs = 50; nanos = 0 };
  verify_retain = record { secs = 200; nanos = 0 };
}

abbrev manager : Manager
manager = record { policy = policy; algorithm = ed25519 }

abbrev signing_key : Entry
signing_key = record {
  kid = codes "old";
  state = active;
  algorithm = ed25519;
  public_key = codes "AA";
  created_at = 0;
  activated_at = some 0;
  retired_at = none;
}

abbrev one_key : Ring
one_key = record { version = 1; keys = signing_key ∷ [] }

abbrev world : World two_keys
world = record { ring_file = holds one_key; files = []; signers = []; random = 0; outcomes = [] }

first_name : kid_at two_keys ed25519 0 ≡ some (codes "QQ")
unfolding thumbprint canonical base64url encode
first_name = refl

second_name : kid_at two_keys ed25519 1 ≡ some (codes "UQ")
unfolding thumbprint canonical base64url encode
second_name = refl

abbrev first_code : Option Text → ℕ
first_code none = 0
first_code (some t) = get_or t 0 0

names_differ :
    {k : Text}
    → kid_at two_keys ed25519 0 ≡ some k
    → kid_at two_keys ed25519 1 ≡ some k
    → zero ≡ suc zero
names_differ p q =
    let e : 81 ≡ 85 =
      ap first_code (sym first_name ∙ p) ∙ sym (ap first_code (sym second_name ∙ q)) in
    absurd (omega (arith, e))

two_keys-CollisionFree : CollisionFree two_keys
two_keys-CollisionFree = record { apart = apart }
  where
    apart :
        (a b : RingAlgorithm) (m n : ℕ) (k : Text)
        → kid_at two_keys a m ≡ some k
        → kid_at two_keys b n ≡ some k
        → m ≡ n
    apart ed25519 ed25519 zero zero k p q = refl
    apart ed25519 ed25519 (suc zero) (suc zero) k p q = refl
    apart ed25519 ed25519 zero (suc zero) k p q = names_differ p q
    apart ed25519 ed25519 (suc zero) zero k p q = sym (names_differ q p)
    apart ed25519 ed25519 (suc (suc m)) n k p q = cc
    apart ed25519 ed25519 m (suc (suc n)) k p q = cc
    apart es256 b m n k p q = cc
    apart ed25519 es256 m n k p q = cc

world-IsWellFormed : IsWellFormed world one_key
unfolding count_if
world-IsWellFormed = record { distinct = (tt, tt); unused = unused; single = omega arith }
  where
    other : {k : Text} → codes "old" ≡ k → some (codes "QQ") ≢ some k
    other q p =
        let e : 111 ≡ 81 = ap (λ t. get_or t 0 0) q ∙ sym (ap first_code p) in
        absurd (omega (arith, e))

    other' : {k : Text} → codes "old" ≡ k → some (codes "UQ") ≢ some k
    other' q p =
        let e : 111 ≡ 85 = ap (λ t. get_or t 0 0) q ∙ sym (ap first_code p) in
        absurd (omega (arith, e))

    unused : Unused two_keys 0 (codes "old" ∷ [])
    unused ed25519 zero k l p = (λ q. other q (sym first_name ∙ p), tt)
    unused ed25519 (suc zero) k l p = (λ q. other' q (sym second_name ∙ p), tt)
    unused ed25519 (suc (suc n)) k l p = cc
    unused es256 n k l p = cc

maintain-Outcome_example : Outcome policy 1000 one_key (holds one_key) (maintain manager 1000 world)
maintain-Outcome_example =
    maintain-Outcome manager 1000 world one_key refl two_keys-CollisionFree world-IsWellFormed

abbrev one_published : Maintenance
one_published = record no_maintenance { published = 1 }

-- At 95 s the successor of the key that signs is published.
abbrev world_after : World two_keys
world_after = (maintain manager 95 world).1

returned : maintain manager 95 world ≡ (ok one_published, world_after)
unfolding maintain advance first_key switch_algorithm publish_successor sweep take_over due earliest
    settle create generate_key forget_all read_ring write_ring io any find retain count_if text_eq
    has_text base64url
returned = refl

answers : world_after.outcomes ≡ []
unfolding maintain advance first_key switch_algorithm publish_successor sweep take_over due earliest
    settle create generate_key forget_all read_ring write_ring io any find retain count_if text_eq
    has_text base64url
answers = refl

active_key_id-maintain_example :
    (r' : Ring) × (e : Entry) × (ring_of world_after.ring_file ≡ ok r')
    × In e r'.keys
    × (is_active e ≡ true)
    × ((active_key_id world_after).0 ≡ ok e.kid)
active_key_id-maintain_example =
    active_key_id-maintain manager 95 world world_after one_key one_published two_keys-CollisionFree
      refl world-IsWellFormed returned answers

-- A key of the other algorithm that waits beside the one that signs.
abbrev waiting_key : Entry
waiting_key = record {
  kid = codes "next";
  state = published;
  algorithm = es256;
  public_key = codes "AA";
  created_at = 0;
  activated_at = none;
  retired_at = none;
}

abbrev two_entries : Pass
two_entries = record { keys = signing_key ∷ waiting_key ∷ []; report = no_maintenance }

two_entries-Distinct : Distinct (kids two_entries.keys)
two_entries-Distinct = ((λ p. differ p, tt), (tt, tt))
  where
    differ : codes "next" ≢ codes "old"
    differ p = let e : 110 ≡ 111 = ap (λ t. get_or t 0 0) p in absurd (omega (arith, e))

take_over_ends_example :
    (q : Pass) × (take_over policy 20 2 two_entries ≡ some q) × Settled policy 20 two_entries q
unfolding count_if
take_over_ends_example = take_over_ends policy 20 2 two_entries two_entries-Distinct one few
  where
    one : count_if is_active two_entries.keys ≡ 1
    one = refl

    few : count_if is_published two_entries.keys < 2
    few = omega arith

-- What the loop makes of them at 20 s: the signing key stands down, and the one that waited takes over.
abbrev reverted : Pass
reverted = record {
  keys =
      record signing_key { state = retired; retired_at = some 20 }
      ∷ record waiting_key { state = active; activated_at = some 20 }
      ∷ [];
  report = record no_maintenance { activated = 1; retired = 1 };
}

take_over_reverts_example : active_is_current ed25519 reverted.keys ≡ false
unfolding take_over due earliest retain hand_over retire_active activate_first count_if text_eq
take_over_reverts_example =
    take_over_reverts policy 20 2 ed25519 two_entries reverted two_entries-Distinct refl refl refl

three_bytes : All IsByte (255 ∷ 0 ∷ 17 ∷ 254 ∷ [])
three_bytes = (omega arith, (omega arith, (omega arith, (omega arith, tt))))

from_base64url-base64url_example :
    from_base64url (base64url (255 ∷ 0 ∷ 17 ∷ 254 ∷ [])) ≡ some (255 ∷ 0 ∷ 17 ∷ 254 ∷ [])
from_base64url-base64url_example = from_base64url-base64url (255 ∷ 0 ∷ 17 ∷ 254 ∷ []) three_bytes

decode-base64_example : decode (base64 (255 ∷ 0 ∷ 17 ∷ 254 ∷ [])) ≡ some (255 ∷ 0 ∷ 17 ∷ 254 ∷ [])
decode-base64_example = decode-base64 (255 ∷ 0 ∷ 17 ∷ 254 ∷ []) three_bytes
