-- ===== src/Limits/Tests.antt =====
-- A block read from text, where every address is 10.0.0.0.
use pic_x.Base.{
  ◌≡◌, refl, ◌*◌, ◌^◌, codes, some, ok, trim_start, trim_end, split_once_at, digits_from,
}
use pic_x.Limits.{IpAddr, v4, PeerBlock, from_str}

abbrev ten : IpAddr
ten = v4 (10 * 2 ^ 24)

abbrev block : PeerBlock
block = record { address = ten; prefix = 8 }

reads : from_str (λ _. some ten) (codes "10.0.0.0/8") ≡ ok block
unfolding from_str trim_start trim_end split_once_at digits_from
reads = refl
