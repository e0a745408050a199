-- ===== src/Limits/Blocks.antt =====
-- Blocks of addresses.
use pic_x.Base.{◌≤◌, Text, ◌≡◌, Option, ok, arith}
use pic_x.Limits.{IpAddr, PeerBlock, width_of, from_str}

module _ (parse_address : Text → Option IpAddr) where
  -- A block of addresses that was read from text, by whatever reads an address, has a prefix no
  -- wider than its address.
  pub prefix-from_str :
      (written : Text) (block : PeerBlock)
      → from_str parse_address written ≡ ok block
      → block.prefix ≤ width_of block.address
  unfolding from_str
  prefix-from_str written block h = ground arith
