-- ===== src/Peer/Tests.antt =====
-- An entry of the list of peers, read.
use pic_x.Base.{◌≡◌, refl, codes, ok, trim_start, trim_end, strip_prefix}
use pic_x.Peer.{common_name, from_str}
use pic_x.Peer.Reading.{IsEntry, from_str-IsEntry}

operator : from_str (codes "  cn: operator ") ≡ ok (common_name (codes "operator"))
unfolding from_str trim_start trim_end strip_prefix
operator = refl

from_str-IsEntry_example : IsEntry (common_name (codes "operator"))
from_str-IsEntry_example =
    from_str-IsEntry (codes "  cn: operator ") (common_name (codes "operator")) operator
