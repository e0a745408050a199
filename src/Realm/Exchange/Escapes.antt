-- ===== src/Realm/Exchange/Escapes.antt =====
-- Percent escapes, written out for each byte and read back.
use pic_x.Base.{ℕ, ◌+◌, ◌/◌, ◌%◌, ◌<◌, ◌≡◌, refl, ap, [], ◌∷◌, if◌then◌else◌, ltb, arith, All, ok}
use pic_x.Realm.Profile.{Bytes}
use pic_x.Realm.Exchange.{from_hex, percent_bytes}

-- The digit of a number below 16, in lower case.
abbrev pub hex_digit : ℕ → ℕ
hex_digit n = if ltb n 10 then n + 48 else n + 87

-- An escape for each byte.
unfoldable pub escaped : Bytes → Bytes
escaped [] = []
escaped (b ∷ s) = 37 ∷ hex_digit (b / 16) ∷ hex_digit (b % 16) ∷ escaped s

from_hex-hex_digit : (n : ℕ) → n < 16 → from_hex (hex_digit n) ≡ ok n
from_hex-hex_digit n h = ground (arith, h)

-- For a list of bytes, decoding a percent escape of each of them gives the bytes back.
pub percent_bytes-escaped : (s : Bytes) → All (λ b. b < 256) s → percent_bytes (escaped s) ≡ ok s
unfolding percent_bytes escaped
percent_bytes-escaped [] h = refl
percent_bytes-escaped (b ∷ s) h =
    rw
      (
        from_hex-hex_digit (b / 16) (omega (arith, h.0)),
        from_hex-hex_digit (b % 16) (omega arith),
        percent_bytes-escaped s h.1,
      )
      (ap (λ n. ok (n ∷ s)) (omega arith))
