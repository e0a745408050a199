-- ===== src/Realm/Der.antt =====
-- The DER form of an RSA public key (crates/pic-x-realm/src/por.rs, lines 568 to 618). A length is a
-- `usize` of 64 bits.
use pic_x.Base.{
  ℕ, zero, suc, ◌/◌, ◌%◌, ◌^◌, bit_and, bit_or, List, [], ◌∷◌, ◌++◌, not, ltb, ◌==◌, length,
  if◌then◌else◌,
}

abbrev Bytes : Type 0
Bytes = List ℕ

-- `to_be_bytes`, of the number of bytes that comes first.
unfoldable pub to_be_bytes : ℕ → ℕ → Bytes
to_be_bytes zero n = []
to_be_bytes (suc k) n = n / 256 ^ k % 256 ∷ to_be_bytes k n

-- The bytes from the first that is not zero, or the last one.
unfoldable pub significant : Bytes → Bytes
significant [] = []
significant (b ∷ []) = b ∷ []
significant (b ∷ c ∷ bs) = if b == 0 then significant (c ∷ bs) else b ∷ c ∷ bs

unfoldable pub der_length : ℕ → Bytes
unfolding to_be_bytes significant
der_length n =
    if ltb n 0x80
    then n ∷ []
    else (let bytes = significant (to_be_bytes 8 n) in bit_or 0x80 (length bytes) ∷ bytes)

unfoldable pub without_zeros : Bytes → Bytes
without_zeros [] = []
without_zeros (b ∷ bs) = if b == 0 then without_zeros bs else b ∷ bs

-- A zero in front keeps the number positive where the high bit is set.
abbrev pub positive : Bytes → Bytes
positive [] = []
positive (b ∷ bs) = if not (bit_and b 0x80 == 0) then 0 ∷ b ∷ bs else b ∷ bs

unfoldable pub der_integer : Bytes → Bytes
unfolding der_length without_zeros
der_integer value =
    let content = positive (without_zeros value) in 0x02 ∷ der_length (length content) ++ content

unfoldable pub der_rsa_public_key : Bytes → Bytes → Bytes
unfolding der_length der_integer
der_rsa_public_key modulus exponent =
    let body = der_integer modulus ++ der_integer exponent in
    0x30 ∷ der_length (length body) ++ body
