-- ===== src/Keys/Encoding/RoundTrip.antt =====
-- Decoding undoes encoding, in both alphabets and through the PEM armour.
use pic_x.Base.{
  ◌⊎◌, inl, inr, ℕ, zero, suc, ◌/◌, ◌%◌, ◌<◌, ◌≡◌, refl, ◌∙◌, ap, Text, codes, none, some, [], ◌∷◌,
  ◌++◌, Bool, true, false, ◌&&◌, not, ◌==◌, arith, All, get_or,
}
use mathlib.Core.List.{append-nil, append_assoc}
use pic_x.Keys.Encoding.{
  Bytes, standard, url_safe, encode, base64url, base64, position, shift_in, chunk_bits, sextet,
  decode_from, from_base64url, decode, padding,
}

abbrev pub IsByte : ℕ → Type 0
IsByte b = b < 256

-- The alphabet has the character of a sextet at its place, below 256 and no padding mark.
unfoldable pub reads_back : Bytes → ℕ → Bool
reads_back alphabet i =
    let c = get_or alphabet i 0 in
    (elim (position alphabet (c % 256)) [ none ↦ false | some j ↦ j == i ]) && not (c == b'=')

le_cases : (i size : ℕ) → i < suc size → (i < size) ⊎ (i ≡ size)
le_cases i size l = omega (arith, l)

-- The first `size` characters of the alphabet are found at their places.
unfoldable pub reads_back_up_to : Bytes → ℕ → Bool
reads_back_up_to alphabet zero = true
reads_back_up_to alphabet (suc size) = reads_back_up_to alphabet size && reads_back alphabet size

reads_back_at :
    (alphabet : Bytes) (size : ℕ)
    → reads_back_up_to alphabet size ≡ true
    → (i : ℕ) → i < size
    → reads_back alphabet i ≡ true
unfolding reads_back_up_to
reads_back_at alphabet zero h i l = absurd (omega (arith, l))
reads_back_at alphabet (suc size) h i l = elim (le_cases i size l) [
  | inl p ↦ reads_back_at alphabet size (ground arith) i p
  | inr p ↦ rw p (ground arith)
]

reads_back_sound :
    (alphabet : Bytes) (i : ℕ)
    → reads_back alphabet i ≡ true
    → (position alphabet (get_or alphabet i 0 % 256) ≡ some i)
      × ((get_or alphabet i 0 == b'=') ≡ false)
unfolding reads_back
reads_back_sound alphabet i h = ground arith

-- An alphabet of 64 characters that all read back.
pub record IsAlphabet (alphabet : Bytes) : Type 0 where
  pub at : reads_back_up_to alphabet 64 ≡ true

pub url_safe-IsAlphabet : IsAlphabet url_safe
unfolding reads_back_up_to reads_back position
url_safe-IsAlphabet = record { at = refl }

pub standard-IsAlphabet : IsAlphabet standard
unfolding reads_back_up_to reads_back position
standard-IsAlphabet = record { at = refl }

module _ {alphabet : Bytes} (good : IsAlphabet alphabet) where
  char : ℕ → ℕ
  char i = get_or alphabet i 0

  position-char :
      (i : ℕ) → i < 64 → (position alphabet (char i % 256) ≡ some i) × ((char i == b'=') ≡ false)
  unfolding char
  position-char i h = reads_back_sound alphabet i (reads_back_at alphabet 64 good.at i h)

  decode-char_short :
      (acc : ℕ) (out : Bytes) (i : ℕ) (s : Text)
      → i < 64
      → decode_from alphabet acc 0 out (char i ∷ s) ≡ decode_from alphabet (shift_in acc i) 6 out s
  unfolding decode_from
  decode-char_short acc out i s h = let p = position-char i h in rw (p.1, p.0) refl

  decode-char_6 :
      (acc : ℕ) (out : Bytes) (i : ℕ) (s : Text)
      → i < 64
      → decode_from alphabet acc 6 out (char i ∷ s)
        ≡ decode_from alphabet (shift_in acc i) 4 (out ++ shift_in acc i / 16 % 256 ∷ []) s
  unfolding decode_from
  decode-char_6 acc out i s h = let p = position-char i h in rw (p.1, p.0) refl

  decode-char_4 :
      (acc : ℕ) (out : Bytes) (i : ℕ) (s : Text)
      → i < 64
      → decode_from alphabet acc 4 out (char i ∷ s)
        ≡ decode_from alphabet (shift_in acc i) 2 (out ++ shift_in acc i / 4 % 256 ∷ []) s
  unfolding decode_from
  decode-char_4 acc out i s h = let p = position-char i h in rw (p.1, p.0) refl

  decode-char_2 :
      (acc : ℕ) (out : Bytes) (i : ℕ) (s : Text)
      → i < 64
      → decode_from alphabet acc 2 out (char i ∷ s)
        ≡ decode_from alphabet (shift_in acc i) 0 (out ++ shift_in acc i / 1 % 256 ∷ []) s
  unfolding decode_from
  decode-char_2 acc out i s h = let p = position-char i h in rw (p.1, p.0) refl

-- The bytes that the accumulator gives, whatever stood in it before.
first_byte :
    (acc a b c : ℕ)
    → a < 256
    → b < 256
    → c < 256
    → shift_in (shift_in acc (sextet (chunk_bits a b c) 18)) (sextet (chunk_bits a b c) 12)
        / 16
        % 256
      ≡ a
first_byte acc a b c p q r = omega arith

second_byte :
    (acc a b c : ℕ)
    → a < 256
    → b < 256
    → c < 256
    → shift_in (shift_in acc (sextet (chunk_bits a b c) 12)) (sextet (chunk_bits a b c) 6) / 4 % 256
      ≡ b
second_byte acc a b c p q r = omega arith

third_byte :
    (acc a b c : ℕ)
    → a < 256
    → b < 256
    → c < 256
    → shift_in (shift_in acc (sextet (chunk_bits a b c) 6)) (sextet (chunk_bits a b c) 0) / 1 % 256
      ≡ c
third_byte acc a b c p q r = omega arith

module _ {alphabet : Bytes} (good : IsAlphabet alphabet) where
  -- What stands behind the last character: nothing, or a padding mark.
  abbrev pub Ends : Text → Type 0
  Ends s = (acc bits : ℕ) (out : Bytes) → decode_from alphabet acc bits out s ≡ some out

  sextet-lt : (bits shift : ℕ) → sextet bits shift < 64
  sextet-lt bits shift = omega arith

  decode_nothing : (acc : ℕ) (out : Bytes) → decode_from alphabet acc 0 out [] ≡ some (out ++ [])
  unfolding decode_from
  decode_nothing acc out = rw append-nil refl

  pub decode-encode :
      (input : Bytes) (pad : Bool) (acc : ℕ) (out : Bytes)
      → All IsByte input
      → Ends (padding pad (codes "=="))
      → Ends (padding pad (codes "="))
      → decode_from alphabet acc 0 out (encode input alphabet pad) ≡ some (out ++ input)
  unfolding encode char
  decode-encode [] pad acc out h e f = decode_nothing acc out
  decode-encode (a ∷ []) pad acc out h e f =
      let lt = λ (shift : ℕ). sextet-lt (chunk_bits a 0 0) shift in
      decode-char_short good acc out _ _ (lt 18)
      ∙ decode-char_6 good _ out _ _ (lt 12)
      ∙ e _ 4 _
      ∙ ap (λ x. some (out ++ x ∷ [])) (first_byte acc a 0 0 h.0 (omega arith) (omega arith))
  decode-encode (a ∷ b ∷ []) pad acc out h e f =
      let lt = λ (shift : ℕ). sextet-lt (chunk_bits a b 0) shift in
      decode-char_short good acc out _ _ (lt 18)
      ∙ decode-char_6 good _ out _ _ (lt 12)
      ∙ decode-char_4 good _ _ _ _ (lt 6)
      ∙ f _ 2 _
      ∙ rw
          (
            first_byte acc a b 0 h.0 h.1.0 (omega arith),
            second_byte _ a b 0 h.0 h.1.0 (omega arith),
          )
          (simp append_assoc)
  decode-encode (a ∷ b ∷ c ∷ rest) pad acc out h e f =
      let lt = λ (shift : ℕ). sextet-lt (chunk_bits a b c) shift in
      decode-char_short good acc out _ _ (lt 18)
      ∙ decode-char_6 good _ out _ _ (lt 12)
      ∙ decode-char_4 good _ _ _ _ (lt 6)
      ∙ decode-char_2 good _ _ _ _ (lt 0)
      ∙ decode-encode rest pad _ _ h.1.1.1 e f
      ∙ rw
          (
            first_byte acc a b c h.0 h.1.0 h.1.1.0,
            second_byte _ a b c h.0 h.1.0 h.1.1.0,
            third_byte _ a b c h.0 h.1.0 h.1.1.0,
          )
          (simp append_assoc)

Ends-nil : {alphabet : Bytes} (good : IsAlphabet alphabet) → Ends good []
unfolding decode_from
Ends-nil good acc bits out = refl

Ends-mark : {alphabet : Bytes} (good : IsAlphabet alphabet) (s : Text) → Ends good (b'=' ∷ s)
unfolding decode_from
Ends-mark good s acc bits out = refl

-- For a list of bytes, decoding what base64url wrote gives the bytes back.
pub from_base64url-base64url :
    (input : Bytes) → All IsByte input → from_base64url (base64url input) ≡ some input
unfolding from_base64url base64url
from_base64url-base64url input h =
    decode-encode url_safe-IsAlphabet input false 0 [] h (Ends-nil url_safe-IsAlphabet)
      (Ends-nil url_safe-IsAlphabet)

-- For a list of bytes, decoding the padded standard base64 of them gives the bytes back.
pub decode-base64 : (input : Bytes) → All IsByte input → decode (base64 input) ≡ some input
unfolding decode base64
decode-base64 input h =
    decode-encode standard-IsAlphabet input true 0 [] h (Ends-mark standard-IsAlphabet (codes "="))
      (Ends-mark standard-IsAlphabet [])
