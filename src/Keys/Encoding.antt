-- ===== src/Keys/Encoding.antt =====
-- crates/pic-x-std/src/keys/encoding.rs: the two base64 alphabets and the PEM armour.
-- A byte is a number below 256, a character its code point.
pub mod RoundTrip
use pic_x.Base.{
  ◌≡◌, refl, ℕ, suc, ◌+◌, ◌-◌, ◌*◌, ◌/◌, ◌%◌, ◌^◌, Text, codes, Option, none, some, List, [], ◌∷◌,
  ◌++◌, Bool, true, false, not, leb, ◌==◌, if◌then◌else◌, retain, get_or, starts_with,
  is_whitespace, lines, flatten,
}

abbrev pub Bytes : Type 0
Bytes = List ℕ

abbrev pub standard : Bytes
standard = codes "ABCDEFGHIJKLMNOPQRSTUVWXYZabcdefghijklmnopqrstuvwxyz0123456789+/"

abbrev pub url_safe : Bytes
url_safe = codes "ABCDEFGHIJKLMNOPQRSTUVWXYZabcdefghijklmnopqrstuvwxyz0123456789-_"

abbrev pub pem_width : ℕ
pem_width = 64

-- `chunk[0] << 16 | chunk[1] << 8 | chunk[2]` over bytes, whose bits do not meet.
abbrev pub chunk_bits : ℕ → ℕ → ℕ → ℕ
chunk_bits a b c = a * 65536 + b * 256 + c

-- The character at `index`: six bits of the chunk.
abbrev pub sextet : ℕ → ℕ → ℕ
sextet bits shift = bits / 2 ^ shift % 64

abbrev pub padding : Bool → Text → Text
padding pad marks = if pad then marks else []

-- `chunks(3)` takes three bytes while there are as many.
unfoldable pub encode : Bytes → Bytes → Bool → Text
encode [] alphabet pad = []
encode (a ∷ []) alphabet pad =
    get_or alphabet (sextet (chunk_bits a 0 0) 18) 0
    ∷ get_or alphabet (sextet (chunk_bits a 0 0) 12) 0
    ∷ padding pad (codes "==")
encode (a ∷ b ∷ []) alphabet pad =
    get_or alphabet (sextet (chunk_bits a b 0) 18) 0
    ∷ get_or alphabet (sextet (chunk_bits a b 0) 12) 0
    ∷ get_or alphabet (sextet (chunk_bits a b 0) 6) 0
    ∷ padding pad (codes "=")
encode (a ∷ b ∷ c ∷ rest) alphabet pad =
    get_or alphabet (sextet (chunk_bits a b c) 18) 0
    ∷ get_or alphabet (sextet (chunk_bits a b c) 12) 0
    ∷ get_or alphabet (sextet (chunk_bits a b c) 6) 0
    ∷ get_or alphabet (sextet (chunk_bits a b c) 0) 0
    ∷ encode rest alphabet pad

unfoldable pub base64url : Bytes → Text
unfolding encode
base64url input = encode input url_safe false

unfoldable pub base64 : Bytes → Text
unfolding encode
base64 input = encode input standard true

-- `alphabet.iter().position(|entry| *entry == c)`
pub position : Bytes → ℕ → Option ℕ
position [] c = none
position (e ∷ es) c =
    if e == c then some 0 else elim (position es c) [ none ↦ none | some i ↦ some (suc i) ]

-- One character into the accumulator, a `u32` whose upper bits are shifted out.
abbrev pub shift_in : ℕ → ℕ → ℕ
shift_in accumulator value = accumulator * 64 % 2 ^ 32 + value

-- The loop of `decode_with`. The code casts the character with `as u8`, which keeps its low byte.
unfoldable pub decode_from : Bytes → ℕ → ℕ → Bytes → Text → Option Bytes
unfolding position
decode_from alphabet accumulator bits out [] = some out
decode_from alphabet accumulator bits out (c ∷ s) =
    if c == b'=' then some out else elim (position alphabet (c % 256)) [
      | none ↦ none
      | some value ↦
          let next = shift_in accumulator value in
          if leb 8 (bits + 6)
          then decode_from alphabet next (bits + 6 - 8)
              (out ++ next / 2 ^ (bits + 6 - 8) % 256 ∷ []) s
          else decode_from alphabet next (bits + 6) out s
    ]

unfoldable pub decode_with : Text → Bytes → Option Bytes
unfolding decode_from
decode_with input alphabet = decode_from alphabet 0 0 [] input

unfoldable pub from_base64url : Text → Option Bytes
unfolding decode_with
from_base64url input = decode_with input url_safe

-- Decodes standard base64, tolerating the absence of padding.
unfoldable pub decode : Text → Option Bytes
unfolding decode_with
decode input = decode_with input standard

-- `chunks(PEM_WIDTH)`, each chunk closed by a line feed. The first argument is the room that is left on
-- the line; a line that has begun is closed at the end.
pub wrap : ℕ → Text → Text
wrap room [] = if room == pem_width then [] else 10 ∷ []
wrap room (c ∷ s) =
    let rest = wrap (if room == 1 then pem_width else room - 1) s in
    c ∷ (if room == 1 then 10 ∷ rest else rest)

abbrev pub begin_line : Text → Text
begin_line label = codes "-----BEGIN " ++ label ++ codes "-----"

abbrev pub end_line : Text → Text
end_line label = codes "-----END " ++ label ++ codes "-----"

unfoldable pub pem : Text → Bytes → Text
unfolding base64 wrap
pem label der = begin_line label ++ 10 ∷ wrap pem_width (base64 der) ++ end_line label ++ 10 ∷ []

-- The lines that are no armour, without the white space inside them.
unfoldable pub from_pem : Text → Option Bytes
unfolding decode lines starts_with retain flatten
from_pem text = decode (
    retain (λ c. not (is_whitespace c))
      (flatten (retain (λ l. not (starts_with (codes "-----") l)) (lines text))))
