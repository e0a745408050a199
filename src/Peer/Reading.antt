-- ===== src/Peer/Reading.antt =====
-- What an entry of the list is after it has been read, and which peers it names.
use pic_x.Base.{
  ℕ, Text, codes, [], ◌∷◌, true, false, ◌&&◌, ◌≡◌, refl, ap, ◌∙◌, sym, arith, ◌==◌, ok, Result,
  is_empty_text, trim, length, strip_prefix, inl, inr, Option-cases, Bool-cases,
}
use pic_x.Peer.{
  AllowedPeer, common_name, subject, fingerprint, from_str, all_hex, is_hex, lower,
  to_ascii_lowercase, without_colons, read_fingerprint, read_common_name, read_subject, Refusal,
}

-- A name that is not empty, or the 64 lower-case hexadecimal digits of a digest.
pub data IsEntry : AllowedPeer → Type 0 where
  by_name : {name : Text} → is_empty_text name ≡ false → IsEntry (common_name name)
  by_subject : {name : Text} → is_empty_text name ≡ false → IsEntry (subject name)
  by_digest : {f : Text} → length f ≡ 64 → all_hex f ≡ true → lower f ≡ f → IsEntry (fingerprint f)

hex-lower : (c : ℕ) → is_hex c ≡ true → is_hex (to_ascii_lowercase c) ≡ true
hex-lower c h = ground arith

lower_twice : (c : ℕ) → to_ascii_lowercase (to_ascii_lowercase c) ≡ to_ascii_lowercase c
lower_twice c = ground arith

all_hex-lower : (f : Text) → all_hex f ≡ true → all_hex (lower f) ≡ true
unfolding all_hex
all_hex-lower [] h = refl
all_hex-lower (c ∷ s) h = rw (hex-lower c (ground arith)) (all_hex-lower s (ground arith))

lower-lower : (f : Text) → lower (lower f) ≡ lower f
lower-lower [] = refl
lower-lower (c ∷ s) = rw (lower_twice c) (ap (λ t. to_ascii_lowercase c ∷ t) (lower-lower s))

length-lower : (f : Text) → length (lower f) ≡ length f
length-lower [] = refl
length-lower (c ∷ s) = rw (length-lower s) refl

read_fingerprint-IsEntry : (s : Text) (e : AllowedPeer) → read_fingerprint s ≡ ok e → IsEntry e
read_fingerprint-IsEntry s e h =
    elim (Bool-cases
      ((length (without_colons (trim s)) == 64) && all_hex (without_colons (trim s)))) [
        | inl p ↦
            let f = without_colons (trim s) in
            let is : fingerprint (lower f) ≡ e = taken (rw p at h) in
            rw (sym is) (
              by_digest (length-lower f ∙ ground arith) (all_hex-lower f (ground arith))
                (lower-lower f))
        | inr p ↦ cc (rw p at h)
      ]
  where
    taken : {a b : AllowedPeer} → ◌≡◌ {A = Result Refusal AllowedPeer} (ok a) (ok b) → a ≡ b
    taken q = cc

read_common_name-IsEntry : (s : Text) (e : AllowedPeer) → read_common_name s ≡ ok e → IsEntry e
read_common_name-IsEntry s e h = elim (Bool-cases (is_empty_text (trim s))) [
  | inl p ↦ cc (rw p at h)
  | inr p ↦ let is : common_name (trim s) ≡ e = ground arith in rw (sym is) (by_name p)
]

read_subject-IsEntry : (s : Text) (e : AllowedPeer) → read_subject s ≡ ok e → IsEntry e
read_subject-IsEntry s e h = elim (Bool-cases (is_empty_text (trim s))) [
  | inl p ↦ cc (rw p at h)
  | inr p ↦ let is : subject (trim s) ≡ e = ground arith in rw (sym is) (by_subject p)
]

-- Whatever is read as an entry of the list of peers is a common name or a subject that is not
-- empty, or a digest of 64 lower-case hexadecimal digits.
pub from_str-IsEntry : (written : Text) (e : AllowedPeer) → from_str written ≡ ok e → IsEntry e
unfolding from_str
from_str-IsEntry written e h = elim (Bool-cases (is_empty_text (trim written))) [
  | inl p ↦ cc (rw p at h)
  | inr p ↦ elim (Option-cases (strip_prefix (codes "cn:") (trim written))) [
    | inr (name, q) ↦ read_common_name-IsEntry name e (rw (p, q) at h)
    | inl q ↦ elim (Option-cases (strip_prefix (codes "dn:") (trim written))) [
      | inr (name, r) ↦ read_subject-IsEntry name e (rw (p, q, r) at h)
      | inl r ↦ elim (Option-cases (strip_prefix (codes "sha256:") (trim written))) [
        | inr (f, t) ↦ read_fingerprint-IsEntry f e (rw (p, q, r, t) at h)
        | inl t ↦ bare (rw (p, q, r, t) at h) p
      ]
    ]
  ]
]
  where
    bare :
        {value : Text} {e : AllowedPeer}
        → ◌≡◌ {A = Result Refusal AllowedPeer} (ok (common_name value)) (ok e)
        → is_empty_text value ≡ false
        → IsEntry e
    bare {value} {e} i p = let is : common_name value ≡ e = cc in rw (sym is) (by_name p)
