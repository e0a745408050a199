-- ===== src/Audit/Event/Masks.antt =====
-- What a mask and a rendered subject let through.
use pic_x.Base.{
  ℕ, ◌+◌, ◌-◌, ◌≤◌, ◌<◌, ◌≡◌, refl, Text, ◌++◌, [], ◌∷◌, arith, ltb, length, drop, min, ◌⊎◌, inl,
  inr, Bool-cases, ◌==◌, zero, suc,
}
use pic_x.Audit.Event.{mask, max_tail, tail, render_mask, shown}

drop-length-lt : (n : ℕ) (s : Text) → n ≤ length s → length (drop n s) + n ≡ length s
drop-length-lt zero s h = omega arith
drop-length-lt (suc n) [] h = absurd (omega arith)
drop-length-lt (suc n) (c ∷ s) h = omega (arith, drop-length-lt n s (omega arith))

drop-length_all : (s : Text) → drop (length s) s ≡ []
drop-length_all [] = refl
drop-length_all (c ∷ s) = drop-length_all s

-- What the mask shows: a text of at most four characters, which is not the whole value.
abbrev Shows : Text → Text → Type 0
Shows value shown =
    (n : ℕ) × (shown ≡ mask ++ drop n value)
    × (length (drop n value) ≤ max_tail)
    × ((length (drop n value) < length value) ⊎ (value ≡ []))

Shows-full : (value : Text) → Shows value mask
Shows-full value = (
  length value,
  rw drop-length_all refl,
  rw drop-length_all (omega arith),
  rw drop-length_all (empty_or value),
)
  where
    empty_or : (v : Text) → (0 < length v) ⊎ (v ≡ [])
    empty_or [] = inr refl
    empty_or (c ∷ s) = inl (omega arith)

-- A value shown by its tail reads as the mask followed by an end of the value of at most four
-- characters, which is shorter than the value unless the value is empty.
pub render_mask-tail :
    (value : Text) (keep : ℕ)
    → (n : ℕ) × (render_mask (tail value keep) ≡ mask ++ drop n value)
      × (length (drop n value) ≤ max_tail)
      × ((length (drop n value) < length value) ⊎ (value ≡ []))
unfolding render_mask tail
render_mask-tail value keep = elim (Bool-cases (ltb (min keep max_tail) (length value))) [
  | inr too_long ↦ rw too_long (Shows-full value)
  | inl part ↦ elim (Bool-cases (min keep max_tail == 0)) [
    | inl zero_tail ↦ rw part (rw zero_tail (Shows-full value))
    | inr some_tail ↦ rw part (
        rw some_tail (
          let l : length (drop (length value - min keep max_tail) value)
                + (length value - min keep max_tail)
              ≡ length value =
            drop-length-lt (length value - min keep max_tail) value (omega arith) in
          let k : min keep max_tail < length value = ground arith in
          let z : 0 < min keep max_tail = ground arith in
          (length value - min keep max_tail, refl, omega (arith, l, k), inl (omega (arith, l, k)))))
  ]
]
