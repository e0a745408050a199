-- ===== src/Audit/Trail/Chain.antt =====
-- What a trail is, apart from how it is checked: records that name one another's digests, numbered
-- without a gap.
use pic_x.Base.{
  ℕ, suc, ◌+◌, ◌≡◌, refl, sym, ◌∙◌, ap, Text, List, [], ◌∷◌, ◌++◌, arith, length, map_opt,
}
use mathlib.Core.List.{append_assoc}
use pic_x.Base.Int.{ℤ}
use pic_x.Audit.Trail.{Body, Record, Line, blank, garbled, entry, records_of, all_lines}

-- The digest of the last record, or of what came before.
unfoldable pub head : Text → List Record → Text
head prev [] = prev
head prev (r ∷ rs) = head r.digest rs

module _ (digest_of : Body → Text) where
  -- Each record has its own digest, names the one before it, and has the next number.
  abbrev pub Chain : Text → ℕ → List Record → Type 0
  Chain prev seq [] = Unit {0}
  Chain prev seq (r ∷ rs) =
      (digest_of r.body ≡ r.digest)
      × (r.body.prev ≡ prev)
      × (r.body.seq ≡ seq)
      × Chain r.digest (suc seq) rs

  pub Chain-append :
      (prev : Text) (seq : ℕ) (xs ys : List Record)
      → Chain prev seq xs
      → Chain (head prev xs) (seq + length xs) ys
      → Chain prev seq (xs ++ ys)
  unfolding head
  Chain-append prev seq [] ys c d = rw (at_zero) d
    where
      at_zero : seq ≡ seq + 0
      at_zero = omega arith
  Chain-append prev seq (x ∷ xs) ys c d =
      (c.0, c.1, c.2, Chain-append x.digest (suc seq) xs ys c.3 (rw (next) d))
    where
      next : suc seq + length xs ≡ seq + suc (length xs)
      next = omega arith

  pub Chain-split :
      (prev : Text) (seq : ℕ) (xs ys : List Record)
      → Chain prev seq (xs ++ ys)
      → Chain prev seq xs × Chain (head prev xs) (seq + length xs) ys
  unfolding head
  Chain-split prev seq [] ys c = (tt, rw (at_zero) c)
    where
      at_zero : seq + 0 ≡ seq
      at_zero = omega arith
  Chain-split prev seq (x ∷ xs) ys c =
      let (d, e) = Chain-split x.digest (suc seq) xs ys c.3 in ((c.0, c.1, c.2, d), rw (next) e)
    where
      next : seq + suc (length xs) ≡ suc seq + length xs
      next = omega arith

pub head-append :
    (prev : Text) (xs ys : List Record) → head prev (xs ++ ys) ≡ head (head prev xs) ys
unfolding head
head-append prev [] ys = refl
head-append prev (x ∷ xs) ys = head-append x.digest xs ys

pub records_of-append : (l m : List Line) → records_of (l ++ m) ≡ records_of l ++ records_of m
unfolding records_of map_opt
records_of-append [] m = refl
records_of-append (blank ∷ l) m = records_of-append l m
records_of-append (garbled ∷ l) m = records_of-append l m
records_of-append (entry r ∷ l) m = ap (λ z. r ∷ z) (records_of-append l m)

pub all_lines-append :
    (older newer : List (ℤ × List Line))
    → all_lines (older ++ newer) ≡ all_lines older ++ all_lines newer
unfolding all_lines
all_lines-append [] newer = refl
all_lines-append ((day, l) ∷ older) newer =
    ap (λ z. l ++ z) (all_lines-append older newer)
    ∙ sym (append_assoc l (all_lines older) (all_lines newer))
