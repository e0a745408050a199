-- ===== src/Keys/Manager/Maintained.antt =====
-- What a whole call of `maintain` does to a ring on disk, whether it returns or fails.
use pic_x.Base.{
  ℕ, ◌≤◌, ◌≡◌, refl, sym, ◌∙◌, ap, ◌≢◌, inl, inr, true, arith, count_if, Result, ok, err,
  Bool-cases, pure, continue, subst, if◌then◌else◌, ◌>>◌,
}
use pic_x.Keys.{Ring, Maintenance, no_maintenance, KeyPolicy}
use pic_x.Keys.Lifecycle.{Evolves, Evolves-refl}
use pic_x.Keys.Rotation.{Pass, kids, is_active}
use pic_x.Keys.Rotation.Entries.{Distinct}
use pic_x.Keys.Rotation.Counting.{total, Counted-refl}
use pic_x.Keys.Disk.{
  KeyError, unavailable, backend, stuck, RingCrate, RingFile, holds, World, ring_of, read_ring,
  write_ring, io,
}
use pic_x.Keys.Disk.Post.{Post, bind_cases, Post-io, io-Post, CollisionFree, Unused}
use pic_x.Keys.Manager.{Manager, is_quiet, advance, maintain}
use pic_x.Keys.Manager.Phases.{Sound}
use pic_x.Keys.Manager.Advance.{advance-Keeps}

-- The names of the keys differ, none is made again, and at most one key signs.
pub record IsWellFormed {crate : RingCrate} (w : World crate) (r : Ring) : Type 0 where
  pub distinct : Distinct (kids r.keys)
  pub unused : Unused crate w.random (kids r.keys)
  pub single : count_if is_active r.keys ≤ 1

-- The world holds a well-formed ring that has come from `r` by moves of the lifecycle, and one of its
-- keys signs.
pub record Maintained {crate : RingCrate} (policy : KeyPolicy) (now : ℕ) (r : Ring)
    (w : World crate) : Type 0 where
  pub ring : Ring
  pub on_disk : ring_of w.ring_file ≡ ok ring
  pub well_formed : IsWellFormed w ring
  pub one_active : count_if is_active ring.keys ≡ 1
  pub evolves : Evolves policy now r.keys ring.keys

-- Both ways in which a pass can end: it has left a maintained ring, or it has failed by an error of the
-- environment and left the ring file alone.
abbrev pub Outcome :
    {crate : RingCrate}
    → KeyPolicy
    → ℕ
    → Ring
    → RingFile
    → Result KeyError Maintenance × World crate
    → Type 0
Outcome policy now r f (ok report, w) = Maintained policy now r w
Outcome policy now r f (err e, w) = (w.ring_file ≡ f) × (e ≢ stuck)

quiet-total : (r : Maintenance) → is_quiet r ≡ true → total r ≡ 0
quiet-total r h = ground arith

-- A ring is written whole, or the old file stays.
abbrev Written :
    {crate : RingCrate} → Ring → RingFile → ℕ → Result KeyError (Unit {0}) × World crate → Type 0
Written r f n (ok _, w) = (w.ring_file ≡ holds r) × (w.random ≡ n)
Written r f n (err e, w) = (w.ring_file ≡ f) × (e ≢ stuck)

module _ {crate : RingCrate} where
  pub read_ring-Post :
      (w : World crate) {r : Ring}
      → ring_of w.ring_file ≡ ok r
      → Post w.ring_file (λ a w'. (a ≡ r) × (w'.random ≡ w.random)) (read_ring w)
  unfolding read_ring
  read_ring-Post w {r} h =
      Post-io (λ a w'. (a ≡ r) × (w'.random ≡ w.random)) unavailable _ w (cc) refl
        (λ w1 f1 r1. rw (ap ring_of f1 ∙ h) (f1, (refl, r1)))

  write_ring-Written :
      (r : Ring) (w : World crate) → Written r w.ring_file w.random (write_ring r w)
  unfolding write_ring
  write_ring-Written r w =
      bind_cases w.ring_file _ (Written r w.ring_file w.random) (io backend) _ w
        (io-Post backend w (cc) refl)
        (λ _ w1 f1 r1.
          bind_cases w.ring_file _ (Written r w.ring_file w.random) (io backend) _ w1
            (io-Post backend w1 (cc) f1) (λ _ w2 f2 r2. (refl, r2 ∙ r1)) (λ e w' f n. (f, n)))
        (λ e w' f n. (f, n))

module _ {crate : RingCrate} (m : Manager) (now : ℕ) (w : World crate) (r : Ring)
    (h : ring_of w.ring_file ≡ ok r) where
  begin : Pass
  begin = record { keys = r.keys; report = no_maintenance }

  -- The ring that the pass has in memory when it comes to the report.
  kept_ring : Pass → Ring
  kept_ring p = record r { keys = p.keys }

  maintained :
      (p : Pass) (w1 w2 : World crate)
      → Sound m.policy now begin p w1
      → count_if is_active p.keys ≡ 1
      → ring_of w2.ring_file ≡ ok (kept_ring p)
      → w2.random ≡ w1.random
      → Maintained m.policy now r w2
  unfolding begin kept_ring
  maintained p w1 w2 k one d q = record {
    ring = kept_ring p;
    on_disk = d;
    well_formed = record {
      distinct = k.distinct;
      unused = rw q k.unused;
      single = omega (arith, one);
    };
    one_active = one;
    evolves = k.evolves;
  }

  saved_ring :
      (p : Pass) (w1 : World crate)
      → Sound m.policy now begin p w1
      → count_if is_active p.keys ≡ 1
      → (x : Result KeyError (Unit {0}) × World crate)
      → Written (kept_ring p) w.ring_file w1.random x
      → Outcome m.policy now r w.ring_file (continue x.0 (λ _. pure p.report) x.1)
  saved_ring p w1 k one (ok _, w2) (f, q) = maintained p w1 w2 k one (ap ring_of f) q
  saved_ring p w1 k one (err e, w2) fails = fails

  finish :
      (p : Pass) (w1 : World crate)
      → w1.ring_file ≡ w.ring_file
      → Sound m.policy now begin p w1
      → count_if is_active p.keys ≡ 1
      → Outcome m.policy now r w.ring_file (
          (if is_quiet p.report
              then pure p.report
              else (do write_ring (kept_ring p); pure p.report))
            w1)
  finish p w1 f k one = elim (Bool-cases (is_quiet p.report)) [
    | inl quiet ↦ rw quiet (maintained p w1 w1 k one (ap ring_of f ∙ h ∙ unchanged quiet) refl)
    | inr changed ↦ rw changed (
        saved_ring p w1 k one (write_ring (kept_ring p) w1) (
          subst (λ g. Written (kept_ring p) g w1.random (write_ring (kept_ring p) w1)) f
            (write_ring-Written (kept_ring p) w1)))
  ]
    where
      unchanged :
          is_quiet p.report ≡ true → ◌≡◌ {A = Result KeyError Ring} (ok r) (ok (kept_ring p))
      unchanged quiet =
          unfold begin kept_ring in
          ap (λ ks. ok (record r { keys = ks }))
            (sym (k.counted.still (quiet-total p.report quiet)))

  -- Let the ring file hold a ring whose key names differ, of which no key made later takes a name,
  -- and in which at most one key is active; and let keys made at different numbers have different
  -- names. Then maintain ends in one of two ways. If it returns, the ring file holds a ring of the
  -- same kind, exactly one key in it is active, and it has come from the old ring by steps of the
  -- key lifecycle alone: each key descends from one that was there or is created in this pass, and
  -- a key leaves only when it has been retired for the whole verification retention. If it fails,
  -- the ring file is unchanged, and the failure is none of an endless loop.
  pub maintain-Outcome :
      CollisionFree crate → IsWellFormed w r → Outcome m.policy now r w.ring_file (maintain m now w)
  unfolding maintain begin kept_ring
  maintain-Outcome free v =
      bind_cases w.ring_file _ (Outcome m.policy now r w.ring_file) read_ring _ w
        (read_ring-Post w h)
        (λ a w1 f1 q. rw q.0 (
          bind_cases w.ring_file _ (Outcome m.policy now r w.ring_file) (advance m now begin) _ w1
            (advance-Keeps free m now begin w.ring_file w1 f1 (start w1 q.1) v.single)
            (λ p w2 f2 k. finish p w2 f2 k.0 k.1) (λ e w' f n. (f, n))))
        (λ e w' f n. (f, n))
    where
      start : (w1 : World crate) → w1.random ≡ w.random → Sound m.policy now begin begin w1
      start w1 q = record {
        distinct = v.distinct;
        unused = rw q v.unused;
        evolves = Evolves-refl r.keys;
        counted = Counted-refl begin;
      }
