-- ===== src/Keys/Manager/Advance.antt =====
-- Each phase of a maintenance pass, and the whole pass over the entries: the names stay apart, keys
-- move as the lifecycle allows, what changed is counted, the ring file is left alone, and in the end
-- one key signs.
use pic_x.Base.{
  ℕ, ◌+◌, ◌≤◌, ◌<◌, ◌≡◌, refl, ◌∙◌, ◌≢◌, inl, inr, List, [], ◌∷◌, ◌++◌, Bool, true, false, not,
  if◌then◌else◌, ◌&&◌, any, arith, Bool-cases, count_if, count_if-append, lift,
}
use pic_x.Keys.{RingAlgorithm, Entry}
use pic_x.Keys.Lifecycle.{Evolves-trans}
use pic_x.Keys.Rotation.{
  Pass, is_active, successor_due, waiting, active_is_current, retire_active, take_over, to_archive,
  to_forget, settle,
}
use pic_x.Keys.Rotation.Handover.{kids-retire, count_active-retire}
use pic_x.Keys.Rotation.Moves.{retire_active-Evolves}
use pic_x.Keys.Rotation.Ends.{take_over_ends}
use pic_x.Keys.Rotation.Counting.{Counted-trans, retire_active-Counted, settle-Counted}
use pic_x.Keys.Rotation.Settling.{settled-Evolves, settled-Distinct, settled-active, settled-All}
use pic_x.Keys.Disk.{RingCrate, RingFile, World, stuck, or_fail, forget_all}
use pic_x.Keys.Disk.Post.{Post, Post-bind, Post-weaken, CollisionFree, forget_all-Post}
use pic_x.Keys.Manager.{
  Manager, is_empty, first_key, switch_algorithm, publish_successor, sweep, advance, rounds,
}
use pic_x.Keys.Manager.Phases.{Kept, Joins, create-Joins}

is_empty-count : (keys : List Entry) → is_empty keys ≡ true → count_if is_active keys ≡ 0
unfolding count_if
is_empty-count [] h = refl
is_empty-count (e ∷ es) h = cc

is_empty-append : (keys : List Entry) (e : Entry) → is_empty (keys ++ e ∷ []) ≡ false
is_empty-append [] e = refl
is_empty-append (d ∷ ds) e = refl

current-count :
    (algorithm : RingAlgorithm) (keys : List Entry)
    → active_is_current algorithm keys ≡ true
    → 0 < count_if is_active keys
unfolding any count_if
current-count algorithm [] h = cc
current-count algorithm (e ∷ es) h = ground (arith, current-count algorithm es)

count-joined :
    (keys : List Entry) (e : Entry) (b : Bool)
    → is_active e ≡ b
    → count_if is_active (keys ++ e ∷ []) ≡ count_if is_active keys + (if b then 1 else 0)
unfolding count_if
count-joined keys e b h = ground (arith, count_if-append is_active keys (e ∷ []))

module _ {crate : RingCrate} (free : CollisionFree crate) (m : Manager) (now : ℕ) (p0 : Pass)
    (f : RingFile) where
  abbrev Keeps : Pass → World crate → Type 0
  Keeps = Kept free m now p0 f

  abbrev OneActive : Pass → Type 0
  OneActive p = count_if is_active p.keys ≡ 1

  first_key-Keeps :
      (p : Pass) (w : World crate)
      → w.ring_file ≡ f
      → Keeps p w
      → count_if is_active p.keys ≤ 1
      → Post f
          (λ q w'. Keeps q w' × (is_empty q.keys ≡ false) × (count_if is_active q.keys ≤ 1))
          (first_key m now p w)
  unfolding first_key
  first_key-Keeps p w fe k c = elim (Bool-cases (is_empty p.keys)) [
    | inl h ↦ rw h (
        Post-weaken f (λ q w' g. let (a, b) = g in let (c, d) = filled p h b in (a, c, d)) _
          (create-Joins free m now p0 f true p w fe k))
    | inr h ↦ rw h (fe, (k, h, c))
  ]
    where
      filled :
          (p : Pass)
          → is_empty p.keys ≡ true
          → {q : Pass} → Joins free m now p0 f true p q
          → (is_empty q.keys ≡ false) × (count_if is_active q.keys ≤ 1)
      filled p h (e, j, a, _) = rw j (
        is_empty-append p.keys e,
        omega (arith, count-joined p.keys e true a, is_empty-count p.keys h),
      )

  retired-Keeps : (p : Pass) (w : World crate) → Keeps p w → Keeps (retire_active now p) w
  unfolding retire_active
  retired-Keeps p w k = record {
    distinct = rw kids-retire k.distinct;
    unused = rw kids-retire k.unused;
    evolves = Evolves-trans k.evolves (retire_active-Evolves m.policy now p);
    counted = Counted-trans k.counted (retire_active-Counted now p);
  }

  retired_none : (p : Pass) → count_if is_active (retire_active now p).keys ≡ 0
  unfolding retire_active
  retired_none p = count_active-retire now p.keys

  switch_algorithm-Keeps :
      (p : Pass) (w : World crate)
      → w.ring_file ≡ f
      → Keeps p w
      → is_empty p.keys ≡ false
      → count_if is_active p.keys ≤ 1
      → Post f (λ q w'. Keeps q w' × OneActive q) (switch_algorithm m now p w)
  unfolding switch_algorithm
  switch_algorithm-Keeps p w fe k e c = elim (Bool-cases (active_is_current m.algorithm p.keys)) [
    | inl h ↦ rw h (fe, (k, omega (arith, current-count m.algorithm p.keys h)))
    | inr h ↦
        rw (h, e)
          (Post-weaken f (λ q w' g. let (a, b) = g in (a, switched b)) _
            (create-Joins free m now p0 f true (retire_active now p) w fe (retired-Keeps p w k)))
  ]
    where
      switched : {q : Pass} → Joins free m now p0 f true (retire_active now p) q → OneActive q
      switched (e, j, a, _) =
          rw j (omega (arith, count-joined (retire_active now p).keys e true a, retired_none p))

  loop-Keeps :
      (p : Pass) (w : World crate)
      → w.ring_file ≡ f
      → Keeps p w
      → OneActive p
      → Post f
          (λ q w'. Keeps q w' × OneActive q)
          (lift (or_fail stuck (take_over m.policy now (rounds p) p)) w)
  loop-Keeps p w fe k c =
      let (q, e, s) = take_over_ends m.policy now (rounds p) p k.distinct c (omega arith) in
      rw e (
        fe,
        (
          record {
            distinct = rw s.names k.distinct;
            unused = rw s.names k.unused;
            evolves = Evolves-trans k.evolves s.evolves;
            counted = Counted-trans k.counted s.counted;
          },
          s.one_active,
        ),
      )

  publish_successor-Keeps :
      (p : Pass) (w : World crate)
      → w.ring_file ≡ f
      → Keeps p w
      → OneActive p
      → Post f (λ q w'. Keeps q w' × OneActive q) (publish_successor m now p w)
  unfolding publish_successor
  publish_successor-Keeps p w fe k c =
      elim (Bool-cases (successor_due m.policy now p.keys && not (waiting p.keys))) [
        | inl h ↦ rw h (
            Post-weaken f (λ q w' g. let (a, b) = g in (a, still b)) _
              (create-Joins free m now p0 f false p w fe k))
        | inr h ↦ rw h (fe, (k, c))
      ]
    where
      still : {q : Pass} → Joins free m now p0 f false p q → OneActive q
      still (e, j, a, _) = rw j (omega (arith, count-joined p.keys e false a))

  swept-Keeps :
      (p : Pass) (w w' : World crate)
      → Keeps p w
      → w'.random ≡ w.random
      → Keeps (settle (to_archive m.policy now p.keys) (to_forget m.policy now p.keys) p) w'
  unfolding settle
  swept-Keeps p w w' k r = record {
    distinct = settled-Distinct m.policy now p.keys k.distinct;
    unused = λ a n x h g.
        settled-All m.policy now p.keys k.distinct (λ j. j ≢ x)
          (k.unused a n x (omega (arith, r)) g);
    evolves = Evolves-trans k.evolves (settled-Evolves m.policy now p.keys k.distinct);
    counted =
        Counted-trans k.counted
          (settle-Counted (to_archive m.policy now p.keys) (to_forget m.policy now p.keys) p);
  }

  sweep-Keeps :
      (p : Pass) (w : World crate)
      → w.ring_file ≡ f
      → Keeps p w
      → OneActive p
      → Post f (λ q w'. Keeps q w' × OneActive q) (sweep m now p w)
  unfolding sweep
  sweep-Keeps p w fe k c =
      Post-bind f (λ _ w'. w'.random ≡ w.random) (λ q w'. Keeps q w' × OneActive q)
        (forget_all (to_archive m.policy now p.keys ++ to_forget m.policy now p.keys)) _ w
        (forget_all-Post _ w fe)
        λ _ w' fe' r. (
          fe',
          (
            swept-Keeps p w w' k r,
            unfold settle in settled-active m.policy now p.keys k.distinct ∙ c,
          ),
        )

  -- The whole pass over the entries.
  pub advance-Keeps :
      (w : World crate)
      → w.ring_file ≡ f
      → Keeps p0 w
      → count_if is_active p0.keys ≤ 1
      → Post f (λ q w'. Keeps q w' × OneActive q) (advance m now p0 w)
  unfolding advance
  advance-Keeps w fe k c =
      Post-bind f _ _ (first_key m now p0) _ w (first_key-Keeps p0 w fe k c)
        λ p1 w1 f1 (k1, e1, c1).
          Post-bind f _ _ (switch_algorithm m now p1) _ w1
            (switch_algorithm-Keeps p1 w1 f1 k1 e1 c1)
            λ p2 w2 f2 (k2, c2).
              Post-bind f _ _ (lift (or_fail stuck (take_over m.policy now (rounds p2) p2))) _ w2
                (loop-Keeps p2 w2 f2 k2 c2)
                λ p3 w3 f3 (k3, c3).
                  Post-bind f _ _ (publish_successor m now p3) _ w3
                    (publish_successor-Keeps p3 w3 f3 k3 c3)
                    λ p4 w4 f4 (k4, c4). sweep-Keeps p4 w4 f4 k4 c4
