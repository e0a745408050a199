-- ===== src/Transport/Guard/Closing.antt =====
-- A connection that ends, and all that can happen to a surface.
use pic_x.Base.{
  ℕ, suc, ◌+◌, ◌-◌, ◌≤◌, ◌≡◌, refl, sym, ◌∙◌, ap, subst, ◌↔◌, inl, inr, Option, none, some, List,
  [], ◌∷◌, ◌++◌, true, false, ◌==◌, arith, All, length, Result, ok, err, Bool-cases,
}
use pic_x.Base.Int.{pos}
use pic_x.Limits.{IpAddr, Limits}
use pic_x.Transport.Guard.{
  PeerHeld, LimitedAcceptor, Guarded, IoError, eq_ip, lowered, accept, release_peer, drop_guarded,
}
use pic_x.Transport.Guard.Counting.{
  Surface, Step, opens, refuses, closes, Steps, done, more, fresh, is_bounded, counts_for,
  connections_of, held_of, eq_ip_refl, IsTable, keep-IsTable, put-IsTable,
}
use pic_x.Transport.Guard.Bounded.{
  tag_of, HasRoom, IsCounted, Accepts, accept-Accepts, not_other, above_zero, pos_pred,
}

-- A connection among others.
connections_of-middle :
    (x : IpAddr) (xs ys : List (Option IpAddr × Guarded)) (address : Option IpAddr) (g : Guarded)
    → connections_of x (xs ++ (address, g) ∷ ys)
      ≡ counts_for x address + connections_of x (xs ++ ys)
unfolding connections_of
connections_of-middle x [] ys address g = refl
connections_of-middle x ((y, h) ∷ xs) ys address g =
    omega (arith, connections_of-middle x xs ys address g)

length-middle :
    (xs ys : List (Option IpAddr × Guarded)) (c : Option IpAddr × Guarded)
    → length (xs ++ c ∷ ys) ≡ suc (length (xs ++ ys))
length-middle [] ys c = refl
length-middle (x ∷ xs) ys c = omega (arith, length-middle xs ys c)

All-middle :
    (P : Option IpAddr × Guarded → Type 0) (xs ys : List (Option IpAddr × Guarded))
    (c : Option IpAddr × Guarded)
    → All P (xs ++ c ∷ ys)
    → P c × All P (xs ++ ys)
All-middle P [] ys c h = h
All-middle P (x ∷ xs) ys c h = let (a, b) = All-middle P xs ys c h.1 in (a, (h.0, b))

counts_for-other : (x y : IpAddr) → eq_ip x y ≡ false → counts_for x (some y) ≡ 0
counts_for-other x y q = rw q refl

counts_for-same : (y : IpAddr) → counts_for y (some y) ≡ 1
counts_for-same y = rw (eq_ip_refl y) refl

held_of-lowered : (o : Option PeerHeld) → held_of (lowered o) ≡ held_of o - 1
held_of-lowered none = omega arith
held_of-lowered (some p) = elim (Bool-cases (p.held - 1 == 0)) [
  | inl z ↦ rw z (ground (arith, z))
  | inr z ↦ rw z refl
]

lowered-above_zero : (o : Option PeerHeld) (p : PeerHeld) → lowered o ≡ some p → 1 ≤ p.held
lowered-above_zero none p e = cc
lowered-above_zero (some q) p e = elim (Bool-cases (q.held - 1 == 0)) [
  | inl z ↦ cc (rw z at e)
  | inr z ↦ above_zero (record q { held = q.held - 1 }) (ground (arith, z)) p (rw z at e)
]

-- One connection less for the address that it is counted for.
release_peer-IsTable :
    (a : LimitedAcceptor) (address peer : Option IpAddr)
    (live live' : List (Option IpAddr × Guarded))
    → peer ≡ tag_of a.limits address
    → ((x : IpAddr) → connections_of x live ≡ counts_for x address + connections_of x live')
    → IsTable a.limits a.peers live
    → IsTable a.limits (release_peer peer a).peers live'
unfolding release_peer
release_peer-IsTable a none peer live live' e h t =
    rw e (keep-IsTable a.limits a.peers live live' t (λ x b. omega (arith, h x)))
release_peer-IsTable a (some y) peer live live' e h t = elim (Bool-cases (is_bounded a.limits y)) [
  | inl b ↦
      let fewer : connections_of y live ≡ 1 + connections_of y live' =
        h y ∙ ap (λ n. n + connections_of y live') (counts_for-same y) in
      rw (e, b)
        (put-IsTable a.limits a.peers live live' t y (lowered (a.peers y)) b
          (lowered-above_zero (a.peers y)) (λ x q. omega (arith, h x, counts_for-other x y q))
          (omega (arith, held_of-lowered (a.peers y), t.exact y b, fewer))
          (omega (arith, t.within y b, fewer)))
  | inr b ↦
      rw (e, b)
        (keep-IsTable a.limits a.peers live live' t
          (λ x c. omega (arith, h x, counts_for-other x y (not_other a.limits x y c b))))
]

pub closed-IsCounted :
    (s : Surface) (xs ys : List (Option IpAddr × Guarded)) (address : Option IpAddr) (g : Guarded)
    → s.live ≡ xs ++ (address, g) ∷ ys
    → IsCounted s
    → IsCounted (record { acceptor = drop_guarded g s.acceptor; live = xs ++ ys })
      × ((drop_guarded g s.acceptor).limits ≡ s.acceptor.limits)
unfolding drop_guarded release_peer
closed-IsCounted s xs ys address g e c =
    let (tag, others) =
      All-middle (λ z. z.1.peer ≡ tag_of s.acceptor.limits z.0) xs ys (address, g)
        (subst (All _) e c.tagged) in
    let n : length s.live ≡ suc (length (xs ++ ys)) =
      ap length e ∙ length-middle xs ys (address, g) in
    (
      record {
        sized = c.sized;
        pool = omega (arith, c.pool, n);
        total = rw (c.total, n) (pos_pred (length (xs ++ ys)));
        table =
            release_peer-IsTable s.acceptor address g.peer s.live (xs ++ ys) tag
              (λ x. ap (connections_of x) e ∙ connections_of-middle x xs ys address g) c.table;
        tagged = others;
      },
      refl,
    )

fresh-IsCounted : (l : Limits) → IsCounted (fresh l)
unfolding connections_of
fresh-IsCounted l = record {
  sized = refl;
  pool = omega arith;
  total = refl;
  table = record {
    exact = λ x b. refl;
    unheld = λ x b. refl;
    kept = λ x p e. cc;
    within = λ x b. omega arith;
  };
  tagged = tt;
}

Step-IsCounted :
    {s t : Surface} → Step s t → IsCounted s → IsCounted t × (t.acceptor.limits ≡ s.acceptor.limits)
Step-IsCounted {s} (opens now address e) c =
    let (_, kept, same) = subst (Accepts s address) e (accept-Accepts now s address c) in
    (kept, same)
Step-IsCounted {s} (refuses now address e) c =
    let (_, kept, same) = subst (Accepts s address) e (accept-Accepts now s address c) in
    (kept, same)
Step-IsCounted {s} (closes xs ys address g e) c = closed-IsCounted s xs ys address g e c

pub Steps-IsCounted :
    {l : Limits} {s : Surface} → Steps (fresh l) s → IsCounted s × (s.acceptor.limits ≡ l)
Steps-IsCounted {l} done = (fresh-IsCounted l, refl)
Steps-IsCounted (more steps step) =
    let (c, e) = Steps-IsCounted steps in let (c', e') = Step-IsCounted step c in (c', e' ∙ e)

-- The bounds that hold of a surface.
abbrev pub Within : Limits → Surface → Type 0
Within l s =
    (length s.live ≤ l.connections)
    × (s.acceptor.permits + length s.live ≡ l.connections)
    × (s.acceptor.held ≡ pos (length s.live))
    × ((x : IpAddr) → is_bounded l x ≡ true → connections_of x s.live ≤ l.connections_per_peer)
    × ((x : IpAddr) (p : PeerHeld)
        → s.acceptor.peers x ≡ some p
        → (1 ≤ p.held) × (p.held ≡ connections_of x s.live))

IsCounted-Within : (s : Surface) → IsCounted s → Within s.acceptor.limits s
IsCounted-Within s c = (
  omega (arith, c.pool, c.sized),
  c.pool ∙ c.sized,
  c.total,
  c.table.within,
  λ x p e. (c.table.kept x p e, exact x p e),
)
  where
    exact :
        (x : IpAddr) (p : PeerHeld) → s.acceptor.peers x ≡ some p → p.held ≡ connections_of x s.live
    exact x p e = elim (Bool-cases (is_bounded s.acceptor.limits x)) [
      | inl b ↦ ap held_of (sym e) ∙ c.table.exact x b
      | inr b ↦ let n = c.table.unheld x b in cc
    ]

-- However connections come, are refused and end on a surface that starts empty, it holds no more
-- than its limit; the permits that are left and the connections make up the limit; the published
-- number is the number of connections; an address that is neither exempt nor unbounded has no more
-- than the bound on one address; and the table has an entry only for an address that has
-- connections, with their number.
pub Steps-Within : (l : Limits) (s : Surface) → Steps (fresh l) s → Within l s
Steps-Within l s steps =
    let (c, e) = Steps-IsCounted steps in subst (λ z. Within z s) e (IsCounted-Within s c)

-- A connection from the address is let in.
abbrev pub Answered : Surface → ℕ → Option IpAddr → Type 0
Answered s now address =
    (g : Guarded) × (a : LimitedAcceptor) × (accept now address s.acceptor ≡ (ok g, a))

-- On a surface that has come to be from an empty one, a connection is let in exactly when the
-- surface holds fewer than its limit and the address, where there is one and it is bounded, has
-- fewer than the bound on one address.
pub accept_iff :
    (l : Limits) (s : Surface) (now : ℕ) (address : Option IpAddr)
    → Steps (fresh l) s
    → Answered s now address ↔ HasRoom l address s.live
accept_iff l s now address steps =
    let (c, e) = Steps-IsCounted steps in
    subst (λ z. Answered s now address ↔ HasRoom z address s.live) e
      (
        taken c,
        λ room. has (accept now address s.acceptor) refl (accept-Accepts now s address c) room,
      )
  where
    taken : IsCounted s → Answered s now address → HasRoom s.acceptor.limits address s.live
    taken c (g, a, h) = (subst (Accepts s address) h (accept-Accepts now s address c)).0

    has :
        (r : Result IoError Guarded × LimitedAcceptor)
        → accept now address s.acceptor ≡ r
        → Accepts s address r
        → HasRoom s.acceptor.limits address s.live
        → Answered s now address
    has (ok g, a) h k room = (g, a, h)
    has (err x, a) h k room = absurd (k.0 room)
