-- ===== src/Transport/Guard/Bounded.antt =====
-- That a surface stays within its limits, whatever comes and goes.
use pic_x.Base.{
  ℕ, suc, ◌+◌, ◌-◌, ◌≤◌, ◌<◌, ◌≡◌, refl, sym, ap, subst, inl, inr, Option, none, some, List, ◌∷◌,
  true, false, if◌then◌else◌, ◌||◌, ◌==◌, leb, arith, All, length, Result, ok, err, Bool-cases,
}
use pic_x.Base.Int.{pos, ◌+ℤ◌, ◌-ℤ◌}
use pic_x.Limits.{IpAddr, Limits, is_peer_exempt}
use pic_x.Transport.Guard.{
  PeerHeld, LimitedAcceptor, Guarded, IoError, eq_ip, put, or_default, admit_peer, guarded,
  admitted, accept,
}
use pic_x.Transport.Guard.Counting.{
  Surface, is_bounded, connections_of, held_of, eq_ip_sound, eq_ip_refl, IsTable, keep-IsTable,
  put-IsTable,
}

-- The address that a connection is counted for.
abbrev pub tag_of : Limits → Option IpAddr → Option IpAddr
tag_of l none = none
tag_of l (some x) = if is_bounded l x then some x else none

pub record IsCounted (s : Surface) : Type 0 where
  pub sized : s.acceptor.capacity ≡ s.acceptor.limits.connections
  pub pool : s.acceptor.permits + length s.live ≡ s.acceptor.capacity
  pub total : s.acceptor.held ≡ pos (length s.live)
  pub table : IsTable s.acceptor.limits s.acceptor.peers s.live
  pub tagged : All (λ c. c.1.peer ≡ tag_of s.acceptor.limits c.0) s.live

-- The address has room for one more.
abbrev pub HasPeerRoom : Limits → Option IpAddr → List (Option IpAddr × Guarded) → Type 0
HasPeerRoom l none live = Unit {0}
HasPeerRoom l (some x) live = is_bounded l x ≡ true → connections_of x live < l.connections_per_peer

abbrev pub HasRoom : Limits → Option IpAddr → List (Option IpAddr × Guarded) → Type 0
HasRoom l address live = (length live < l.connections) × HasPeerRoom l address live

-- The two ways in which a connection is answered.
abbrev pub Accepts : Surface → Option IpAddr → Result IoError Guarded × LimitedAcceptor → Type 0
Accepts s address (ok g, a) =
    HasRoom s.acceptor.limits address s.live
    × IsCounted (record { acceptor = a; live = (address, g) ∷ s.live })
    × (a.limits ≡ s.acceptor.limits)
Accepts s address (err e, a) =
    ¬ (HasRoom s.acceptor.limits address s.live)
    × IsCounted (record { acceptor = a; live = s.live })
    × (a.limits ≡ s.acceptor.limits)

-- What the count of one address makes of the connection.
abbrev Admits :
    LimitedAcceptor
    → List (Option IpAddr × Guarded)
    → Option IpAddr
    → Option (Option IpAddr) × LimitedAcceptor
    → Type 0
Admits a live address (none, a') =
    (p : IpAddr → Option PeerHeld) × (a' ≡ record a { peers = p })
    × ¬ (HasPeerRoom a.limits address live)
    × IsTable a.limits p live
Admits a live address (some peer, a') =
    (p : IpAddr → Option PeerHeld) × (a' ≡ record a { peers = p })
    × (peer ≡ tag_of a.limits address)
    × HasPeerRoom a.limits address live
    × ((g : Guarded) → IsTable a.limits p ((address, g) ∷ live))

pub not_other :
    (l : Limits) (x y : IpAddr) → is_bounded l x ≡ true → is_bounded l y ≡ false → eq_ip x y ≡ false
not_other l x y b c = elim (Bool-cases (eq_ip x y)) [
  | inl q ↦ let z = ap (is_bounded l) (eq_ip_sound x y q) in cc
  | inr q ↦ q
]

pub above_zero : (q : PeerHeld) → 1 ≤ q.held → (p : PeerHeld) → some q ≡ some p → 1 ≤ p.held
above_zero q h p e = let z : q ≡ p = cc in subst (λ x. 1 ≤ x.held) z h

-- The three ways of `admit_peer` for an address: no bound, no room, and room.
module _ (a : LimitedAcceptor) (live : List (Option IpAddr × Guarded)) (y : IpAddr)
    (t : IsTable a.limits a.peers live) where
  unbounded-Admits :
      a.limits.connections_per_peer == 0 || is_peer_exempt a.limits y ≡ true
      → Admits a live (some y) (admit_peer (some y) a)
  unfolding admit_peer connections_of
  unbounded-Admits f =
      let b : is_bounded a.limits y ≡ false = rw f refl in
      rw f (
        a.peers,
        refl,
        rw f refl,
        (λ c. cc),
        λ g.
            keep-IsTable a.limits a.peers live ((some y, g) ∷ live) t
              (λ x c. rw (not_other a.limits x y c b) (omega arith)),
      )

  full-Admits :
      a.limits.connections_per_peer == 0 || is_peer_exempt a.limits y ≡ false
      → leb a.limits.connections_per_peer (held_of (a.peers y)) ≡ true
      → Admits a live (some y) (admit_peer (some y) a)
  unfolding admit_peer connections_of
  full-Admits f full =
      let b : is_bounded a.limits y ≡ true = rw f refl in
      let exact = t.exact y b in
      let warned = record (or_default (a.peers y)) { warned = true } in
      rw (f, full)
        (
          put y (some warned) a.peers,
          refl,
          (λ r. ground (arith, r, exact, full)),
          put-IsTable a.limits a.peers live live t y (some warned) b
              (above_zero warned (ground (arith, full, f))) (λ x q. refl) exact (t.within y b),
        )

  free-Admits :
      a.limits.connections_per_peer == 0 || is_peer_exempt a.limits y ≡ false
      → leb a.limits.connections_per_peer (held_of (a.peers y)) ≡ false
      → Admits a live (some y) (admit_peer (some y) a)
  unfolding admit_peer connections_of
  free-Admits f free =
      let b : is_bounded a.limits y ≡ true = rw f refl in
      let exact = t.exact y b in
      let more = record (or_default (a.peers y)) { held = suc (held_of (a.peers y)) } in
      rw (f, free)
        (
          put y (some more) a.peers,
          refl,
          rw f refl,
          (λ c. ground (arith, exact, free)),
          λ g.
              put-IsTable a.limits a.peers live ((some y, g) ∷ live) t y (some more) b
                (above_zero more (omega arith)) (λ x q. rw q (omega arith))
                (rw eq_ip_refl (omega (arith, exact)))
                (rw eq_ip_refl (ground (arith, exact, free))),
        )

admit_peer-Admits :
    (a : LimitedAcceptor) (live : List (Option IpAddr × Guarded)) (address : Option IpAddr)
    → IsTable a.limits a.peers live
    → Admits a live address (admit_peer address a)
unfolding admit_peer connections_of
admit_peer-Admits a live none t = (
  a.peers,
  refl,
  refl,
  tt,
  λ g. keep-IsTable a.limits a.peers live ((none, g) ∷ live) t (λ x b. omega arith),
)
admit_peer-Admits a live (some y) t =
    elim (Bool-cases (a.limits.connections_per_peer == 0 || is_peer_exempt a.limits y)) [
      | inl unbounded ↦ unbounded-Admits a live y t unbounded
      | inr bounded ↦ elim (Bool-cases (leb a.limits.connections_per_peer (held_of (a.peers y)))) [
        | inl full ↦ full-Admits a live y t bounded full
        | inr free ↦ free-Admits a live y t bounded free
      ]
    ]

pos_suc : (n : ℕ) → pos n +ℤ pos 1 ≡ pos (suc n)
unfolding ◌+ℤ◌
pos_suc n = ground arith

pub pos_pred : (n : ℕ) → pos (suc n) -ℤ pos 1 ≡ pos n
unfolding ◌-ℤ◌
pos_pred n = ground arith

-- Whether a connection is let in, and that the surface counts it, on every branch.
pub accept-Accepts :
    (now : ℕ) (s : Surface) (address : Option IpAddr)
    → IsCounted s
    → Accepts s address (accept now address s.acceptor)
unfolding accept
accept-Accepts now s address c = elim (Bool-cases (s.acceptor.permits == 0)) [
  | inl z ↦ rw z (
    (λ r. ground (arith, z, r.0, c.pool, c.sized)),
    record { sized = c.sized; pool = c.pool; total = c.total; table = c.table; tagged = c.tagged },
    refl,
  )
  | inr z ↦
      rw z (
        answered (admit_peer address one_less) (admit_peer-Admits one_less s.live address c.table)
          z)
]
  where
    one_less : LimitedAcceptor
    one_less = record s.acceptor { permits = s.acceptor.permits - 1 }

    answered :
        (r : Option (Option IpAddr) × LimitedAcceptor)
        → Admits one_less s.live address r
        → s.acceptor.permits == 0 ≡ false
        → Accepts s address (admitted now r)
    answered (none, a) (p, e, no_room, t) z =
        subst (λ x. Accepts s address (admitted now (none, x))) (sym e)
          (
            λ r. no_room r.1,
            record {
              sized = c.sized;
              pool = ground (arith, z, c.pool);
              total = c.total;
              table = t;
              tagged = c.tagged;
            },
            refl,
          )
    answered (some peer, a) (p, e, tag, room, t) z =
        subst (λ x. Accepts s address (admitted now (some peer, x))) (sym e)
          (
            (ground (arith, z, c.pool, c.sized), room),
            record {
              sized = c.sized;
              pool = ground (arith, z, c.pool);
              total = rw c.total (pos_suc (length s.live));
              table = t (guarded now one_less peer);
              tagged = (tag, c.tagged);
            },
            refl,
          )
