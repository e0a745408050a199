-- ===== src/Transport/Guard/Counting.antt =====
-- The connections that a surface holds, against what its acceptor counts.
use pic_x.Base.{
  ℕ, ◌+◌, ◌≤◌, ◌≡◌, refl, sym, ◌∙◌, ap, inl, inr, Option, none, some, List, [], ◌∷◌, ◌++◌, Bool,
  true, false, not, if◌then◌else◌, ◌||◌, ◌==◌, ==_iff, ok, err, Bool-cases,
}
use pic_x.Limits.{IpAddr, v4, v6, Limits, is_peer_exempt}
use pic_x.Transport.Guard.{
  PeerHeld, LimitedAcceptor, Guarded, IoError, new, eq_ip, put, or_default, accept, drop_guarded,
}

-- A surface: its acceptor, and the connections that are there, each with the address it came from.
pub record Surface : Type 0 where
  pub acceptor : LimitedAcceptor
  pub live : List (Option IpAddr × Guarded)

-- Connections come and go in any order.
pub data Step : Surface → Surface → Type 0 where
  opens :
      {s : Surface} {a : LimitedAcceptor} {g : Guarded} (now : ℕ) (address : Option IpAddr)
      → accept now address s.acceptor ≡ (ok g, a)
      → Step s (record { acceptor = a; live = (address, g) ∷ s.live })
  refuses :
      {s : Surface} {a : LimitedAcceptor} {e : IoError} (now : ℕ) (address : Option IpAddr)
      → accept now address s.acceptor ≡ (err e, a)
      → Step s (record { acceptor = a; live = s.live })
  closes :
      {s : Surface} (xs ys : List (Option IpAddr × Guarded)) (address : Option IpAddr) (g : Guarded)
      → s.live ≡ xs ++ (address, g) ∷ ys
      → Step s (record { acceptor = drop_guarded g s.acceptor; live = xs ++ ys })

pub data Steps : Surface → Surface → Type 0 where
  done : {s : Surface} → Steps s s
  more : {s t u : Surface} → Steps s t → Step t u → Steps s u

abbrev pub fresh : Limits → Surface
fresh limits = record { acceptor = new limits; live = [] }

-- The bound on one address is one for this address.
abbrev pub is_bounded : Limits → IpAddr → Bool
is_bounded l address = not (l.connections_per_peer == 0 || is_peer_exempt l address)

abbrev pub counts_for : IpAddr → Option IpAddr → ℕ
counts_for address none = 0
counts_for address (some x) = if eq_ip address x then 1 else 0

unfoldable pub connections_of : IpAddr → List (Option IpAddr × Guarded) → ℕ
connections_of address [] = 0
connections_of address ((x, g) ∷ live) = counts_for address x + connections_of address live

abbrev pub held_of : Option PeerHeld → ℕ
held_of o = (or_default o).held

pub eq_ip_sound : (x y : IpAddr) → eq_ip x y ≡ true → x ≡ y
eq_ip_sound (v4 a) (v4 b) h = ap v4 ((==_iff a b).0 h)
eq_ip_sound (v6 a) (v6 b) h = ap v6 ((==_iff a b).0 h)
eq_ip_sound (v4 a) (v6 b) h = cc
eq_ip_sound (v6 a) (v4 b) h = cc

pub eq_ip_refl : (x : IpAddr) → eq_ip x x ≡ true
eq_ip_refl (v4 a) = (==_iff a a).1 refl
eq_ip_refl (v6 a) = (==_iff a a).1 refl

-- What the table of addresses says of the connections that are there.
pub record IsTable (l : Limits) (peers : IpAddr → Option PeerHeld)
    (live : List (Option IpAddr × Guarded)) : Type 0 where
  pub exact : (x : IpAddr) → is_bounded l x ≡ true → held_of (peers x) ≡ connections_of x live
  pub unheld : (x : IpAddr) → is_bounded l x ≡ false → peers x ≡ none
  pub kept : (x : IpAddr) (p : PeerHeld) → peers x ≡ some p → 1 ≤ p.held
  pub within : (x : IpAddr) → is_bounded l x ≡ true → connections_of x live ≤ l.connections_per_peer

module _ (l : Limits) (peers : IpAddr → Option PeerHeld)
    (live live' : List (Option IpAddr × Guarded)) (t : IsTable l peers live) where
  -- The same table, where nothing that is bounded changes.
  pub keep-IsTable :
      ((x : IpAddr) → is_bounded l x ≡ true → connections_of x live' ≡ connections_of x live)
      → IsTable l peers live'
  keep-IsTable e = record {
    exact = λ x b. t.exact x b ∙ sym (e x b);
    unheld = t.unheld;
    kept = t.kept;
    within = λ x b. rw (e x b) (t.within x b);
  }

  -- The table with another entry, where the connections of one address change.
  pub put-IsTable :
      (y : IpAddr) (o : Option PeerHeld)
      → is_bounded l y ≡ true
      → ((p : PeerHeld) → o ≡ some p → 1 ≤ p.held)
      → ((x : IpAddr) → eq_ip x y ≡ false → connections_of x live' ≡ connections_of x live)
      → held_of o ≡ connections_of y live'
      → connections_of y live' ≤ l.connections_per_peer
      → IsTable l (put y o peers) live'
  put-IsTable y o b k e h w = record {
    exact = λ x c. elim (Bool-cases (eq_ip x y)) [
      | inl q ↦ rw (q, eq_ip_sound x y q) h
      | inr q ↦ rw (q, e x q) (t.exact x c)
    ];
    unheld = λ x c. elim (Bool-cases (eq_ip x y)) [
      | inl q ↦ let z = ap (is_bounded l) (eq_ip_sound x y q) in cc
      | inr q ↦ rw q (t.unheld x c)
    ];
    kept = λ x p c. elim (Bool-cases (eq_ip x y)) [
      | inl q ↦ k p (rw q at c)
      | inr q ↦ t.kept x p (rw q at c)
    ];
    within = λ x c. elim (Bool-cases (eq_ip x y)) [
      | inl q ↦ rw (eq_ip_sound x y q) w
      | inr q ↦ rw (e x q) (t.within x c)
    ];
  }
