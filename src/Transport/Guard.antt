-- ===== src/Transport/Guard.antt =====
-- crates/pic-x-transport/src/guard.rs: how many sockets a surface holds, and for how long. The table of
-- addresses is a function, an instant is a number of nanoseconds, and what the accepted stream itself
-- answers is an argument. A poisoned lock, the warnings and the metrics are left out.
pub mod Bounded
pub mod Closing
pub mod Stalling
pub mod Counting
mod Tests
use pic_x.Base.{
  ℕ, suc, ◌+◌, ◌-◌, ◌*◌, ◌^◌, ◌≡◌, Option, none, some, List, [], ◌∷◌, ◌++◌, Bool, true, false, ◌||◌,
  if◌then◌else◌, ◌==◌, leb, ltb, Result, ok, err,
}
use mathlib.Core.Option
use pic_x.Base.Int.{ℤ, pos, ◌+ℤ◌, ◌-ℤ◌}
use pic_x.Keys.{Duration}
use pic_x.Limits.{IpAddr, v4, v6, Limits, is_peer_exempt}

pub record PeerHeld : Type 0 where
  pub held : ℕ
  pub warned : Bool

-- `LimitedAcceptor`: the semaphore by the permits that it has left.
pub record LimitedAcceptor : Type 0 where
  pub permits : ℕ
  pub peers : IpAddr → Option PeerHeld
  pub limits : Limits
  pub saturated : Bool
  pub capacity : ℕ
  pub held : ℤ

-- `Guarded`, by what it holds beside the stream and its permit: the address that it is counted for.
pub record Guarded : Type 0 where
  pub deadline : Option ℕ
  pub stall : ℕ
  pub stalled : Option ℕ
  pub peer : Option IpAddr

-- `io::ErrorKind`, and any error of the stream itself.
pub data IoError : Type 0 where
  connection_refused timed_out : IoError
  inner : ℕ → IoError

abbrev pub new : Limits → LimitedAcceptor
new limits = record {
  permits = limits.connections;
  peers = λ _. none;
  limits = limits;
  saturated = false;
  capacity = limits.connections;
  held = pos 0;
}

abbrev pub eq_ip : IpAddr → IpAddr → Bool
eq_ip (v4 a) (v4 b) = a == b
eq_ip (v6 a) (v6 b) = a == b
eq_ip _ _ = false

-- `peers[address] = p`, or its removal.
abbrev pub put : IpAddr → Option PeerHeld → (IpAddr → Option PeerHeld) → IpAddr → Option PeerHeld
put address p peers x = if eq_ip x address then p else peers x

-- `entry(address).or_default()`
abbrev pub or_default : Option PeerHeld → PeerHeld
or_default none = record { held = 0; warned = false }
or_default (some p) = p

abbrev pub set_peer : LimitedAcceptor → IpAddr → Option PeerHeld → LimitedAcceptor
set_peer a address p = record a { peers = put address p a.peers }

unfoldable pub admit_peer :
    Option IpAddr → LimitedAcceptor → Option (Option IpAddr) × LimitedAcceptor
admit_peer none a = (some none, a)
admit_peer (some address) a =
    let bound = a.limits.connections_per_peer in
    let entry = or_default (a.peers address) in
    if bound == 0 || is_peer_exempt a.limits address
    then (some none, a)
    else if leb bound entry.held
    then (none, set_peer a address (some (record entry { warned = true })))
    else (some (some address), set_peer a address (some (record entry { held = suc entry.held })))

abbrev pub nanoseconds : Duration → ℕ
nanoseconds d = d.secs * 10 ^ 9 + d.nanos

abbrev pub guarded : ℕ → LimitedAcceptor → Option IpAddr → Guarded
guarded now a peer = record {
  deadline = Option.map (λ lifetime. now + nanoseconds lifetime) a.limits.connection_lifetime;
  stall = nanoseconds a.limits.write_stall_timeout;
  stalled = none;
  peer = peer;
}

-- A refusal of the address gives the permit back.
abbrev pub admitted :
    ℕ → Option (Option IpAddr) × LimitedAcceptor → Result IoError Guarded × LimitedAcceptor
admitted now (none, a) = (err connection_refused, record a { permits = suc a.permits })
admitted now (some peer, a) =
    (ok (guarded now a peer), record a { saturated = false; held = a.held +ℤ pos 1 })

-- `accept`, up to the handshake. That the handshake fails drops what was taken for the connection.
unfoldable pub accept :
    ℕ → Option IpAddr → LimitedAcceptor → Result IoError Guarded × LimitedAcceptor
accept now address a =
    if a.permits == 0
    then (err connection_refused, record a { saturated = true })
    else admitted now (admit_peer address (record a { permits = a.permits - 1 }))

-- `Drop` of `PeerReleased`.
abbrev pub lowered : Option PeerHeld → Option PeerHeld
lowered none = none
lowered (some p) = if p.held - 1 == 0 then none else some (record p { held = p.held - 1 })

abbrev pub without : Option IpAddr → (IpAddr → Option PeerHeld) → IpAddr → Option PeerHeld
without none peers = peers
without (some address) peers = put address (lowered (peers address)) peers

unfoldable pub release_peer : Option IpAddr → LimitedAcceptor → LimitedAcceptor
release_peer peer a = record a { peers = without peer a.peers }

-- The fields of a `Guarded` are dropped in order: the permit, the count, the address.
unfoldable pub drop_guarded : Guarded → LimitedAcceptor → LimitedAcceptor
drop_guarded g a =
    release_peer g.peer (record a { permits = suc a.permits; held = a.held -ℤ pos 1 })

-- What a stream answers when it is polled.
pub data Poll (A : Type 0) : Type 0 where
  ready : A → Poll A
  pending : Poll A

unfoldable pub expired : ℕ → Guarded → Option IoError
expired now g = elim g.deadline [
  | none ↦ none
  | some deadline ↦ if ltb now deadline then none else some timed_out
]

unfoldable pub poll_read :
    ℕ → Poll (Result IoError (Unit {0})) → Guarded → Poll (Result IoError (Unit {0})) × Guarded
poll_read now answer g = elim (expired now g) [ some e ↦ (ready (err e), g) | none ↦ (answer, g) ]

abbrev armed : ℕ → Guarded → ℕ
armed now g = elim g.stalled [ none ↦ now + g.stall | some timer ↦ timer ]

abbrev pub moved : ℕ → Poll (Result IoError ℕ) → Guarded → Poll (Result IoError ℕ) × Guarded
moved now (ready result) g = (ready result, record g { stalled = none })
moved now pending g =
    let timer = armed now g in
    (if leb timer now then ready (err timed_out) else pending, record g { stalled = some timer })

unfoldable pub poll_write :
    ℕ → Poll (Result IoError ℕ) → Guarded → Poll (Result IoError ℕ) × Guarded
poll_write now answer g = elim (expired now g) [
  | some e ↦ (ready (err e), g)
  | none ↦ moved now answer g
]

-- `poll_write_vectored` is the stream's own.
unfoldable pub poll_write_vectored :
    ℕ → Poll (Result IoError ℕ) → Guarded → Poll (Result IoError ℕ) × Guarded
poll_write_vectored now answer g = (answer, g)
