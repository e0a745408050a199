-- ===== src/Transport/Guard/Tests.antt =====
-- A surface for two connections, one from each address, that takes one and refuses the next.
use pic_x.Base.{refl, ◌↔◌, arith, none, some, [], ◌∷◌, any}
use pic_x.Limits.{IpAddr, v4, Limits, new, is_peer_exempt}
use pic_x.Transport.Guard.{LimitedAcceptor, Guarded, admit_peer, accept, connection_refused}
use pic_x.Transport.Guard.Counting.{Surface, Steps, done, more, opens, refuses, fresh}
use pic_x.Transport.Guard.Bounded.{HasRoom}
use pic_x.Transport.Guard.Closing.{Within, Answered, Steps-Within, accept_iff}
use pic_x.Transport.Guard.Stalling.{Stalls, poll_write-Stalls}

abbrev narrow : Limits
narrow = record new { connections = 2; connections_per_peer = 1 }

abbrev here : IpAddr
here = v4 1

abbrev there : IpAddr
there = v4 2

abbrev a_guarded : Guarded
a_guarded = record { deadline = none; stall = 30000000000; stalled = none; peer = some here }

abbrev after_one : LimitedAcceptor
after_one = (accept 0 (some here) (fresh narrow).acceptor).1

abbrev one_held : Surface
one_held = record { acceptor = after_one; live = (some here, a_guarded) ∷ [] }

one_Steps : Steps (fresh narrow) one_held
unfolding accept admit_peer is_peer_exempt any
one_Steps = more done (opens 0 (some here) refl)

abbrev refused_once : Surface
refused_once = record { acceptor = (accept 5 (some here) after_one).1; live = one_held.live }

refused-Steps : Steps (fresh narrow) refused_once
unfolding accept admit_peer is_peer_exempt any
refused-Steps = more {t = one_held} one_Steps (refuses {e = connection_refused} 5 (some here) refl)

Steps-Within_example : Within narrow refused_once
Steps-Within_example = Steps-Within narrow refused_once refused-Steps

accept_iff_example :
    Answered refused_once 9 (some there) ↔ HasRoom narrow (some there) refused_once.live
accept_iff_example = accept_iff narrow refused_once 9 (some there) refused-Steps

poll_write-Stalls_example : Stalls 7 31000000000 a_guarded
poll_write-Stalls_example = poll_write-Stalls 7 31000000000 a_guarded refl (omega arith)
