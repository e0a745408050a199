-- ===== src/Transport/Guard/Stalling.antt =====
-- A response that a peer stops reading.
use pic_x.Base.{ℕ, ◌+◌, ◌≤◌, ◌≡◌, none, arith, err}
use pic_x.Transport.Guard.{
  Guarded, timed_out, ready, pending, expired, poll_write, poll_write_vectored,
}

-- A write that is answered with a timeout, beside a vectored one that is not.
abbrev pub Stalls : ℕ → ℕ → Guarded → Type 0
Stalls t0 t1 g =
    ((poll_write t1 pending (poll_write t0 pending g).1).0 ≡ ready (err timed_out))
    × ((poll_write_vectored t1 pending (poll_write_vectored t0 pending g).1).0 ≡ pending)

-- Let no timer run, and a write be pending at one instant and again when the stall bound has passed
-- since. The write that is polled is answered with a timeout the second time; the vectored write,
-- polled in the same way, is pending still.
pub poll_write-Stalls :
    (t0 t1 : ℕ) (g : Guarded) → g.stalled ≡ none → t0 + g.stall ≤ t1 → Stalls t0 t1 g
unfolding poll_write poll_write_vectored expired
poll_write-Stalls t0 t1 g h k = ground arith
