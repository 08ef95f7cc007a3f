-- ===== src/Drivers/Loopback.antt =====
-- Sending and receiving over the loopback device of kernel-core/src/drivers.rs.
use open_kernel.Prelude.{
  ℕ, ◌≤◌, ◌<◌, ◌≡◌, refl, ap, true, false, ◌==◌, ltb, none, some, List, length,
  slice_from-copy_from, ok, err, arith,
}
use open_kernel.Drivers.{LoopbackNetworkDriver, max_frame, buffer_too_small, transmit, receive}

-- A frame that is sent over an initialized device, and is neither empty nor too long, is received
-- once: with too little room the call fails and leaves it there, with enough room the call gives the
-- bytes of the frame, and the next one gives nothing.
pub receive-transmit :
    (frame : List ℕ) (small large : ℕ) (d : LoopbackNetworkDriver)
    → d.initialized ≡ true
    → 0 < length frame
    → length frame ≤ max_frame
    → small < length frame
    → length frame ≤ large
    → let sent = (transmit frame d).1 in
      let received = (receive large sent).1 in
      ((transmit frame d).0 ≡ ok tt)
      × (receive small sent ≡ (err buffer_too_small, sent))
      × ((receive large sent).0 ≡ ok (some frame))
      × (receive large received ≡ (ok none, received))
unfolding transmit receive
receive-transmit frame small large d on some_ fits little enough =
    let not_long : ltb max_frame (length frame) ≡ false = ground (arith, fits) in
    let not_empty : (length frame == 0) ≡ false = ground (arith, some_) in
    let no_room : ltb small (length frame) ≡ true = ground (arith, little) in
    let room : ltb large (length frame) ≡ false = ground (arith, enough) in
    rw (on, not_long, not_empty, no_room, room)
      (refl, refl, ap (λ bytes. ok (some bytes)) (slice_from-copy_from d.frame 0 frame), refl)
