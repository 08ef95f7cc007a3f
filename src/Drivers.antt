-- ===== src/Drivers.antt =====
-- kernel-core/src/drivers.rs: the loopback network device.
pub mod Loopback
mod Tests
use open_kernel.Prelude.{
  ℕ, Bool, true, false, not, if◌then◌else◌, ◌==◌, ltb, Option, none, some, List, length, slice,
  copy_from, Result, ok, err,
}

pub data DriverError : Type 0 where
  unsupported not_ready buffer_too_small : DriverError

pub record LoopbackNetworkDriver : Type 0 where
  pub frame : ℕ → ℕ
  pub frame_length : ℕ
  pub initialized : Bool

-- `LoopbackNetworkDriver::new`
abbrev pub new_driver : LoopbackNetworkDriver
new_driver = record { frame = λ _. 0; frame_length = 0; initialized = false }

-- The length of the array `frame`.
abbrev pub max_frame : ℕ
max_frame = 1536

unfoldable pub initialize_driver :
    LoopbackNetworkDriver → Result DriverError (Unit {0}) × LoopbackNetworkDriver
initialize_driver d = (ok tt, record d { initialized = true })

unfoldable pub transmit :
    List ℕ → LoopbackNetworkDriver → Result DriverError (Unit {0}) × LoopbackNetworkDriver
transmit frame d =
    if not d.initialized
    then (err not_ready, d)
    else if ltb max_frame (length frame)
    then (err buffer_too_small, d)
    else (ok tt, record d { frame = copy_from d.frame 0 frame; frame_length = length frame })

-- `room` is `buffer.len()`. The bytes returned are those written to the front of `buffer`.
unfoldable pub receive :
    ℕ → LoopbackNetworkDriver → Result DriverError (Option (List ℕ)) × LoopbackNetworkDriver
receive room d =
    if not d.initialized
    then (err not_ready, d)
    else if d.frame_length == 0
    then (ok none, d)
    else if ltb room d.frame_length
    then (err buffer_too_small, d)
    else (ok (some (slice d.frame d.frame_length)), record d { frame_length = 0 })
