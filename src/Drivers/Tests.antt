-- ===== src/Drivers/Tests.antt =====
-- A frame over the loopback device of kernel-core/src/drivers.rs.
use open_kernel.Prelude.{◌≡◌, refl, true, [], ◌∷◌, some, copy_from, slice_from, ok}
use open_kernel.Drivers.{LoopbackNetworkDriver, new_driver, transmit, receive}

abbrev ready_device : LoopbackNetworkDriver
ready_device = record new_driver { initialized = true }

sent_bytes : (receive 64 (transmit (1 ∷ 2 ∷ 3 ∷ []) ready_device).1).0 ≡ ok (some (1 ∷ 2 ∷ 3 ∷ []))
unfolding transmit receive copy_from slice_from
sent_bytes = refl
