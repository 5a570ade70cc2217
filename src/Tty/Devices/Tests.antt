-- ===== src/Tty/Devices/Tests.antt =====
-- The table of terminals of kernel/src/core/drivers/tty/tty.c on a concrete run.
use alephos.Prelude.{ℕ}
use alephos.Prelude.{◌≡◌}
use alephos.Prelude.{List, [], ◌∷◌, arith}
use alephos.Prelude.{replicate}
use alephos.Tty.Devices.{Devices, cleared}
use alephos.Tty.Devices.Slots.{Call, creates, destroys, perform, perform-made}

abbrev nearly_full : Devices (List ℕ)
nearly_full = record { devices = replicate 8 cleared; count = 7 }

abbrev calls : List Call
calls = creates (b'a' ∷ []) ∷ destroys 7 ∷ creates (b'b' ∷ []) ∷ []

perform-made_example :
    ((perform calls nearly_full).0 ≡ 1) × ((perform calls nearly_full).1.count ≡ 8)
perform-made_example = perform-made calls nearly_full (omega arith)
