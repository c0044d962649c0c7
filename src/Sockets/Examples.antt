-- ===== src/Sockets/Examples.antt =====
-- The sockets of src/can_io.c and src/isotp_kernel.c on concrete answers of the kernel.
use vecu_uds.Base.{◌++◌, ◌!=◌, ◌&&◌, true, ℕ, ◌≡◌, List, some, none, ◌∷◌, []}
use vecu_uds.Sockets.KernelIo
use vecu_uds.Sockets.{closed_fds, opened_fds, is_open}
use vecu_uds.Sockets.KernelIo.Descriptors.{isotp_kio_open-close}

-- "vcan0"
abbrev name : List ℕ
name = 0x76 ∷ 0x63 ∷ 0x61 ∷ 0x6E ∷ 0x30 ∷ []

abbrev granted : KernelIo.OpenAnswers
granted = record { socket = some 3; options_set = true; ifindex = 7; bound = true }

isotp_kio_open-close_example :
    let (ok, k, calls) = KernelIo.isotp_kio_open granted (some name) 0x7E0 0x7E8 KernelIo.shut in
    let (after, more) = KernelIo.isotp_kio_close k in
    (ok ≡ (is_open granted.socket && granted.options_set && granted.ifindex != 0 && granted.bound))
    × (is_open k.sock ≡ ok)
    × (opened_fds (calls ++ more) ≡ closed_fds (calls ++ more))
    × (after.sock ≡ none)
isotp_kio_open-close_example = isotp_kio_open-close granted name 0x7E0 0x7E8 KernelIo.shut
