-- ===== src/Sockets/KernelIo/Descriptors.antt =====
-- The descriptors that src/isotp_kernel.c opens and closes.
use vecu_uds.Base.{List, ℕ, arith, ◌≡◌, ◌++◌, none, some, Option, ◌&&◌, ◌!=◌}
use vecu_uds.Sockets.{is_open, opened_fds, closed_fds}
use vecu_uds.Sockets.KernelIo.{OpenAnswers, KernelIo, isotp_kio_open, isotp_kio_close, set_up}

open-close :
    (a : OpenAnswers) (name : List ℕ) (rx_id tx_id : ℕ) (s : Option ℕ) (k : KernelIo)
    → let (ok, io, calls) = isotp_kio_open (record a { socket = s }) (some name) rx_id tx_id k in
      let (after, more) = isotp_kio_close io in
      (ok ≡ (is_open s && a.options_set && a.ifindex != 0 && a.bound))
      × (is_open io.sock ≡ ok)
      × (opened_fds (calls ++ more) ≡ closed_fds (calls ++ more))
      × (after.sock ≡ none)
unfolding set_up isotp_kio_close
open-close a name rx_id tx_id none k = ground arith
open-close a name rx_id tx_id (some s) k = ground arith

-- Opening succeeds exactly when the kernel grants the socket, its options, an index for the name
-- and the binding; the descriptor is then kept, and otherwise none is. After isotp_kio_close every
-- descriptor that was opened is closed, once, and none is kept.
pub isotp_kio_open-close :
    (a : OpenAnswers) (name : List ℕ) (rx_id tx_id : ℕ) (k : KernelIo)
    → let (ok, io, calls) = isotp_kio_open a (some name) rx_id tx_id k in
      let (after, more) = isotp_kio_close io in
      (ok ≡ (is_open a.socket && a.options_set && a.ifindex != 0 && a.bound))
      × (is_open io.sock ≡ ok)
      × (opened_fds (calls ++ more) ≡ closed_fds (calls ++ more))
      × (after.sock ≡ none)
isotp_kio_open-close a name rx_id tx_id k = open-close a name rx_id tx_id a.socket k
