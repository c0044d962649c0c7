-- ===== src/Sockets/KernelIo.antt =====
-- src/isotp_kernel.c: the socket of the kernel's ISO-TP.
use vecu_uds.Base.{
  List, ℕ, ◌∷◌, [], Bool, true, false, Option, some, none, if◌then◌else◌, not, ◌==◌, length, bit_or,
}
use vecu_uds.Sockets.{
  Call, Errno, ReadAnswer, opened, set_options, set_flow_control, name_index, bind, closed, got,
  failed, eintr,
}
pub mod Descriptors

-- `isotp_kio_t`; `none` is the descriptor -1
pub record KernelIo : Type 0 where
  pub sock : Option ℕ

-- What the kernel answers to the calls of isotp_kio_open; a zero index is an unknown name.
pub record OpenAnswers : Type 0 where
  pub socket : Option ℕ
  pub options_set : Bool
  pub ifindex : ℕ
  pub bound : Bool

-- CAN_ISOTP_TX_PADDING | CAN_ISOTP_RX_PADDING
abbrev pub padding : ℕ
padding = bit_or 0x004 0x008

abbrev pub shut : KernelIo
shut = record { sock = none }

-- isotp_kio_open, once the socket is there
unfoldable pub set_up : OpenAnswers → List ℕ → ℕ → ℕ → ℕ → Bool × KernelIo × List Call
set_up a name rx_id tx_id s =
    let options = set_options s padding 0x00 0x00 in
    let flow_control = set_flow_control s 0 0 0 in
    let address = bind s a.ifindex (rx_id ∷ tx_id ∷ []) in
    if not a.options_set
    then (false, shut, opened s ∷ options ∷ closed s ∷ [])
    else if a.ifindex == 0
    then (false, shut, opened s ∷ options ∷ flow_control ∷ name_index name ∷ closed s ∷ [])
    else if not a.bound
    then (
      false,
      shut,
      opened s ∷ options ∷ flow_control ∷ name_index name ∷ address ∷ closed s ∷ [],
    )
    else (
      true,
      record { sock = some s },
      opened s ∷ options ∷ flow_control ∷ name_index name ∷ address ∷ [],
    )

abbrev pub with_socket : Option ℕ → OpenAnswers → List ℕ → ℕ → ℕ → Bool × KernelIo × List Call
with_socket none a name rx_id tx_id = (false, shut, [])
with_socket (some s) a name rx_id tx_id = set_up a name rx_id tx_id s

-- isotp_kio_open; `true` is the return code 0, and `none` a null name
abbrev pub isotp_kio_open :
    OpenAnswers → Option (List ℕ) → ℕ → ℕ → KernelIo → Bool × KernelIo × List Call
isotp_kio_open a none rx_id tx_id k = (false, k, [])
isotp_kio_open a (some name) rx_id tx_id k = with_socket a.socket a name rx_id tx_id

-- Return codes 0, 1 and -1 of isotp_kio_recv.
pub data Received : Type 0 where
  message : List ℕ → Received
  interrupted refused : Received

-- isotp_kio_recv, once read() has answered, with the thread's errno
unfoldable pub read_answered : ReadAnswer → Errno → Received × Errno
read_answered (got bytes) errno = (message bytes, errno)
read_answered (failed eintr) errno = (interrupted, eintr)
read_answered (failed e) errno = (refused, e)

-- isotp_kio_recv; a descriptor that is not open leaves errno as it was
abbrev pub recv_on : Option ℕ → ReadAnswer → Errno → Received × Errno
recv_on none answer errno = (refused, errno)
recv_on (some s) answer errno = read_answered answer errno

abbrev pub isotp_kio_recv : ReadAnswer → Errno → KernelIo → Received × Errno
isotp_kio_recv answer errno k = recv_on k.sock answer errno

-- isotp_kio_send, with what it hands to write(); `none` is an answer of -1
abbrev pub written_all : Option ℕ → List ℕ → Bool
written_all none bytes = false
written_all (some n) bytes = n == length bytes

abbrev pub send_on : Option ℕ → Option ℕ → List ℕ → Bool × List (List ℕ)
send_on none answer bytes = (false, [])
send_on (some s) answer bytes = (written_all answer bytes, bytes ∷ [])

abbrev pub isotp_kio_send : Option ℕ → List ℕ → KernelIo → Bool × List (List ℕ)
isotp_kio_send answer bytes k = send_on k.sock answer bytes

-- isotp_kio_close
abbrev pub close_on : Option ℕ → List Call
close_on none = []
close_on (some s) = closed s ∷ []

unfoldable pub isotp_kio_close : KernelIo → KernelIo × List Call
isotp_kio_close k = (shut, close_on k.sock)
