-- ===== src/Sockets/CanIo.antt =====
-- src/can_io.c: a raw CAN socket.
use vecu_uds.Base.{
  List, ℕ, ◌∷◌, [], Bool, true, false, Option, some, none, if◌then◌else◌, not, ◌==◌, length, take,
  ◌++◌, ◌-◌, replicate, ◌!=◌,
}
use vecu_uds.Sockets.{Call, Errno, ReadAnswer, opened, name_index, bind, closed, got, failed, eintr}
pub mod Opened

-- CAN_IO_IFNAME_MAX, and sizeof(struct can_frame)
abbrev pub ifname_max : ℕ
ifname_max = 16

abbrev pub frame_size : ℕ
frame_size = 16

-- `can_io_t`; `none` is the descriptor -1
pub record CanIo : Type 0 where
  pub sock : Option ℕ
  pub ifname : List ℕ

pub record OpenAnswers : Type 0 where
  pub socket : Option ℕ
  pub ifindex : ℕ
  pub bound : Bool

-- memset() and strncpy() of a name of nonzero bytes
unfoldable pub copied : List ℕ → List ℕ
copied name =
    let kept = take (ifname_max - 1) name in kept ++ replicate (ifname_max - length kept) 0

-- can_io_open, once the socket is there
unfoldable pub set_up : OpenAnswers → List ℕ → ℕ → Bool × CanIo × List Call
set_up a name s =
    let shut : CanIo = record { sock = none; ifname = copied name } in
    if a.ifindex == 0
    then (false, shut, opened s ∷ name_index name ∷ closed s ∷ [])
    else if not a.bound
    then (false, shut, opened s ∷ name_index name ∷ bind s a.ifindex [] ∷ closed s ∷ [])
    else (
      true,
      record { sock = some s; ifname = copied name },
      opened s ∷ name_index name ∷ bind s a.ifindex [] ∷ [],
    )

abbrev pub with_socket : Option ℕ → OpenAnswers → List ℕ → Bool × CanIo × List Call
with_socket none a name = (false, record { sock = none; ifname = copied name }, [])
with_socket (some s) a name = set_up a name s

-- can_io_open; `true` is the return code 0, and `none` a null name
abbrev pub can_io_open : OpenAnswers → Option (List ℕ) → CanIo → Bool × CanIo × List Call
can_io_open a none io = (false, io, [])
can_io_open a (some name) io = with_socket a.socket a name

-- Return codes 0, 1 and -1 of can_io_recv.
pub data FrameRead : Type 0 where
  frame : List ℕ → FrameRead
  interrupted refused : FrameRead

unfoldable pub frame_answered : ReadAnswer → FrameRead
frame_answered (got bytes) = if length bytes != frame_size then refused else frame bytes
frame_answered (failed eintr) = interrupted
frame_answered (failed e) = refused

abbrev pub recv_on : Option ℕ → ReadAnswer → FrameRead
recv_on none answer = refused
recv_on (some s) answer = frame_answered answer

-- can_io_recv
abbrev pub can_io_recv : ReadAnswer → CanIo → FrameRead
can_io_recv answer io = recv_on io.sock answer

-- can_io_send, with what it hands to write(); `none` is an answer of -1
abbrev pub written_whole : Option ℕ → Bool
written_whole none = false
written_whole (some n) = n == frame_size

abbrev pub send_on : Option ℕ → Option ℕ → List ℕ → Bool × List (List ℕ)
send_on none answer bytes = (false, [])
send_on (some s) answer bytes = (written_whole answer, bytes ∷ [])

abbrev pub can_io_send : Option ℕ → List ℕ → CanIo → Bool × List (List ℕ)
can_io_send answer bytes io = send_on io.sock answer bytes

-- can_io_close
abbrev pub close_on : Option ℕ → List Call
close_on none = []
close_on (some s) = closed s ∷ []

unfoldable pub can_io_close : CanIo → CanIo × List Call
can_io_close io = (record io { sock = none }, close_on io.sock)
