-- ===== src/Sockets.antt =====
-- The calls of the operating system that src/can_io.c and src/isotp_kernel.c make on their sockets.
-- The kernel's answers are arguments of the functions that ask for them.
use vecu_uds.Base.{true, false, Bool, Option, none, some, List, ℕ, ◌∷◌, []}
pub mod KernelIo
pub mod CanIo
mod Examples

-- `errno`, as far as the source tells its values apart; EWOULDBLOCK is EAGAIN on Linux
pub data Errno : Type 0 where
  no_error eintr eagain other : Errno

-- What read() answers.
pub data ReadAnswer : Type 0 where
  got : List ℕ → ReadAnswer
  failed : Errno → ReadAnswer

-- The calls that open, set up and close a descriptor; `opened` is a socket() that succeeds.
pub data Call : Type 0 where
  opened : ℕ → Call
  set_options : ℕ → ℕ → ℕ → ℕ → Call
  set_flow_control : ℕ → ℕ → ℕ → ℕ → Call
  name_index : List ℕ → Call
  bind : ℕ → ℕ → List ℕ → Call
  closed : ℕ → Call

-- The descriptors that a run opened, and those it closed, in order.
abbrev pub opened_fds : List Call → List ℕ
opened_fds [] = []
opened_fds (opened s ∷ rest) = s ∷ opened_fds rest
opened_fds (set_options s flags tx rx ∷ rest) = opened_fds rest
opened_fds (set_flow_control s bs stmin wftmax ∷ rest) = opened_fds rest
opened_fds (name_index name ∷ rest) = opened_fds rest
opened_fds (bind s index ids ∷ rest) = opened_fds rest
opened_fds (closed s ∷ rest) = opened_fds rest

abbrev pub closed_fds : List Call → List ℕ
closed_fds [] = []
closed_fds (opened s ∷ rest) = closed_fds rest
closed_fds (set_options s flags tx rx ∷ rest) = closed_fds rest
closed_fds (set_flow_control s bs stmin wftmax ∷ rest) = closed_fds rest
closed_fds (name_index name ∷ rest) = closed_fds rest
closed_fds (bind s index ids ∷ rest) = closed_fds rest
closed_fds (closed s ∷ rest) = s ∷ closed_fds rest

-- whether there is a descriptor
abbrev pub is_open : Option ℕ → Bool
is_open none = false
is_open (some s) = true
