-- ===== src/Types/Session.antt =====
-- `uds_session_t` of include/uds_types.h.
use Prim.Native.Nat.{ℕ}

abbrev pub default : ℕ
default = 0x01

abbrev pub programming : ℕ
programming = 0x02

abbrev pub extended : ℕ
extended = 0x03
