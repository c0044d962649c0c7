-- ===== src/Types/Sid.antt =====
-- `uds_sid_t` of include/uds_types.h.
use Prim.Native.Nat.{ℕ}

abbrev pub diagnostic_session_control : ℕ
diagnostic_session_control = 0x10

abbrev pub ecu_reset : ℕ
ecu_reset = 0x11

abbrev pub clear_dtc : ℕ
clear_dtc = 0x14

abbrev pub read_dtc : ℕ
read_dtc = 0x19

abbrev pub read_data_by_identifier : ℕ
read_data_by_identifier = 0x22

abbrev pub security_access : ℕ
security_access = 0x27

abbrev pub write_data_by_identifier : ℕ
write_data_by_identifier = 0x2E

abbrev pub tester_present : ℕ
tester_present = 0x3E

abbrev pub negative_response : ℕ
negative_response = 0x7F
