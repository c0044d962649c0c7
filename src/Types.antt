-- ===== src/Types.antt =====
-- Constants of include/uds_types.h, a module for each enumeration.
pub mod Sid
pub mod Session
pub mod Nrc
use vecu_uds.Base.{ℕ, ◌+◌, u8}

-- UDS_MAX_MSG_LEN
abbrev pub max_msg_len : ℕ
max_msg_len = 4095

-- UDS_POS_RESP
abbrev pub pos_resp : ℕ → ℕ
pos_resp sid = u8 (sid + 0x40)

-- UDS_SUPPRESS_POS_RESP_BIT
abbrev pub suppress_pos_resp_bit : ℕ
suppress_pos_resp_bit = 0x80
