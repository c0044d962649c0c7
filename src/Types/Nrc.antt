-- ===== src/Types/Nrc.antt =====
-- `uds_nrc_t` of include/uds_types.h: the codes that some operation returns.
use Prim.Native.Nat.{ℕ}

abbrev pub service_not_supported : ℕ
service_not_supported = 0x11

abbrev pub sub_function_not_supported : ℕ
sub_function_not_supported = 0x12

abbrev pub incorrect_message_length : ℕ
incorrect_message_length = 0x13

abbrev pub response_too_long : ℕ
response_too_long = 0x14

abbrev pub conditions_not_correct : ℕ
conditions_not_correct = 0x22

abbrev pub request_sequence_error : ℕ
request_sequence_error = 0x24

abbrev pub request_out_of_range : ℕ
request_out_of_range = 0x31

abbrev pub security_access_denied : ℕ
security_access_denied = 0x33

abbrev pub invalid_key : ℕ
invalid_key = 0x35

abbrev pub exceeded_number_of_attempts : ℕ
exceeded_number_of_attempts = 0x36

abbrev pub required_time_delay_not_expired : ℕ
required_time_delay_not_expired = 0x37

abbrev pub service_not_supported_in_session : ℕ
service_not_supported_in_session = 0x7F
