-- ===== src/Vecu.antt =====
-- The central ECU state of src/vecu.c and include/vecu.h. Each function runs under one mutex, so a
-- call is one step. The module-static `g_state_for_owner` is the one state that the functions are
-- given; mutexes carry no data.
pub mod Owner
use Prim.Native.String.{String}
use Prim.Native.Char.{code}
use vecu_uds.Base.{
  ℕ, ◌+◌, Bool, true, false, List, [], ◌∷◌, ◌++◌, Option, none, some, bit_or, ltb, ◌==◌, ◌||◌,
  if◌then◌else◌, length, take, drop, replicate,
}
use vecu_uds.Clock.{Timespec, now_ms}
use vecu_uds.Types.Session
use vecu_uds.App
use vecu_uds.App.{AppEngine, read_rpm, read_speed, read_coolant}
use vecu_uds.Did
use vecu_uds.Did.{
  ReadFn, WriteFn, DidEntry, DidTable, app_read_rpm, app_read_speed, app_read_coolant, owner_read,
  owner_write, no_entry,
}
use vecu_uds.Dtc
use vecu_uds.Dtc.{DtcMem, test_failed, confirmed, test_failed_since_last_clear}
use vecu_uds.Security
use vecu_uds.Security.{SecurityState}

-- OWNER_NAME_CAP
abbrev pub owner_name_cap : ℕ
owner_name_cap = 32

-- `vecu_state_t`
pub record Vecu : Type 0 where
  pub session : ℕ  -- uint8_t
  pub last_tester_present_ms : ℕ  -- uint64_t
  pub dids : DidTable
  pub app : AppEngine
  pub dtcs : DtcMem
  pub security : SecurityState
  pub owner_name : List ℕ
  pub owner_len : ℕ

-- The bytes of an ASCII literal, without its final 0.
abbrev pub codes : String → List ℕ
codes String.[] = []
codes (String.◌∷◌ c s) = code c ∷ codes s

abbrev pub vin_data : List ℕ
vin_data = codes "VF1234567890ABCDE" ++ 0 ∷ []

abbrev pub serial_data : List ℕ
serial_data = codes "ECU-DEMO-001" ++ 0 ∷ []

abbrev pub spare_data : List ℕ
spare_data = codes "SPN-0001" ++ 0 ∷ []

-- owner_read: the bytes written to `out` of capacity `out_cap`
unfoldable pub read_owner : ℕ → Vecu → List ℕ
read_owner out_cap s = take (if ltb out_cap s.owner_len then out_cap else s.owner_len) s.owner_name

-- owner_write; `none` is the return code -1
unfoldable pub write_owner : List ℕ → Vecu → Option Vecu
write_owner bytes s =
    if length bytes == 0 || ltb owner_name_cap (length bytes)
    then none
    else some (record s {
      owner_name = bytes ++ drop (length bytes) s.owner_name;
      owner_len = length bytes;
    })

-- the call of a callback through its pointer
unfoldable pub call_read : ReadFn → ℕ → Vecu → Option (List ℕ)
unfolding read_rpm read_speed read_coolant read_owner
call_read app_read_rpm out_cap s = read_rpm out_cap s.app
call_read app_read_speed out_cap s = read_speed out_cap s.app
call_read app_read_coolant out_cap s = read_coolant out_cap s.app
call_read owner_read out_cap s = some (read_owner out_cap s)

unfoldable pub call_write : WriteFn → List ℕ → Vecu → Option Vecu
call_write owner_write bytes s = write_owner bytes s

-- The DID registration of `vecu_init`, in order; no return code is looked at.
abbrev pub static_entry : ℕ → List ℕ → ℕ → DidEntry
static_entry did bytes len = record no_entry {
  did = did;
  static_data = some bytes;
  static_len = len;
}

abbrev pub read_entry : ℕ → ReadFn → DidEntry
read_entry did fn = record no_entry { did = did; read = some fn }

abbrev pub owner_entry : DidEntry
owner_entry = record no_entry {
  did = 0xF200;
  read = some owner_read;
  write = some owner_write;
  requires_security = true;
  requires_extended_session = true;
}

abbrev pub registered : List DidEntry
registered =
    static_entry 0xF190 vin_data 17
    ∷ static_entry 0xF18C serial_data 12
    ∷ static_entry 0xF187 spare_data 8
    ∷ read_entry 0x010C app_read_rpm
    ∷ read_entry 0x010D app_read_speed
    ∷ read_entry 0x0105 app_read_coolant
    ∷ owner_entry
    ∷ []

unfoldable pub add_all : List DidEntry → DidTable → DidTable
add_all [] t = t
add_all (e ∷ es) t = add_all es (Did.add e t).1

-- the table that `vecu_init` builds
unfoldable pub registered_dids : DidTable
unfolding Did.init Did.add add_all
registered_dids = add_all registered Did.init

abbrev pub seeded_status : ℕ
seeded_status = bit_or (bit_or test_failed confirmed) test_failed_since_last_clear

-- vecu_init
unfoldable pub init : Timespec → Vecu
unfolding now_ms registered_dids App.init Dtc.init Dtc.add Security.init
init clock = record {
  session = Session.default;
  last_tester_present_ms = now_ms clock;
  dids = registered_dids;
  app = App.init;
  dtcs = (Dtc.add 0x042000 seeded_status (Dtc.add 0x030100 seeded_status Dtc.init).1).1;
  security = Security.init;
  owner_name = codes "ANONYMOUS" ++ replicate 23 0;
  owner_len = 9;
}

-- vecu_get_session
abbrev pub get_session : Vecu → ℕ
get_session s = s.session

-- vecu_last_tester_present_ms
abbrev pub get_last_tester_present : Vecu → ℕ
get_last_tester_present s = s.last_tester_present_ms

-- vecu_set_session
unfoldable pub set_session : Timespec → ℕ → Vecu → Vecu
unfolding now_ms
set_session clock session s = record s { session = session; last_tester_present_ms = now_ms clock }

-- vecu_mark_tester_present
unfoldable pub mark_tester_present : Timespec → Vecu → Vecu
unfolding now_ms
mark_tester_present clock s = record s { last_tester_present_ms = now_ms clock }
