-- ===== src/Uds/Sections.antt =====
-- The handlers of src/uds.c cut at the points where another thread may run: each lock that they
-- take, directly or through src/vecu.c, src/security.c, src/dtc_mem.c and src/app_engine.c, is one
-- section. Reads that the source makes without a lock are sections too.
use vecu_uds.Types.Nrc
use vecu_uds.Types.Session
use vecu_uds.Types.Sid
use vecu_uds.Uds.Reply
use vecu_uds.Base.{
  true, ◌*◌, false, bit_and, ◌-◌, ◌&&◌, ◌||◌, ◌+◌, [], drop, ◌!=◌, ◌∷◌, u8, none, ◌==◌, not, ℕ, ltb,
  some, length, Bool, if◌then◌else◌, Option, List,
}
use vecu_uds.Did.{lookup, DidEntry, WriteFn}
use vecu_uds.Uds.Identifiers.{not_correct, too_large, did_response, filled, entry_payload, Payload}
use vecu_uds.Uds.Reply.{
  rd32_be, answer, build_nrc, rd16_be, is_extended_session, byte_at, dropped, reply, sub_function,
  Outcome,
}
use vecu_uds.Vecu.{set_session, mark_tester_present, call_write, Vecu}
use vecu_uds.Clock.{Env}
use vecu_uds.Dtc.{dtc_max, clear_all, snapshot_by_mask}
use vecu_uds.Security.{send_key, soft_reset, request_seed, is_unlocked}
use vecu_uds.Uds.Access.{key_outcome, seed_outcome}
use vecu_uds.Types.{pos_resp}
use vecu_uds.Uds.Faults.{encode_entries}
pub mod Simple
pub mod Data
pub mod Keys
pub mod Request
pub mod Whole
pub mod Sound
pub mod SafeWrites
pub mod Safe
pub mod Each
pub mod Keyed
pub mod Guarded

-- What is left of a handler's run: its return, or a section, which updates the state, followed by
-- what depends on the state that the section found.
pub data Program : Type 0 where
  return : Outcome → Program
  section : (Vecu → Vecu) → (Vecu → Program) → Program

-- No other thread in between.
unfoldable pub run : Program → Vecu → Outcome × Vecu
run (return o) s = (o, s)
run (section f k) s = run (k s) (f s)

-- One section of it.
abbrev pub advance : Program → Vecu → Program × Vecu
advance (return o) s = (return o, s)
advance (section f k) s = (k s, f s)

abbrev pub look : (Vecu → Program) → Program
look k = section (λ s. s) k

abbrev pub refusal : List ℕ → ℕ → Program
refusal req nrc = return (reply (build_nrc (byte_at req 0) nrc))

abbrev pub Sectioned : Type 0
Sectioned = Env → List ℕ → ℕ → Program

-- `if (test) { *resp_len = build_nrc(...); return 0; }` before the rest of a handler
unfoldable pub refuse_if : Bool → List ℕ → ℕ → Program → Program
refuse_if test req nrc rest = if test then refusal req nrc else rest
