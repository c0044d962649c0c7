-- ===== src/Client/Examples.antt =====
-- The commands of client/diag_tool.py on the state that vecu_init builds.
use vecu_uds.Vecu
use vecu_uds.Security
use vecu_uds.App
use vecu_uds.Uds.Invariant
use vecu_uds.Base.{◌++◌, ◌^◌, ◌+◌, ◌<◌, ◌≤◌, List, ℕ, ◌≡◌, refl, arith, true, some, none, [], ◌∷◌}
use vecu_uds.Client.{text, Udsoncan, raised, timed_out}
use vecu_uds.Client.Commands.{clear_dtc, main, unlock, read_dtc, monitor}
use vecu_uds.Client.Calls.{IsOpen, available}
use vecu_uds.Dtc.Stored
use vecu_uds.Uds.Reply.{dropped}
use vecu_uds.Client.Dtcs.{dtc_names, format_dtc, joined, status_flags}
use vecu_uds.Clock.{now_ms, Timespec, Env}
use vecu_uds.Client.Documented.{Wire, Documented}
use vecu_uds.Client.Codecs.{from_bytes, codecs, security_algo}
use vecu_uds.Client.Ecu.{wire, Bench}
use vecu_uds.Vecu.{codes, registered_dids}
use vecu_uds.Uds.Handshake.{FourBytes}
use vecu_uds.Client.Fixtures.{send, bench_lib-Documented, bench_lib}
use vecu_uds.Security.{seed_of, is_unlocked}
use vecu_uds.Client.Unlocked.{cmd_unlock_lem, unlock_lines, unlock_code}
use vecu_uds.Client.Monitor.{cmd_monitor_lem, monitor_unanswered, screen, errors}
use vecu_uds.Client.ClearDtc.{read-clear_command}

abbrev at_boot : Timespec
at_boot = record { tv_sec = 20; tv_nsec = 0 }

abbrev envs : ℕ → Env
envs n = record { clock = at_boot; clock_again = at_boot; entropy = some (0x12345678 + n) }

abbrev start : Bench
start = record { asked = 0; vecu = Vecu.init at_boot }

abbrev lib : Udsoncan Bench
lib = bench_lib (wire envs)

lib-Documented : Documented lib (wire envs)
lib-Documented = bench_lib-Documented (wire envs)

seeds-FourBytes : FourBytes (envs 1)
seeds-FourBytes n e = ground arith

level_locked : start.vecu.security.unlocked_level ≡ 0
unfolding Vecu.init Security.init
level_locked = refl

outside_lock_out : start.vecu.security.lock_until_ms ≤ now_ms (envs 1).clock
unfolding Vecu.init Security.init
outside_lock_out = omega arith

start-IsOpen : IsOpen envs start 1
start-IsOpen = available seeds-FourBytes level_locked outside_lock_out

table : start.vecu.dids ≡ registered_dids
unfolding Vecu.init
table = refl

rpm_small : start.vecu.app.rpm < 2 ^ 16
unfolding Vecu.init App.init
rpm_small = omega arith

cmd_unlock_lem_example :
    let (code, c, lines) = main lib (unlock 1) start in
    let before = is_unlocked 0x01 start.vecu.security in
    (is_unlocked 0x01 c.vecu.security ≡ true)
    × (code ≡ unlock_code before)
    × (lines ≡ unlock_lines before (seed_of (envs 1).entropy))
cmd_unlock_lem_example = cmd_unlock_lem lib envs start lib-Documented start-IsOpen

abbrev bob : List ℕ
bob = 66 ∷ 79 ∷ 66 ∷ []

read-clear_command_example :
    let (code, c, lines) = main lib clear_dtc start in
    let (code', d, lines') = main lib read_dtc c in
    (code ≡ some 0)
    × (lines ≡ (text (codes "DTCs cleared.") ∷ []) ∷ [])
    × (code' ≡ some 0)
    × (lines' ≡ (text (codes "No active DTCs.") ∷ []) ∷ [])
read-clear_command_example = read-clear_command lib envs start lib-Documented

cmd_monitor_lem_example :
    let (code, c, lines) = main lib (monitor (0 ∷ 113 ∷ [])) start in
    (code ≡ some 0)
    × (c.vecu ≡ start.vecu)
    × (lines ≡ screen start.vecu.app ++ screen start.vecu.app)
cmd_monitor_lem_example =
    cmd_monitor_lem lib envs start (0 ∷ 113 ∷ []) lib-Documented table rpm_small

-- An ECU that answers nothing.
abbrev silent : Wire Bench
silent req b = (dropped, b)

abbrev silent_lib : Udsoncan Bench
silent_lib = bench_lib silent

no_answer :
    (s : Bench)
    → silent_lib.read_data_by_identifier (codecs silent_lib.ascii_codec) 0x010C s
      ≡ (raised timed_out, s)
unfolding codecs send
no_answer s = refl

monitor_unanswered_example :
    let (code, t, lines) = main silent_lib (monitor (113 ∷ 27 ∷ [])) start in
    (code ≡ none) × (lines ≡ errors (113 ∷ 27 ∷ []))
monitor_unanswered_example =
    monitor_unanswered silent_lib (λ s. timed_out) (λ s. s) no_answer (113 ∷ 27 ∷ []) start

key_computed :
    security_algo (0x12 ∷ 0x34 ∷ 0x56 ∷ 0x79 ∷ []) ≡ some (0xCC ∷ 0x99 ∷ 0xE8 ∷ 0x96 ∷ [])
unfolding security_algo from_bytes
key_computed = refl

flags_named : status_flags 0x09 ≡ codes "testFailed, confirmed"
unfolding status_flags joined
flags_named = refl

no_flags : status_flags 0x10 ≡ 0x2014 ∷ []
unfolding status_flags
no_flags = refl

all_flags :
    status_flags 0xAF
    ≡ codes
        "testFailed, testFailedThisCycle, pending, confirmed, testFailedSinceClear, warningIndicator"
unfolding status_flags joined
all_flags = refl

misfire_line :
    format_dtc 0x030100 0x09
    ≡ text (codes "  ")
      ∷ text (codes "P0301  Cylinder 1 Misfire")
      ∷ text (codes "   [")
      ∷ text (codes "testFailed, confirmed")
      ∷ text (codes "]")
      ∷ []
unfolding format_dtc dtc_names status_flags joined
misfire_line = refl
