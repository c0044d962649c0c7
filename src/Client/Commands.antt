-- ===== src/Client/Commands.antt =====
-- The commands of client/diag_tool.py, and main. A screen of curses is the lines put on it; of a
-- caught exception's message only the fixed text is kept.
use vecu_uds.Base.{
  ◌==◌, Bool, ◌/◌, false, drop, ◌!=◌, get_or, ◌||◌, ltb, if◌then◌else◌, ℕ, List, [], ◌∷◌, Option,
  none, some, length,
}
use vecu_uds.Base.Int.{ℤ, pos, sub_ℕ}
use vecu_uds.Client.{
  attempt, Piece, Result, padded, negative_response, timed_out, os_error, uncaught, ok, raised, hex,
  repr_of, decimal, or_raise, pure, call, print, Action, Udsoncan, ◌>>=◌, ◌>>◌, text,
}
use vecu_uds.Client.Codecs.{decode_ascii, from_bytes, security_algo, codecs}
use vecu_uds.Client.Dtcs.{format_dtc}
use vecu_uds.Vecu.{codes}

abbrev pub after_header : List ℕ → Option (List ℕ)
after_header raw =
    if ltb (length raw) 3
      || (get_or raw 0 0 != 0x62 || (get_or raw 1 0 != 0xF2 || get_or raw 2 0 != 0x00))
    then none
    else some (decode_ascii (drop 3 raw))

-- struct.unpack(">H", rpm_raw)[0] // 4
abbrev pub rpm_of : List ℕ → Option ℕ
rpm_of raw = if length raw != 2 then none else some (from_bytes 0 raw / 4)

-- bytes[0]
abbrev pub first_byte : List ℕ → Option ℕ
first_byte [] = none
first_byte (b ∷ bs) = some b

abbrev pub is_quit : ℕ → Bool
is_quit ch = ch == 113 || (ch == 81 || ch == 27)

-- args.cmd with its arguments; monitor with what getch would answer
pub data Command : Type 0 where
  read_vin read_serial read_dtc clear_dtc : Command
  unlock : (level : ℕ) → Command
  write_name : (name : List ℕ) → Command
  monitor : (keys : List ℕ) → Command

-- The exit status of the process: 1 is that of an exception which main does not catch.
abbrev pub exit_status : Result (Option ℕ) → Option ℕ
exit_status (ok code) = code
exit_status (raised negative_response) = some 2
exit_status (raised timed_out) = some 3
exit_status (raised os_error) = some 4
exit_status (raised uncaught) = some 1

module _ {S : Type 0} (lib : Udsoncan S) where
  abbrev pub read_value : ℕ → Action S (List ℕ)
  read_value did = call (lib.read_data_by_identifier (codecs lib.ascii_codec) did)

  unfoldable pub cmd_read_vin : Action S ℕ
  cmd_read_vin = do
    value ← read_value 0xF190
    print (text (codes "VIN: ") ∷ text value ∷ [])
    pure 0

  unfoldable pub cmd_read_serial : Action S ℕ
  cmd_read_serial = do
    value ← read_value 0xF18C
    print (text (codes "Serial: ") ∷ text value ∷ [])
    pure 0

  -- the loop of cmd_read_dtc
  abbrev pub print_dtcs : List (ℕ × ℕ) → Action S ℕ
  print_dtcs [] = pure 0
  print_dtcs ((dtc, status) ∷ dtcs) = do print (format_dtc dtc status); print_dtcs dtcs

  abbrev pub print_all : List (ℕ × ℕ) → Action S ℕ
  print_all [] = do print (text (codes "No active DTCs.") ∷ []); pure 0
  print_all (d ∷ ds) = do
    print (text (codes "Active DTCs (") ∷ decimal (length (d ∷ ds)) ∷ text (codes "):") ∷ [])
    print_dtcs (d ∷ ds)

  unfoldable pub cmd_read_dtc : Action S ℕ
  cmd_read_dtc = do dtcs ← call (lib.get_dtc_by_status_mask 0x09); print_all dtcs

  unfoldable pub cmd_clear_dtc : Action S ℕ
  cmd_clear_dtc = do
    call (lib.clear_dtc 0xFFFFFF)
    print (text (codes "DTCs cleared.") ∷ [])
    pure 0

  unfoldable pub cmd_unlock : ℕ → Action S ℕ
  cmd_unlock level = do
    call (lib.change_session 0x03)
    seed ← call (lib.request_seed level)
    key ← or_raise (security_algo seed)
    print (
        text (codes "Seed: 0x")
        ∷ hex 8 (from_bytes 0 seed)
        ∷ text (codes " -> Key: 0x")
        ∷ hex 8 (from_bytes 0 key)
        ∷ [])
    call (lib.send_key level key)
    print (text (codes "Security unlocked (level ") ∷ decimal level ∷ text (codes ").") ∷ [])
    pure 0

  unfoldable pub read_owner_raw : Action S (List ℕ)
  read_owner_raw = do
    raw ← call (lib.exchange (0x22 ∷ 0xF2 ∷ 0x00 ∷ []))
    or_raise (after_header raw)

  unfoldable pub cmd_write_name : List ℕ → Action S ℕ
  unfolding read_owner_raw
  cmd_write_name name = do
    call (lib.change_session 0x03)
    call (lib.unlock_security_access security_algo 1)
    call (lib.write_data_by_identifier (codecs lib.ascii_codec) 0xF200 name)
    print (text (codes "Owner name written: ") ∷ repr_of name ∷ [])
    confirmed ← read_owner_raw
    print (text (codes "Confirmed: ") ∷ repr_of confirmed ∷ [])
    pure 0

  -- the body of the try in the loop of cmd_monitor
  unfoldable pub read_telemetry : Action S (ℕ × ℕ × ℤ)
  read_telemetry = do
    rpm_raw ← read_value 0x010C
    spd_raw ← read_value 0x010D
    clt_raw ← read_value 0x0105
    rpm ← or_raise (rpm_of rpm_raw)
    speed ← or_raise (first_byte spd_raw)
    coolant ← or_raise (first_byte clt_raw)
    pure (rpm, speed, sub_ℕ coolant 40)

  abbrev pub print_screen : ℕ × ℕ × ℤ → Action S (Unit {0})
  print_screen (rpm, speed, coolant) = do
    print (text (codes "+----- vECU monitor -----+") ∷ [])
    print (text (codes "| RPM     : ") ∷ padded 5 (pos rpm) ∷ text (codes "        |") ∷ [])
    print (text (codes "| Speed   : ") ∷ padded 3 (pos speed) ∷ text (codes " km/h    |") ∷ [])
    print (text (codes "| Coolant : ") ∷ padded 3 coolant ∷ text (codes " C       |") ∷ [])
    print (text (codes "+------------------------+") ∷ [])
    print (text (codes "(q to quit)") ∷ [])

  -- One iteration of the loop, given what getch would answer in it; `true` leaves the loop.
  abbrev pub show : Option (ℕ × ℕ × ℤ) → ℕ → Action S Bool
  show none ch = do print (text (codes "error: ") ∷ []); pure false
  show (some telemetry) ch = do print_screen telemetry; pure (is_quit ch)

  unfoldable pub monitor_round : ℕ → Action S Bool
  unfolding read_telemetry
  monitor_round ch = do telemetry ← attempt read_telemetry; show telemetry ch

  -- The loop for as many iterations as `keys` has; `none` is that it still runs.
  unfoldable pub cmd_monitor : List ℕ → Action S (Option ℕ)
  unfolding monitor_round
  cmd_monitor [] = pure none
  cmd_monitor (ch ∷ keys) =
      monitor_round ch >>= λ quit. if quit then pure (some 0) else cmd_monitor keys

  abbrev pub ending : Action S ℕ → Action S (Option ℕ)
  ending act = do code ← act; pure (some code)

  -- handlers
  abbrev pub handler : Command → Action S (Option ℕ)
  handler read_vin = ending cmd_read_vin
  handler read_serial = ending cmd_read_serial
  handler read_dtc = ending cmd_read_dtc
  handler clear_dtc = ending cmd_clear_dtc
  handler (unlock level) = ending (cmd_unlock level)
  handler (write_name name) = ending (cmd_write_name name)
  handler (monitor keys) = cmd_monitor keys

  -- main with the client open: the exit status, the other end, and the lines printed
  unfoldable pub main : Command → S → Option ℕ × S × List (List Piece)
  unfolding cmd_read_vin cmd_read_serial cmd_read_dtc cmd_clear_dtc cmd_unlock cmd_write_name
      cmd_monitor
  main command s =
      let (r, w) = handler command (record { ecu = s; printed = [] }) in
      (exit_status r, w.ecu, w.printed)
