-- ===== src/Client/Values.antt =====
-- The values that client/diag_tool.py reads by identifier, against the ECU of src/.
use vecu_uds.Types.Sid
use vecu_uds.App
use vecu_uds.Base.{
  ◌<◌, ltb, bit_and, ◌^◌, if◌then◌else◌, ◌>>>◌, ◌*◌, u8, ap, ◌∙◌, ◌≤◌, length, ◌+◌, List, ℕ, ◌≡◌,
  refl, arith, [], ◌∷◌, some,
}
use vecu_uds.Client.{DidCodec, Udsoncan, ok}
use vecu_uds.Uds.Reply.{rd16_be, reply}
use vecu_uds.Uds.Identifiers.{did_response, entry_payload, read_did, filled}
use vecu_uds.Uds.Dispatch.{process_request}
use vecu_uds.Clock.{Env}
use vecu_uds.Did.{app_read_rpm, app_read_coolant, app_read_speed, lookup, DidEntry}
use vecu_uds.Vecu.{
  read_entry, serial_data, call_read, vin_data, static_entry, codes, registered_dids, Vecu,
}
use vecu_uds.Client.Ecu.{wire, Bench}
use vecu_uds.Client.Documented.{Documented}
use vecu_uds.Client.Codecs.{raw_codec, codecs}
use vecu_uds.Client.Calls.{wire_step, next}
use vecu_uds.Types.{max_msg_len}

abbrev did_request : ℕ → ℕ → List ℕ
did_request high low = Sid.read_data_by_identifier ∷ high ∷ low ∷ []

value_step :
    (env : Env) (high low resp_cap : ℕ) (e : DidEntry) (payload : List ℕ) (s : Vecu)
    → s.dids ≡ registered_dids
    → lookup (rd16_be (did_request high low) 1) registered_dids ≡ some e
    → entry_payload e.static_data e s ≡ filled payload
    → did_response (did_request high low) payload ≡ 0x62 ∷ high ∷ low ∷ payload
    → 3 + length payload ≤ resp_cap
    → process_request env (did_request high low) resp_cap s
      ≡ (reply (0x62 ∷ high ∷ low ∷ payload), s)
unfolding process_request read_did
value_step env high low resp_cap e payload s table found held echoed room = ground arith

module _ (lib : Udsoncan Bench) (envs : ℕ → Env) (doc : Documented lib (wire envs)) (b : Bench)
    (table : b.vecu.dids ≡ registered_dids) where
  abbrev pub Reads : ℕ → List ℕ → Type 0
  Reads did value =
      lib.read_data_by_identifier (codecs lib.ascii_codec) did b ≡ (ok value, next b b.vecu)

  value_call :
      (high low : ℕ) (codec : DidCodec) (e : DidEntry) (payload : List ℕ)
      → high < 2 ^ 8
      → low < 2 ^ 8
      → codecs lib.ascii_codec (high * 2 ^ 8 + low) ≡ some codec
      → lookup (rd16_be (did_request high low) 1) registered_dids ≡ some e
      → entry_payload e.static_data e b.vecu ≡ filled payload
      → did_response (did_request high low) payload ≡ 0x62 ∷ high ∷ low ∷ payload
      → codec.len ≡ length payload
      → length payload ≤ 17
      → Reads (high * 2 ^ 8 + low) (codec.decode payload)
  value_call high low codec e payload high_byte low_byte known found held echoed fits short =
      let step =
        value_step (envs b.asked) high low max_msg_len e payload b.vecu table found held echoed
          (omega arith) in
      (doc.read (codecs lib.ascii_codec) codec high low high_byte low_byte known).accepted b _ _ _
        (wire_step envs _ _ b b.vecu step) (rw fits (ground arith))

  pub vin_call : Reads 0xF190 (codes "VF1234567890ABCDE")
  unfolding codecs lookup registered_dids
  vin_call =
      value_call 0xF1 0x90 (lib.ascii_codec 17) (static_entry 0xF190 vin_data 17)
        (codes "VF1234567890ABCDE") (omega arith) (omega arith) refl refl refl refl
        (doc.ascii_len 17) (omega arith)
      ∙ ap (λ v. (ok v, next b b.vecu)) (doc.ascii_decode 17 (codes "VF1234567890ABCDE") refl refl)

  pub serial_call : Reads 0xF18C (codes "ECU-DEMO-001")
  unfolding codecs lookup registered_dids
  serial_call =
      value_call 0xF1 0x8C (lib.ascii_codec 12) (static_entry 0xF18C serial_data 12)
        (codes "ECU-DEMO-001") (omega arith) (omega arith) refl refl refl refl (doc.ascii_len 12)
        (omega arith)
      ∙ ap (λ v. (ok v, next b b.vecu)) (doc.ascii_decode 12 (codes "ECU-DEMO-001") refl refl)

  pub rpm_call : Reads 0x010C (u8 (b.vecu.app.rpm >>> 8) ∷ u8 (bit_and b.vecu.app.rpm 0xFF) ∷ [])
  unfolding codecs lookup registered_dids call_read App.read_rpm
  rpm_call =
      value_call 0x01 0x0C (raw_codec 2) (read_entry 0x010C app_read_rpm) _ (omega arith)
        (omega arith) refl refl refl refl refl (omega arith)

  pub speed_call : Reads 0x010D (b.vecu.app.speed_kmh ∷ [])
  unfolding codecs lookup registered_dids call_read App.read_speed
  speed_call =
      value_call 0x01 0x0D (raw_codec 1) (read_entry 0x010D app_read_speed) _ (omega arith)
        (omega arith) refl refl refl refl refl (omega arith)

  pub coolant_call :
      Reads 0x0105
        (u8 (if ltb 255 (b.vecu.app.coolant_c + 40) then 255 else b.vecu.app.coolant_c + 40) ∷ [])
  unfolding codecs lookup registered_dids call_read App.read_coolant
  coolant_call =
      value_call 0x01 0x05 (raw_codec 1) (read_entry 0x0105 app_read_coolant) _ (omega arith)
        (omega arith) refl refl refl refl refl (omega arith)
