-- ===== src/Client/Monitor.antt =====
-- The monitor command of client/diag_tool.py, against the ECU of src/ and without an answer.
use vecu_uds.Base.{
  ◌∙◌, inr, inl, Bool-cases, append-nil, sym, Option, append_assoc, ap, ◌++◌, bit_and_byte, min,
  ◌/◌, ◌+◌, bit_and, ltb, ◌>>>◌, if◌then◌else◌, ◌^◌, ◌<◌, List, u8, ℕ, ◌≡◌, refl, arith, [], ◌∷◌,
  some, none,
}
use vecu_uds.Base.Int.{sub_ℕ, pos}
use vecu_uds.Client.{Error, World, Piece, Udsoncan, ok, raised, text, padded, ◌>>=◌, ◌>>◌}
use vecu_uds.Client.Commands.{
  exit_status, main, cmd_monitor, is_quit, read_telemetry, monitor_round, monitor,
}
use vecu_uds.App.{AppEngine}
use vecu_uds.Client.Codecs.{codecs, from_bytes}
use vecu_uds.Client.Ecu.{wire, Bench}
use vecu_uds.Clock.{Env}
use vecu_uds.Client.Calls.{next}
use vecu_uds.Client.Documented.{Documented}
use vecu_uds.Vecu.{registered_dids, codes}
use vecu_uds.Client.Values.{coolant_call, speed_call, rpm_call}

rpm_shown :
    (rpm : ℕ)
    → rpm < 2 ^ 16
    → from_bytes 0 (u8 (rpm >>> 8) ∷ u8 (bit_and rpm 0xFF) ∷ []) / 4 ≡ rpm / 4
unfolding from_bytes
rpm_shown rpm h = omega (arith, bit_and_byte rpm)

coolant_shown : (c : ℕ) → sub_ℕ (u8 (if ltb 255 (c + 40) then 255 else c + 40)) 40 ≡ pos (min 215 c)
coolant_shown c = ground arith

-- The lines of one screen.
abbrev pub screen : AppEngine → List (List Piece)
screen app =
    (text (codes "+----- vECU monitor -----+") ∷ [])
    ∷ (text (codes "| RPM     : ") ∷ padded 5 (pos (app.rpm / 4)) ∷ text (codes "        |") ∷ [])
    ∷ (text (codes "| Speed   : ") ∷ padded 3 (pos app.speed_kmh) ∷ text (codes " km/h    |") ∷ [])
    ∷ (text (codes "| Coolant : ")
        ∷ padded 3 (pos (min 215 app.coolant_c))
        ∷ text (codes " C       |")
        ∷ [])
    ∷ (text (codes "+------------------------+") ∷ [])
    ∷ (text (codes "(q to quit)") ∷ [])
    ∷ []

six_appended :
    {A : Type 0} (l : List A) (a b c d e f : A)
    → l ++ a ∷ [] ++ b ∷ [] ++ c ∷ [] ++ d ∷ [] ++ e ∷ [] ++ f ∷ []
      ≡ l ++ (a ∷ b ∷ c ∷ d ∷ e ∷ f ∷ [])
six_appended l a b c d e f = simp append_assoc

abbrev three_on : Bench → Bench
three_on b = next (next (next b b.vecu) b.vecu) b.vecu

-- Up to the first key that quits: the result, and what the rounds print.
abbrev pub ended : List ℕ → Option ℕ
ended [] = none
ended (ch ∷ keys) = if is_quit ch then some 0 else ended keys

abbrev pub screens : List ℕ → AppEngine → List (List Piece)
screens [] app = []
screens (ch ∷ keys) app = if is_quit ch then screen app else screen app ++ screens keys app

module _ (lib : Udsoncan Bench) (envs : ℕ → Env) (doc : Documented lib (wire envs)) where
  monitor_round_lem :
      (ch : ℕ) (w : World Bench)
      → w.ecu.vecu.dids ≡ registered_dids
      → w.ecu.vecu.app.rpm < 2 ^ 16
      → monitor_round lib ch w ≡ (
        ok (is_quit ch),
        record { ecu = three_on w.ecu; printed = w.printed ++ screen w.ecu.vecu.app },
      )
  unfolding monitor_round read_telemetry
  monitor_round_lem ch w table small =
      let b = w.ecu in
      rw
        (
          ◌>>=◌,
          ◌>>◌,
          rpm_call lib envs doc b table,
          speed_call lib envs doc (next b b.vecu) table,
          coolant_call lib envs doc (next (next b b.vecu) b.vecu) table,
          rpm_shown b.vecu.app.rpm small,
          coolant_shown b.vecu.app.coolant_c,
        )
        (ap (λ printed. (ok (is_quit ch), record { ecu = three_on b; printed = printed }))
          (six_appended w.printed _ _ _ _ _ _))

  monitor_loop_lem :
      (keys : List ℕ) (w : World Bench)
      → w.ecu.vecu.dids ≡ registered_dids
      → w.ecu.vecu.app.rpm < 2 ^ 16
      → let (r, w') = cmd_monitor lib keys w in
        (r ≡ ok (ended keys))
        × (w'.ecu.vecu ≡ w.ecu.vecu)
        × (w'.printed ≡ w.printed ++ screens keys w.ecu.vecu.app)
  unfolding cmd_monitor
  monitor_loop_lem [] w table small = (refl, refl, sym (append-nil w.printed))
  monitor_loop_lem (ch ∷ keys) w table small = elim (Bool-cases (is_quit ch)) [
    | inl quit ↦ rw (◌>>=◌, monitor_round_lem ch w table small, quit) (refl, refl, refl)
    | inr stays ↦
        rw (◌>>=◌, monitor_round_lem ch w table small, stays)
          (let rest =
              monitor_loop_lem keys
                (record { ecu = three_on w.ecu; printed = w.printed ++ screen w.ecu.vecu.app })
                table small in
            (
              rest.0,
              rest.1,
              rest.2 ∙ append_assoc w.printed (screen w.ecu.vecu.app) (screens keys w.ecu.vecu.app),
            ))
  ]

-- If the package does as documented, the table is that of vecu_init, the engine's speed has 16 bits
-- and its telemetry does not change meanwhile, the monitor command shows in every iteration, up to
-- and including the first with a key that quits, a quarter of the engine's rpm value, the speed, and
-- the coolant temperature, at most 215; it leaves the ECU's state alone, and ends with exit code 0
-- exactly if a key quits.
pub cmd_monitor_lem :
    (lib : Udsoncan Bench) (envs : ℕ → Env) (b : Bench) (keys : List ℕ)
    → Documented lib (wire envs)
    → b.vecu.dids ≡ registered_dids
    → b.vecu.app.rpm < 2 ^ 16
    → let (code, c, lines) = main lib (monitor keys) b in
      (code ≡ ended keys) × (c.vecu ≡ b.vecu) × (lines ≡ screens keys b.vecu.app)
unfolding main
cmd_monitor_lem lib envs b keys doc table small =
    let ran = monitor_loop_lem lib envs doc keys (record { ecu = b; printed = [] }) table small in
    (ap exit_status ran.0, ran.1, ran.2)

abbrev pub errors : List ℕ → List (List Piece)
errors [] = []
errors (ch ∷ keys) = (text (codes "error: ") ∷ []) ∷ errors keys

module _ {S : Type 0} (lib : Udsoncan S) (error : S → Error) (after_error : S → S)
    (unanswered : (s : S)
      → lib.read_data_by_identifier (codecs lib.ascii_codec) 0x010C s
        ≡ (raised (error s), after_error s)) where
  deaf_loop_lem :
      (keys : List ℕ) (w : World S)
      → let (r, w') = cmd_monitor lib keys w in
        (r ≡ ok none) × (w'.printed ≡ w.printed ++ errors keys)
  unfolding cmd_monitor monitor_round read_telemetry
  deaf_loop_lem [] w = (refl, sym (append-nil w.printed))
  deaf_loop_lem (ch ∷ keys) w =
      let w' : World S = record {
        ecu = after_error w.ecu;
        printed = w.printed ++ (text (codes "error: ") ∷ []) ∷ [];
      } in
      let rest = deaf_loop_lem keys w' in
      rw (◌>>=◌, ◌>>◌, unanswered w.ecu) (rest.0, rest.1 ∙ append_assoc w.printed _ (errors keys))

  -- As long as every read of the engine speed raises an exception, for whatever package and
  -- connection, the monitor command does not end, whatever keys are pressed: each iteration prints
  -- an error line and no key is looked at.
  pub monitor_unanswered :
      (keys : List ℕ) (s : S)
      → let (code, t, lines) = main lib (monitor keys) s in (code ≡ none) × (lines ≡ errors keys)
  unfolding main
  monitor_unanswered keys s =
      let ran = deaf_loop_lem keys (record { ecu = s; printed = [] }) in
      (ap exit_status ran.0, ran.1)
