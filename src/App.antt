-- ===== src/App.antt =====
-- The telemetry source of src/app_engine.c and include/app_engine.h. Floating point and `sin` are
-- a parameter. The module-static `g_app` is the one engine that the functions are given.
pub mod Coolant
mod Examples
use vecu_uds.Base.{
  ℕ, ◌+◌, ◌%◌, Bool, List, [], ◌∷◌, Option, none, some, bit_and, u8, u32, ltb, ◌==◌, if◌then◌else◌,
  ◌*◌, ◌>>>◌,
}

-- `double` with the operations that the source uses, and the C library's `sin`. `decimal n d` is
-- the literal n / d.
pub record Doubles : Type 1 where
  pub Double : Type 0
  pub decimal : ℕ → ℕ → Double
  pub of_u32 : ℕ → Double
  pub add : Double → Double → Double
  pub mul : Double → Double → Double
  pub less : Double → Double → Bool
  pub sin : Double → Double
  pub to_u16 : Double → ℕ
  pub to_u8 : Double → ℕ

-- `app_engine_t`
pub record AppEngine : Type 0 where
  pub rpm : ℕ  -- uint16_t
  pub speed_kmh : ℕ  -- uint8_t
  pub coolant_c : ℕ  -- uint8_t
  pub tick : ℕ  -- uint32_t

-- app_engine_init
unfoldable pub init : AppEngine
init = record { rpm = 800 * 4; speed_kmh = 0; coolant_c = 60; tick = 0 }

-- `rpm` and `speed_kmh` after the tick with number `n`
unfoldable pub rpm_at : Doubles → ℕ → ℕ
rpm_at d n =
    let t = d.mul (d.of_u32 n) (d.decimal 1 10) in
    let rpm =
      d.add (d.decimal 1500 1) (d.mul (d.decimal 700 1) (d.sin (d.mul t (d.decimal 3 10)))) in
    d.to_u16 (d.mul rpm (d.decimal 4 1))

unfoldable pub speed_at : Doubles → ℕ → ℕ
speed_at d n =
    let t = d.mul (d.of_u32 n) (d.decimal 1 10) in
    let speed =
      d.add (d.decimal 60 1) (d.mul (d.decimal 50 1) (d.sin (d.mul t (d.decimal 15 100)))) in
    d.to_u8 (
      if d.less speed (d.decimal 0 1)
      then d.decimal 0 1
      else if d.less (d.decimal 255 1) speed
      then d.decimal 255 1
      else speed)

-- app_engine_tick
unfoldable pub app_tick : Doubles → AppEngine → AppEngine
unfolding rpm_at speed_at
app_tick d a =
    let n = u32 (a.tick + 1) in
    record {
      rpm = rpm_at d n;
      speed_kmh = speed_at d n;
      coolant_c =
          if ltb a.coolant_c 92
          then (if n % 30 == 0 then u8 (a.coolant_c + 1) else a.coolant_c)
          else a.coolant_c;
      tick = n;
    }

-- The read callbacks, given the buffer's capacity; `none` is the return code -1.
unfoldable pub read_rpm : ℕ → AppEngine → Option (List ℕ)
read_rpm out_cap a =
    if ltb out_cap 2 then none else some (u8 (a.rpm >>> 8) ∷ u8 (bit_and a.rpm 0xFF) ∷ [])

unfoldable pub read_speed : ℕ → AppEngine → Option (List ℕ)
read_speed out_cap a = if ltb out_cap 1 then none else some (a.speed_kmh ∷ [])

-- The sum is an int16_t of a uint8_t and 40, never negative.
unfoldable pub read_coolant : ℕ → AppEngine → Option (List ℕ)
read_coolant out_cap a =
    if ltb out_cap 1
    then none
    else let enc = a.coolant_c + 40 in some (u8 (if ltb 255 enc then 255 else enc) ∷ [])
