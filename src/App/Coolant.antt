-- ===== src/App/Coolant.antt =====
-- The coolant temperature of src/app_engine.c.
use vecu_uds.Base.{ℕ, zero, suc, ◌+◌, ◌/◌, ◌^◌, ◌<◌, ◌≡◌, refl, min, arith}
use vecu_uds.App.{Doubles, AppEngine, init, app_tick}

module _ (d : Doubles) where
  -- the engine after `n` calls of app_engine_tick on a fresh one
  pub ticks : ℕ → AppEngine
  ticks zero = init
  ticks (suc n) = app_tick d (ticks n)

  tick-ticks : (n : ℕ) → n < 2 ^ 32 → (ticks n).tick ≡ n
  unfolding ticks init app_tick
  tick-ticks zero h = refl
  tick-ticks (suc n) h = omega (arith, tick-ticks n (omega arith))

  -- After n ticks of a fresh engine, for any n that the 32-bit counter holds and whatever the
  -- floating point does, the coolant is at 60 °C plus one degree for every 30 ticks, and at most at
  -- 92 °C.
  pub coolant-ticks : (n : ℕ) → n < 2 ^ 32 → (ticks n).coolant_c ≡ min 92 (60 + n / 30)
  unfolding ticks init app_tick
  coolant-ticks zero h = refl
  coolant-ticks (suc n) h =
      ground (arith, coolant-ticks n (omega arith), tick-ticks n (omega arith))
