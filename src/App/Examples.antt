-- ===== src/App/Examples.antt =====
-- The coolant of src/app_engine.c over doubles of one value.
use vecu_uds.App.{Doubles}
use vecu_uds.App.Coolant.{coolant-ticks, ticks}
use vecu_uds.Base.{◌^◌, ◌%◌, arith, ltb, ◌/◌, ◌*◌, ◌+◌, min, ◌≡◌, ℕ}

abbrev flat : Doubles
flat = record {
  Double = ℕ;
  decimal = λ n d. n;
  of_u32 = λ n. n;
  add = λ x y. x + y;
  mul = λ x y. x * y;
  less = λ x y. ltb x y;
  sin = λ x. 0;
  to_u16 = λ x. x % 2 ^ 16;
  to_u8 = λ x. x % 2 ^ 8;
}

coolant-ticks_example : (ticks flat 1000).coolant_c ≡ min 92 (60 + 1000 / 30)
coolant-ticks_example = coolant-ticks flat 1000 (omega arith)
