-- ===== src/Base/Int.antt =====
-- Integers over the native numbers.
use vecu_uds.Base.{◌-◌, if◌then◌else◌, leb, ℕ}

-- `negsuc n` is -(n + 1)
pub data ℤ : Type 0 where
  pos : ℕ → ℤ
  negsuc : ℕ → ℤ

abbrev pub sub_ℕ : ℕ → ℕ → ℤ
sub_ℕ a b = if leb b a then pos (a - b) else negsuc (b - a - 1)
