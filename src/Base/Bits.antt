-- ===== src/Base/Bits.antt =====
-- Masks and disjoint fields as arithmetic: `&` with low ones, `|` of fields that do not overlap.
use Prim.Native.Nat.{
  ℕ, zero, suc, ◌+◌, ◌*◌, ◌/◌, ◌%◌, ◌^◌, ◌≤◌, ◌<◌, min, max, bit_and, bit_or, digits,
  bit_and-bitwise, bit_or-bitwise, bit_xor, bit_xor-bitwise, differ,
}
use mathlib.Core.Path.{◌≡◌, refl, ap}
use native.Mathlib.Omega.{arith}
use native.Mathlib.Nat.{pow-suc}

-- Any two amounts of fuel that cover the first number give the same digits.
enough_digits :
    (z : ℕ → ℕ) (f : ℕ → ℕ → ℕ) (n m a b : ℕ) → a ≤ n → a ≤ m → digits z f n a b ≡ digits z f m a b
enough_digits z f zero zero a b p q = refl
enough_digits z f zero (suc m) zero b p q = refl
enough_digits z f zero (suc m) (suc a) b p q = absurd (omega arith)
enough_digits z f (suc n) zero zero b p q = refl
enough_digits z f (suc n) zero (suc a) b p q = absurd (omega arith)
enough_digits z f (suc n) (suc m) zero b p q = refl
enough_digits z f (suc n) (suc m) (suc a) b p q =
    ap (λ d. d * 2 + f (suc a % 2) (b % 2))
      (enough_digits z f n m (suc a / 2) (b / 2) (omega arith) (omega arith))

-- One equation for the lowest digit of each operation.
bit_or-low : (a b : ℕ) → bit_or a b ≡ bit_or (a / 2) (b / 2) * 2 + max (a % 2) (b % 2)
bit_or-low zero b = omega (arith, bit_or-bitwise 0 b, bit_or-bitwise 0 (b / 2))
bit_or-low (suc a) b = omega (
  arith,
  bit_or-bitwise (suc a) b,
  bit_or-bitwise (suc a / 2) (b / 2),
  enough_digits (λ y. y) max a (suc a / 2) (suc a / 2) (b / 2) (omega arith) (omega arith),
)

bit_and-low : (a b : ℕ) → bit_and a b ≡ bit_and (a / 2) (b / 2) * 2 + min (a % 2) (b % 2)
bit_and-low zero b = omega (arith, bit_and-bitwise 0 b, bit_and-bitwise 0 (b / 2))
bit_and-low (suc a) b = omega (
  arith,
  bit_and-bitwise (suc a) b,
  bit_and-bitwise (suc a / 2) (b / 2),
  enough_digits (λ y. 0) min a (suc a / 2) (suc a / 2) (b / 2) (omega arith) (omega arith),
)

-- With nothing on the right; a bound on the number carries the induction.
nothing_or : (n a : ℕ) → a ≤ n → bit_or a 0 ≡ a
nothing_or n zero h = refl
nothing_or zero (suc a) h = absurd (omega arith)
nothing_or (suc n) (suc a) h =
    omega (arith, bit_or-low (suc a) 0, nothing_or n (suc a / 2) (omega arith))

nothing_and : (n a : ℕ) → a ≤ n → bit_and a 0 ≡ 0
nothing_and n zero h = refl
nothing_and zero (suc a) h = absurd (omega arith)
nothing_and (suc n) (suc a) h =
    omega (arith, bit_and-low (suc a) 0, nothing_and n (suc a / 2) (omega arith))

twice_shift : (a k : ℕ) → a * 2 ^ suc k ≡ 2 * (a * 2 ^ k)
twice_shift a k = omega (arith, ap (λ (t : ℕ). a * t) (pow-suc 2 k))

-- `(a << k) | b` is the sum where `b` has `k` bits.
pub bit_or_disjoint : (k a b : ℕ) → b < 2 ^ k → bit_or (a * 2 ^ k) b ≡ a * 2 ^ k + b
bit_or_disjoint zero a b h = ground (arith, nothing_or a a)
bit_or_disjoint (suc k) a b h = ground (
  arith,
  bit_or-low (a * 2 ^ suc k) b,
  twice_shift a k,
  pow-suc 2 k,
  bit_or_disjoint k a (b / 2) (omega (arith, pow-suc 2 k)),
)

-- Two and four bytes, the highest first.
pub bit_or_two_bytes : (a b : ℕ) → b < 256 → bit_or (a * 2 ^ 8) b ≡ a * 256 + b
bit_or_two_bytes a b h = bit_or_disjoint 8 a b h

pub bit_or_four_bytes :
    (a b c d : ℕ)
    → b < 256
    → c < 256
    → d < 256
    → bit_or (bit_or (bit_or (a * 2 ^ 24) (b * 2 ^ 16)) (c * 2 ^ 8)) d
      ≡ ((a * 256 + b) * 256 + c) * 256 + d
bit_or_four_bytes a b c d hb hc hd =
    let two : bit_or (a * 2 ^ 24) (b * 2 ^ 16) ≡ (a * 256 + b) * 2 ^ 16 =
      omega (arith, bit_or_disjoint 24 a (b * 2 ^ 16) (omega arith)) in
    let three : bit_or ((a * 256 + b) * 2 ^ 16) (c * 2 ^ 8) ≡ ((a * 256 + b) * 256 + c) * 2 ^ 8 =
      omega (arith, bit_or_disjoint 16 (a * 256 + b) (c * 2 ^ 8) (omega arith)) in
    rw (two, three) (bit_or_two_bytes ((a * 256 + b) * 256 + c) d hd)

-- `a & m` for a mask of low ones keeps the low digits.
pub bit_and-one : (a : ℕ) → bit_and a 1 ≡ a % 2
bit_and-one a = omega (arith, bit_and-low a 1, nothing_and (a / 2) (a / 2))

-- A mask of one bit picks the digit there.
pub bit_and_bit_one : (a : ℕ) → bit_and a 2 ≡ a / 2 % 2 * 2
bit_and_bit_one a = omega (arith, bit_and-low a 2, bit_and-one (a / 2))

pub bit_and_bit_two : (a : ℕ) → bit_and a 4 ≡ a / 4 % 2 * 4
bit_and_bit_two a = omega (arith, bit_and-low a 4, bit_and_bit_one (a / 2))

pub bit_and_bit_three : (a : ℕ) → bit_and a 8 ≡ a / 8 % 2 * 8
bit_and_bit_three a = omega (arith, bit_and-low a 8, bit_and_bit_two (a / 2))

pub bit_and_bit_five : (a : ℕ) → bit_and a 32 ≡ a / 32 % 2 * 32
bit_and_bit_five a =
    omega (arith, bit_and-low a 32, bit_and-low (a / 2) 16, bit_and_bit_three (a / 2 / 2))

pub bit_and_bit_seven : (a : ℕ) → bit_and a 128 ≡ a / 128 % 2 * 128
bit_and_bit_seven a =
    omega (arith, bit_and-low a 128, bit_and-low (a / 2) 64, bit_and_bit_five (a / 2 / 2))

bit_and_three : (a : ℕ) → bit_and a 3 ≡ a % 4
bit_and_three a = omega (arith, bit_and-low a 3, bit_and-one (a / 2))

pub bit_and_nibble : (a : ℕ) → bit_and a 0x0F ≡ a % 16
bit_and_nibble a = omega (arith, bit_and-low a 15, bit_and-low (a / 2) 7, bit_and_three (a / 2 / 2))

pub bit_and_seven_bits : (a : ℕ) → bit_and a 0x7F ≡ a % 128
bit_and_seven_bits a = omega (
  arith,
  bit_and-low a 127,
  bit_and-low (a / 2) 63,
  bit_and-low (a / 2 / 2) 31,
  bit_and_nibble (a / 2 / 2 / 2),
)

pub bit_and_byte : (a : ℕ) → bit_and a 0xFF ≡ a % 256
bit_and_byte a = omega (arith, bit_and-low a 255, bit_and_seven_bits (a / 2))

-- Where the mask's lowest digits are ones, those of the number are kept, one and four at a time.
and_digit : (a m : ℕ) → m % 2 ≡ 1 → bit_and a m ≡ bit_and (a / 2) (m / 2) * 2 + a % 2
and_digit a m h = omega (arith, bit_and-low a m)

and_nibble :
    (a m : ℕ)
    → m % 16 ≡ 15
    → bit_and a m ≡ bit_and (a / 2 / 2 / 2 / 2) (m / 2 / 2 / 2 / 2) * 16 + a % 16
and_nibble a m h = omega (
  arith,
  and_digit a m (omega arith),
  and_digit (a / 2) (m / 2) (omega arith),
  and_digit (a / 2 / 2) (m / 2 / 2) (omega arith),
  and_digit (a / 2 / 2 / 2) (m / 2 / 2 / 2) (omega arith),
)

pub bit_and_eleven_bits : (a : ℕ) → bit_and a 0x7FF ≡ a % 2048
bit_and_eleven_bits a =
    omega (arith, and_nibble a 0x7FF (omega arith), bit_and_seven_bits (a / 2 / 2 / 2 / 2))

bit_and_two_bytes : (a : ℕ) → bit_and a 0xFFFF ≡ a % 65536
bit_and_two_bytes a = omega (
  arith,
  and_nibble a 0xFFFF (omega arith),
  and_nibble (a / 2 / 2 / 2 / 2) 0xFFF (omega arith),
  bit_and_byte (a / 2 / 2 / 2 / 2 / 2 / 2 / 2 / 2),
)

pub bit_and_three_bytes : (a : ℕ) → bit_and a 0xFFFFFF ≡ a % 16777216
bit_and_three_bytes a = omega (
  arith,
  and_nibble a 0xFFFFFF (omega arith),
  and_nibble (a / 2 / 2 / 2 / 2) 0xFFFFF (omega arith),
  bit_and_two_bytes (a / 2 / 2 / 2 / 2 / 2 / 2 / 2 / 2),
)

-- `^` stays within the width of its operands.
bit_xor-low : (a b : ℕ) → bit_xor a b ≡ bit_xor (a / 2) (b / 2) * 2 + differ (a % 2) (b % 2)
bit_xor-low zero b =
    omega (arith, bit_xor-bitwise 0 b, bit_xor-bitwise 0 (b / 2), zero-differ (b % 2))
  where
    zero-differ : (n : ℕ) → differ 0 n ≡ n
    zero-differ n = refl
bit_xor-low (suc a) b = omega (
  arith,
  bit_xor-bitwise (suc a) b,
  bit_xor-bitwise (suc a / 2) (b / 2),
  enough_digits (λ y. y) differ a (suc a / 2) (suc a / 2) (b / 2) (omega arith) (omega arith),
)

differ-le_one : (x y : ℕ) → x ≤ 1 → y ≤ 1 → differ x y ≤ 1
differ-le_one zero y p q = q
differ-le_one (suc x) zero p q = p
differ-le_one (suc zero) (suc zero) p q = omega arith
differ-le_one (suc zero) (suc (suc y)) p q = absurd (omega arith)
differ-le_one (suc (suc x)) (suc y) p q = absurd (omega arith)

pub bit_xor-lt : (k a b : ℕ) → a < 2 ^ k → b < 2 ^ k → bit_xor a b < 2 ^ k
bit_xor-lt zero a b p q = ground (arith, bit_xor-bitwise a b)
bit_xor-lt (suc k) a b p q = omega (
  arith,
  bit_xor-low a b,
  pow-suc 2 k,
  differ-le_one (a % 2) (b % 2) (omega arith) (omega arith),
  bit_xor-lt k (a / 2) (b / 2) (omega (arith, pow-suc 2 k)) (omega (arith, pow-suc 2 k)),
)

-- A mask that ends in a zero drops the lowest digit; the top bit of a byte is one digit left.
and_no_digit : (a m : ℕ) → m % 2 ≡ 0 → bit_and a m ≡ bit_and (a / 2) (m / 2) * 2
and_no_digit a m h = omega (arith, bit_and-low a m)

pub bit_and_top_bit : (a : ℕ) → a < 256 → bit_and a 0x80 ≡ a / 128 * 128
bit_and_top_bit a h = omega (
  arith,
  and_no_digit a 128 (omega arith),
  and_no_digit (a / 2) 64 (omega arith),
  and_no_digit (a / 2 / 2) 32 (omega arith),
  and_no_digit (a / 2 / 2 / 2) 16 (omega arith),
  and_no_digit (a / 2 / 2 / 2 / 2) 8 (omega arith),
  and_no_digit (a / 2 / 2 / 2 / 2 / 2) 4 (omega arith),
  and_no_digit (a / 2 / 2 / 2 / 2 / 2 / 2) 2 (omega arith),
  bit_and-one (a / 2 / 2 / 2 / 2 / 2 / 2 / 2),
)
