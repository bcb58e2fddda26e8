-- ===== src/Base/Bits.antt =====
-- Exclusive or of bytes: it undoes itself, and a byte stays a byte.
use Prim.Native.Nat.{digits, differ, bit_xor-bitwise}
use native.Mathlib.Nat.{pow-suc}
use fubuki_test.Base.{ℕ, zero, suc, ◌+◌, ◌*◌, ◌/◌, ◌%◌, ◌^◌, ◌≤◌, ◌<◌, bit_xor, ◌≡◌, refl, arith}

abbrev xor_digits : ℕ → ℕ → ℕ → ℕ
xor_digits n a b = digits (λ y. y) differ n a b

xor_digits_fuel : (n m a b : ℕ) → a ≤ n → a ≤ m → xor_digits n a b ≡ xor_digits m a b
xor_digits_fuel zero zero a b p q = refl
xor_digits_fuel zero (suc m) zero b p q = refl
xor_digits_fuel zero (suc m) (suc a) b p q = absurd (omega arith)
xor_digits_fuel (suc n) zero zero b p q = refl
xor_digits_fuel (suc n) zero (suc a) b p q = absurd (omega arith)
xor_digits_fuel (suc n) (suc m) zero b p q = refl
xor_digits_fuel (suc n) (suc m) (suc a) b p q =
    omega (arith, xor_digits_fuel n m (suc a / 2) (b / 2) (omega arith) (omega arith))

pub zero-bit_xor : (b : ℕ) → bit_xor 0 b ≡ b
zero-bit_xor b = bit_xor-bitwise 0 b

differ-lt : (a b : ℕ) → a < 2 → b < 2 → differ a b < 2
differ-lt zero b p q = q
differ-lt (suc zero) zero p q = p
differ-lt (suc zero) (suc b) p q = omega arith
differ-lt (suc (suc a)) b p q = absurd (omega arith)

differ_undo : (a b : ℕ) → a < 2 → b < 2 → differ (differ a b) b ≡ a
differ_undo zero zero p q = refl
differ_undo zero (suc zero) p q = refl
differ_undo (suc zero) zero p q = refl
differ_undo (suc zero) (suc zero) p q = refl
differ_undo zero (suc (suc b)) p q = absurd (omega arith)
differ_undo (suc zero) (suc (suc b)) p q = absurd (omega arith)
differ_undo (suc (suc a)) b p q = absurd (omega arith)

-- The lowest digit apart from the others.
xor_step : (a b : ℕ) → bit_xor a b ≡ bit_xor (a / 2) (b / 2) * 2 + differ (a % 2) (b % 2)
xor_step zero b = omega (arith, zero-bit_xor b, zero-bit_xor (b / 2))
xor_step (suc a) b = omega (
  arith,
  bit_xor-bitwise (suc a) b,
  bit_xor-bitwise (suc a / 2) (b / 2),
  xor_digits_fuel a (suc a / 2) (suc a / 2) (b / 2) (omega arith) (omega arith),
)

undo_fuel : (n a k : ℕ) → a ≤ n → k ≤ n → bit_xor (bit_xor a k) k ≡ a
undo_fuel zero zero zero p q = refl
undo_fuel zero (suc a) k p q = absurd (omega arith)
undo_fuel zero zero (suc k) p q = absurd (omega arith)
undo_fuel (suc n) a k p q =
    let low : differ (a % 2) (k % 2) < 2 = differ-lt (a % 2) (k % 2) (omega arith) (omega arith) in
    let top : bit_xor a k / 2 ≡ bit_xor (a / 2) (k / 2) = omega (arith, xor_step a k) in
    let bit : bit_xor a k % 2 ≡ differ (a % 2) (k % 2) = omega (arith, xor_step a k) in
    ground (
      arith,
      xor_step (bit_xor a k) k,
      differ_undo (a % 2) (k % 2),
      undo_fuel n (a / 2) (k / 2) (omega arith) (omega arith),
    )

-- Applying a key twice gives the number back, whatever its width.
pub bit_xor_undo : (a k : ℕ) → bit_xor (bit_xor a k) k ≡ a
bit_xor_undo a k = undo_fuel (a + k) a k (omega arith) (omega arith)

pub bit_xor-lt : (w a b : ℕ) → a < 2 ^ w → b < 2 ^ w → bit_xor a b < 2 ^ w
bit_xor-lt zero a b p q =
    let x : a ≡ 0 = omega arith in let y : b ≡ 0 = omega arith in rw (x, y) (omega arith)
bit_xor-lt (suc w) a b p q = omega (
  arith,
  pow-suc 2 w,
  xor_step a b,
  differ-lt (a % 2) (b % 2) (omega arith) (omega arith),
  bit_xor-lt w (a / 2) (b / 2) (omega (arith, pow-suc 2 w)) (omega (arith, pow-suc 2 w)),
)
