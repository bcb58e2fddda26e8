-- ===== src/Base/Bytes.antt =====
-- Fixed-width unsigned integers: their wrap, and their big-endian bytes.
use fubuki_test.Base.{ℕ, ◌+◌, ◌*◌, ◌/◌, ◌%◌, ◌^◌, ◌<◌, ◌≡◌, List, [], ◌∷◌, arith}

abbrev pub u8 : ℕ → ℕ
u8 n = n % 2 ^ 8

abbrev pub u16 : ℕ → ℕ
u16 n = n % 2 ^ 16

abbrev pub u32 : ℕ → ℕ
u32 n = n % 2 ^ 32

abbrev pub u64 : ℕ → ℕ
u64 n = n % 2 ^ 64

-- `n.to_be_bytes()` of a u16 and of a u32; for an address also `octets()`.
unfoldable pub be16 : ℕ → List ℕ
be16 n = u8 (n / 256) ∷ u8 n ∷ []

unfoldable pub be32 : ℕ → List ℕ
be32 n = u8 (n / 2 ^ 24) ∷ u8 (n / 2 ^ 16) ∷ u8 (n / 2 ^ 8) ∷ u8 n ∷ []

-- `from_be_bytes`, at the two and four bytes of the array.
abbrev pub from_be16 : ℕ → ℕ → ℕ
from_be16 a b = a * 256 + b

abbrev pub from_be32 : ℕ → ℕ → ℕ → ℕ → ℕ
from_be32 a b c d = a * 2 ^ 24 + b * 2 ^ 16 + c * 2 ^ 8 + d

pub from_be16-be16 : (n : ℕ) → n < 2 ^ 16 → from_be16 (u8 (n / 256)) (u8 n) ≡ n
from_be16-be16 n h = omega arith

pub from_be32-be32 :
    (n : ℕ) → n < 2 ^ 32 → from_be32 (u8 (n / 2 ^ 24)) (u8 (n / 2 ^ 16)) (u8 (n / 2 ^ 8)) (u8 n) ≡ n
from_be32-be32 n h = omega arith
