-- ===== src/Protocol/Buffer.antt =====
-- Byte buffers that messages are written into and read from (src/common/net.rs).
use mathlib.Core.Option
use fubuki_test.Base.{
  ℕ, zero, suc, get_elem?, ◌-◌, ◌≤◌, Option, none, some, List, [], ◌∷◌, ◌++◌, ◌≡◌, refl, length,
  arith, ap,
}
use fubuki_test.Base.Bytes.{from_be16, from_be32}

-- `out[i..i + bytes.len()].copy_from_slice(bytes)`, with `none` for a range that is not in `out`.
abbrev pub write_at : List ℕ → ℕ → List ℕ → Option (List ℕ)
write_at out zero [] = some out
write_at [] zero (b ∷ bs) = none
write_at (o ∷ os) zero (b ∷ bs) = Option.map (λ l. b ∷ l) (write_at os zero bs)
write_at [] (suc i) bs = none
write_at (o ∷ os) (suc i) bs = Option.map (λ l. o ∷ l) (write_at os i bs)

-- The first `n` bytes and the others, with `none` if there are fewer.
abbrev pub split_at : ℕ → List ℕ → Option (List ℕ × List ℕ)
split_at zero xs = some ([], xs)
split_at (suc n) [] = none
split_at (suc n) (x ∷ xs) = Option.map (λ (p : List ℕ × List ℕ). (x ∷ p.0, p.1)) (split_at n xs)

-- `&xs[n..]`, with `none` for an index beyond the end.
abbrev pub slice_from : ℕ → List ℕ → Option (List ℕ)
slice_from zero xs = some xs
slice_from (suc n) [] = none
slice_from (suc n) (x ∷ xs) = slice_from n xs

-- `f(&mut out[i..j])`: the bytes of the range are replaced, with `none` for one not in `out`.
abbrev pub update_range : List ℕ → ℕ → ℕ → (List ℕ → List ℕ) → Option (List ℕ)
update_range out i j f = elim (split_at i out) [
  | none ↦ none
  | some (a, b) ↦ elim (split_at (j - i) b) [ none ↦ none | some (c, d) ↦ some (a ++ f c ++ d) ]
]

-- The number in the first two or four bytes of a slice.
abbrev pub first16 : List ℕ → Option ℕ
first16 (a ∷ b ∷ _) = some (from_be16 a b)
first16 _ = none

abbrev pub first32 : List ℕ → Option ℕ
first32 (a ∷ b ∷ c ∷ d ∷ _) = some (from_be32 a b c d)
first32 _ = none

pub split_at-append :
    (n : ℕ) (xs ys : List ℕ) → n ≡ length xs → split_at n (xs ++ ys) ≡ some (xs, ys)
split_at-append zero [] ys e = refl
split_at-append zero (x ∷ xs) ys e = absurd (omega arith)
split_at-append (suc n) [] ys e = absurd (omega arith)
split_at-append (suc n) (x ∷ xs) ys e = rw (split_at-append n xs ys (omega arith))

-- A list of at least `n` elements, at `n`.
pub split_at_enough :
    (n : ℕ) (xs : List ℕ)
    → n ≤ length xs
    → (a : List ℕ) × (b : List ℕ) × (xs ≡ a ++ b) × (length a ≡ n)
split_at_enough zero xs h = ([], xs, refl, refl)
split_at_enough (suc n) [] h = absurd (omega arith)
split_at_enough (suc n) (x ∷ xs) h =
    let (a, b, e, l) = split_at_enough n xs (omega arith) in (x ∷ a, b, ap (λ t. x ∷ t) e, ap suc l)

pub slice_from-first16 :
    (xs : List ℕ) (n : ℕ) → first16 xs ≡ some n → (r : List ℕ) × (slice_from 2 xs ≡ some r)
slice_from-first16 [] n e = cc
slice_from-first16 (a ∷ []) n e = cc
slice_from-first16 (a ∷ b ∷ r) n e = (r, refl)

pub slice_from-first32 :
    (xs : List ℕ) (n : ℕ) → first32 xs ≡ some n → (r : List ℕ) × (slice_from 4 xs ≡ some r)
slice_from-first32 (a ∷ b ∷ c ∷ d ∷ r) n e = (r, refl)
slice_from-first32 _ n e = cc

pub slice_from-get_elem? :
    (xs : List ℕ) (n : ℕ) → get_elem? xs 1 ≡ some n → (r : List ℕ) × (slice_from 2 xs ≡ some r)
slice_from-get_elem? [] n e = cc
slice_from-get_elem? (a ∷ []) n e = cc
slice_from-get_elem? (a ∷ b ∷ r) n e = (r, refl)

-- A write over as many bytes.
pub write_at-append :
    (old bytes rest : List ℕ)
    → length old ≡ length bytes
    → write_at (old ++ rest) 0 bytes ≡ some (bytes ++ rest)
write_at-append [] [] [] e = refl
write_at-append [] [] (r ∷ rest) e = refl
write_at-append [] (b ∷ bytes) rest e = absurd (omega arith)
write_at-append (o ∷ old) [] rest e = absurd (omega arith)
write_at-append (o ∷ old) (b ∷ bytes) rest e = rw (write_at-append old bytes rest (omega arith))
