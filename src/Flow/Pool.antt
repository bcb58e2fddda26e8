-- ===== src/Flow/Pool.antt =====
-- The pool as a map from addresses to values, kept by `add_address` and `remove_address`.
use fubuki_test.Base.{
  ℕ, zero, suc, ◌<◌, ◌≡◌, refl, Bool-cases, Option, none, some, List, [], ◌∷◌, ◌⊎◌, inl, inr, All,
  All-insert_at, All-remove_at, All-map, ltb, ltb→lt, ◌==◌, if◌then◌else◌, remove_at, arith,
}
use fubuki_test.Flow.{Entry, FlowControl, search, past, added, removed, add_address, remove_address}

abbrev pub IsBefore : ℕ → Entry → Type 0
IsBefore a w = a < w.addr

abbrev pub IsSorted : List Entry → Type 0
IsSorted [] = Unit
IsSorted (e ∷ es) = All (IsBefore e.addr) es × IsSorted es

abbrev pub value_of : ℕ → List Entry → Option (ℕ × ℕ)
value_of a [] = none
value_of a (e ∷ es) =
    if ltb e.addr a then value_of a es else (if e.addr == a then some e.value else none)

added-past :
    (now addr : ℕ) (e : Entry) (es : List Entry) (r : ℕ ⊎ ℕ)
    → added now addr (e ∷ es) (past r) ≡ e ∷ added now addr es r
added-past now addr e es (inl i) = refl
added-past now addr e es (inr i) = refl

All-added :
    (P : Entry → Type 0) (now addr : ℕ) (es : List Entry) (r : ℕ ⊎ ℕ)
    → P (record { addr = addr; value = (0, now) })
    → All P es
    → All P (added now addr es r)
All-added P now addr es (inl i) p ps = ps
All-added P now addr es (inr i) p ps =
    All-insert_at P i (record { addr = addr; value = (0, now) }) es p ps

added-IsSorted :
    (now addr : ℕ) (es : List Entry) → IsSorted es → IsSorted (added now addr es (search addr es))
unfolding search
added-IsSorted now addr [] h = (tt, tt)
added-IsSorted now addr (e ∷ es) (below, h) = elim (Bool-cases (ltb e.addr addr)) [
  | inl less ↦
      rw (less, added-past now addr e es (search addr es))
        (
          All-added (IsBefore e.addr) now addr es (search addr es) (ltb→lt e.addr addr less) below,
          added-IsSorted now addr es h,
        )
  | inr more ↦ elim (Bool-cases (e.addr == addr)) [
    | inl same ↦ rw (more, same) (below, h)
    | inr other ↦
        let lt : addr < e.addr = ground arith in
        rw (more, other) ((lt, All-map (IsBefore e.addr) (λ w q. omega arith) es below), (below, h))
  ]
]

-- Adding an address keeps a sorted pool sorted, without a second entry for the address.
pub add_address-IsSorted :
    {Net : Type 0} (now addr : ℕ) (fc : FlowControl Net)
    → IsSorted fc.pool
    → IsSorted (add_address now addr fc).pool
unfolding add_address
add_address-IsSorted now addr fc h = added-IsSorted now addr fc.pool h

remove_at-IsSorted : (i : ℕ) (es : List Entry) → IsSorted es → IsSorted (remove_at i es)
remove_at-IsSorted i [] h = tt
remove_at-IsSorted zero (e ∷ es) (below, h) = h
remove_at-IsSorted (suc i) (e ∷ es) (below, h) =
    (All-remove_at (IsBefore e.addr) i es below, remove_at-IsSorted i es h)

removed-IsSorted : (es : List Entry) (r : ℕ ⊎ ℕ) → IsSorted es → IsSorted (removed es r)
removed-IsSorted es (inl i) h = remove_at-IsSorted i es h
removed-IsSorted es (inr i) h = h

-- Removing an address keeps a sorted pool sorted.
pub remove_address-IsSorted :
    {Net : Type 0} (addr : ℕ) (fc : FlowControl Net)
    → IsSorted fc.pool
    → IsSorted (remove_address addr fc).pool
unfolding remove_address
remove_address-IsSorted addr fc h = removed-IsSorted fc.pool (search addr fc.pool) h

or_new : ℕ → Option (ℕ × ℕ) → Option (ℕ × ℕ)
or_new now none = some (0, now)
or_new now (some v) = some v

value_of-added :
    (now addr b : ℕ) (es : List Entry)
    → value_of b (added now addr es (search addr es))
      ≡ (if b == addr then or_new now (value_of addr es) else value_of b es)
unfolding search or_new
value_of-added now addr b [] = ground arith
value_of-added now addr b (e ∷ es) = elim (Bool-cases (ltb e.addr addr)) [
  | inl less ↦
      rw (less, added-past now addr e es (search addr es))
        (ground (arith, value_of-added now addr b es))
  | inr more ↦ elim (Bool-cases (e.addr == addr)) [
    | inl same ↦ rw (more, same) (ground arith)
    | inr other ↦ rw (more, other) (ground arith)
  ]
]
