-- ===== src/Nodes/CrossNat/Sessions.antt =====
-- The sorted mapping of `udp_inbound_handler` (src/node/cross_nat.rs): what a binary search finds, and
-- what an insertion or a removal at its index leaves.
use fubuki_test.Base.{
  ℕ, ◌≤◌, ◌<◌, ◌≡◌, refl, sym, ◌∙◌, ◌⊎◌, inl, inr, Bool, true, false, Bool-cases, ◌&&◌, ◌||◌, not,
  Option, none, some, [], ◌∷◌, All, All-map, All-insert_at, All-remove_at, ltb, ◌==◌, insert_at,
  remove_at, get_elem?, ℕ_discrete, none-absurd, Outcome, ok, panic, arith,
}
use fubuki_test.Nodes.CrossNat.{
  Session, Mapping, further, binary_search, insert_session, remove_session, find_session, touch,
}

abbrev pub has : (from : ℕ) → Mapping → Bool
has from [] = false
has from (s ∷ ss) = s.from == from || has from ss

abbrev pub IsSorted : Mapping → Type 0
IsSorted [] = Unit
IsSorted (s ∷ ss) = All (λ t. s.from < t.from) ss × IsSorted ss

has_above : (a b : ℕ) (m : Mapping) → b ≤ a → All (λ t. a < t.from) m → has b m ≡ false
has_above a b [] le h = refl
has_above a b (s ∷ ss) le (lt, h) = ground (arith, has_above a b ss le h)

-- What an index says, by whether it is one of the key.
abbrev Found : Session → Mapping → ℕ ⊎ ℕ → Type 0
Found item m (inl i) =
    (has item.from m ≡ true)
    × IsSorted (remove_at i m)
    × ((b : ℕ) → has b (remove_at i m) ≡ (not (item.from == b) && has b m))
    × ((s : Session) × (get_elem? m i ≡ some s))
Found item m (inr i) =
    (has item.from m ≡ false)
    × IsSorted (insert_at i item m)
    × ((b : ℕ) → has b (insert_at i item m) ≡ (item.from == b || has b m))

further-Found :
    (item s : Session) (ss : Mapping) (o : ℕ ⊎ ℕ)
    → s.from < item.from
    → All (λ t. s.from < t.from) ss
    → Found item ss o
    → Found item (s ∷ ss) (further o)
further-Found item s ss (inl i) lt above (there, sorted, rest, found) = (
  ground (arith, there),
  (All-remove_at (λ t. s.from < t.from) i ss above, sorted),
  λ b. ground (arith, rest b),
  found,
)
further-Found item s ss (inr i) lt above (absent, sorted, rest) = (
  ground (arith, absent),
  (All-insert_at (λ t. s.from < t.from) i item ss lt above, sorted),
  λ b. ground (arith, rest b),
)

later_has :
    (item s : Session) (ss : Mapping) (b : ℕ)
    → s.from ≡ item.from
    → All (λ t. s.from < t.from) ss
    → has b ss ≡ (not (item.from == b) && (s.from == b || has b ss))
later_has item s ss b e above = elim (ℕ_discrete item.from b) [
  | yes q ↦ ground (arith, e, q, has_above s.from b ss (omega arith) above)
  | no q ↦ ground (arith, e, q)
]

binary_search-Found :
    (item : Session) (m : Mapping) → IsSorted m → Found item m (binary_search item.from m)
unfolding binary_search
binary_search-Found item [] h = (refl, (tt, tt), λ b. refl)
binary_search-Found item (s ∷ ss) (above, h) = elim (Bool-cases (ltb s.from item.from)) [
  | inl lower ↦ rw lower (
      further-Found item s ss (binary_search item.from ss) (ground (arith, lower)) above
        (binary_search-Found item ss h))
  | inr not_lower ↦ elim (Bool-cases (s.from == item.from)) [
    | inl this ↦ rw not_lower (
        rw this (
          ground (arith, this),
          h,
          λ b. later_has item s ss b (ground (arith, this)) above,
          (s, refl),
        ))
    | inr other ↦ rw not_lower (
        rw other (
          ground (arith, other, has_above s.from item.from ss (ground (arith, not_lower)) above),
          (
            (
              ground (arith, not_lower, other),
              All-map (λ t. s.from < t.from) (λ t lt. ground (arith, not_lower, lt)) ss above,
            ),
            (above, h),
          ),
          λ b. refl,
        ))
  ]
]

-- Into a sorted mapping without a key, an entry is inserted at its place.
pub insert_session-returns :
    (item : Session) (m : Mapping)
    → IsSorted m
    → has item.from m ≡ false
    → (m' : Mapping) × (insert_session item m ≡ ok m')
      × IsSorted m'
      × ((b : ℕ) → has b m' ≡ (item.from == b || has b m))
unfolding insert_session
insert_session-returns item m h absent =
    by_index (binary_search item.from m) (binary_search-Found item m h)
  where
    at_index : ℕ ⊎ ℕ → Outcome (Unit {0}) Mapping
    at_index o = elim o [ inl i ↦ panic | inr i ↦ ok (insert_at i item m) ]

    by_index :
        (o : ℕ ⊎ ℕ)
        → Found item m o
        → (m' : Mapping) × (at_index o ≡ ok m')
          × IsSorted m'
          × ((b : ℕ) → has b m' ≡ (item.from == b || has b m))
    by_index (inl i) f = absurd (ground (arith, f.0, absent))
    by_index (inr i) f = (insert_at i item m, refl, f.1, f.2)

-- From a sorted mapping with a key, its entry is removed.
pub remove_session-returns :
    (from : ℕ) (m : Mapping)
    → IsSorted m
    → has from m ≡ true
    → (m' : Mapping) × (remove_session from m ≡ ok m')
      × IsSorted m'
      × ((b : ℕ) → has b m' ≡ (not (from == b) && has b m))
unfolding remove_session
remove_session-returns from m h there =
    by_index (binary_search from m)
      (binary_search-Found (record { from = from; update_time = 0 }) m h)
  where
    at_index : ℕ ⊎ ℕ → Outcome (Unit {0}) Mapping
    at_index o = elim o [ inl i ↦ ok (remove_at i m) | inr i ↦ panic ]

    by_index :
        (o : ℕ ⊎ ℕ)
        → Found (record { from = from; update_time = 0 }) m o
        → (m' : Mapping) × (at_index o ≡ ok m')
          × IsSorted m'
          × ((b : ℕ) → has b m' ≡ (not (from == b) && has b m))
    by_index (inl i) f = (remove_at i m, refl, f.1, f.2)
    by_index (inr i) f = absurd (ground (arith, f.0, there))

-- Nothing is found only where the key is not there.
pub find_session-absent :
    (from : ℕ) (m : Mapping) → IsSorted m → find_session from m ≡ none → has from m ≡ false
unfolding find_session
find_session-absent from m h e =
    by_index (binary_search from m)
      (binary_search-Found (record { from = from; update_time = 0 }) m h) e
  where
    at_index : ℕ ⊎ ℕ → Option Session
    at_index o = elim o [ inl i ↦ get_elem? m i | inr i ↦ none ]

    by_index :
        (o : ℕ ⊎ ℕ)
        → Found (record { from = from; update_time = 0 }) m o
        → at_index o ≡ none
        → has from m ≡ false
    by_index (inl i) f e = none-absurd (sym e ∙ f.3.1)
    by_index (inr i) f e = f.0

pub touch-has : (from now b : ℕ) (m : Mapping) → has b (touch from now m) ≡ has b m
unfolding touch
touch-has from now b [] = refl
touch-has from now b (s ∷ ss) = ground (arith, touch-has from now b ss)

touch-All :
    (a from now : ℕ) (m : Mapping)
    → All (λ t. a < t.from) m
    → All (λ t. a < t.from) (touch from now m)
unfolding touch
touch-All a from now [] h = tt
touch-All a from now (s ∷ ss) (lt, h) = (ground (arith, lt), touch-All a from now ss h)

pub touch-IsSorted : (from now : ℕ) (m : Mapping) → IsSorted m → IsSorted (touch from now m)
unfolding touch
touch-IsSorted from now [] h = tt
touch-IsSorted from now (s ∷ ss) (above, h) = elim (Bool-cases (s.from == from)) [
  | inl this ↦ rw this (touch-All s.from from now ss above, touch-IsSorted from now ss h)
  | inr other ↦ rw other (touch-All s.from from now ss above, touch-IsSorted from now ss h)
]
