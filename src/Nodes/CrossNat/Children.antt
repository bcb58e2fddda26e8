-- ===== src/Nodes/CrossNat/Children.antt =====
-- The children of `udp_inbound_handler` (src/node/cross_nat.rs), counted by sender.
use fubuki_test.Base.{
  ℕ, ◌+◌, ◌<◌, ◌≡◌, refl, inl, inr, true, Bool-cases, ◌&&◌, List, [], ◌∷◌, ◌==◌, if◌then◌else◌,
  arith,
}
use fubuki_test.Nodes.CrossNat.{Child, has_child, finish, drop_child}

abbrev pub count : (from : ℕ) → List Child → ℕ
count from [] = 0
count from (c ∷ cs) = (if c.from == from then 1 else 0) + count from cs

pub finish-count : (from b : ℕ) (cs : List Child) → count b (finish from cs) ≡ count b cs
unfolding finish
finish-count from b [] = refl
finish-count from b (c ∷ cs) = ground (arith, finish-count from b cs)

pub drop_child-count :
    (from b : ℕ) (cs : List Child)
    → has_child from true cs ≡ true
    → (if from == b then 1 else 0) + count b (drop_child from cs) ≡ count b cs
unfolding drop_child has_child
drop_child-count from b [] h = absurd (ground (arith, h))
drop_child-count from b (c ∷ cs) h = elim (Bool-cases (c.from == from && c.is_done)) [
  | inl this ↦ rw this (ground (arith, this))
  | inr other ↦
      let later : has_child from true cs ≡ true = ground (arith, h, other) in
      rw other (omega (arith, drop_child-count from b cs later))
]

-- A child that is over is counted, so that its sender has an entry.
pub done-has : (from : ℕ) (cs : List Child) → has_child from true cs ≡ true → 0 < count from cs
unfolding has_child
done-has from [] h = absurd (ground (arith, h))
done-has from (c ∷ cs) h = elim (Bool-cases (c.from == from && c.is_done)) [
  | inl this ↦ ground (arith, this)
  | inr other ↦
      let later : has_child from true cs ≡ true = ground (arith, h, other) in
      ground (arith, done-has from cs later)
]
