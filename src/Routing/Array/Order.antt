-- ===== src/Routing/Array/Order.antt =====
-- The order of the table: `add` and `remove` keep the longer prefixes in front.
use fubuki_test.Base.{
  ℕ, zero, suc, ◌≤◌, inl, inr, Bool-cases, Option, none, some, All-insert_at, All-remove_at,
  All-map, [], ◌∷◌, All, leb, leb→le, insert_at, remove_at, arith,
}
use fubuki_test.Ipnet.{IpNet}
use fubuki_test.Routing.{Item}
use fubuki_test.Routing.Array.{
  partition_point, position, ArrayRoutingTable, add, remove, remove_index,
}

module _ {Net : Type 0} (ip : IpNet Net) where
  open ip use {prefix_len}

  abbrev pub IsBelow : Item Net → Item Net → Type 0
  IsBelow v w = prefix_len w.cidr ≤ prefix_len v.cidr

  abbrev pub IsSorted : ArrayRoutingTable Net → Type 0
  IsSorted [] = Unit
  IsSorted (v ∷ vs) = All (IsBelow v) vs × IsSorted vs

  abbrev pub insertion_index : Item Net → ArrayRoutingTable Net → ℕ
  insertion_index item vs =
      partition_point (λ (v : Item Net). leb (prefix_len item.cidr) (prefix_len v.cidr)) vs

  insert-IsSorted :
      (item : Item Net) (vs : ArrayRoutingTable Net)
      → IsSorted vs
      → IsSorted (insert_at (insertion_index item vs) item vs)
  unfolding partition_point
  insert-IsSorted item [] h = (tt, tt)
  insert-IsSorted item (v ∷ vs) (below, h) =
      elim (Bool-cases (leb (prefix_len item.cidr) (prefix_len v.cidr))) [
        | inl pass ↦ rw pass (
          All-insert_at (IsBelow v) (insertion_index item vs) item vs
              (leb→le (prefix_len item.cidr) (prefix_len v.cidr) pass) below,
          insert-IsSorted item vs h,
        )
        | inr fail ↦
            let le : prefix_len v.cidr ≤ prefix_len item.cidr = ground arith in
            rw fail ((le, All-map (IsBelow v) (λ w q. omega arith) vs below), (below, h))
      ]

  -- Adding an entry to a table in the order of falling prefix lengths leaves it in that order.
  pub add-IsSorted :
      (item : Item Net) (vs : ArrayRoutingTable Net) → IsSorted vs → IsSorted (add ip item vs)
  unfolding add
  add-IsSorted item vs h = insert-IsSorted item vs h

  remove_at-IsSorted :
      (i : ℕ) (vs : ArrayRoutingTable Net) → IsSorted vs → IsSorted (remove_at i vs)
  remove_at-IsSorted i [] h = tt
  remove_at-IsSorted zero (v ∷ vs) (below, h) = h
  remove_at-IsSorted (suc i) (v ∷ vs) (below, h) =
      (All-remove_at (IsBelow v) i vs below, remove_at-IsSorted i vs h)

  remove_index-IsSorted :
      (index : Option ℕ) (vs : ArrayRoutingTable Net)
      → IsSorted vs
      → IsSorted (remove_index ip vs index).1
  remove_index-IsSorted none vs h = h
  remove_index-IsSorted (some i) vs h = remove_at-IsSorted i vs h

  -- Removing a network from a table in the order of falling prefix lengths leaves it in that order.
  pub remove-IsSorted :
      (cidr : Net) (vs : ArrayRoutingTable Net) → IsSorted vs → IsSorted (remove ip cidr vs).1
  unfolding remove
  remove-IsSorted cidr vs h =
      remove_index-IsSorted (position (λ (v : Item Net). ip.same v.cidr cidr) vs) vs h
