-- ===== src/Routing/Array.antt =====
-- `ArrayRoutingTable` (src/routing_table/array.rs), a vector that is kept in the order of falling
-- prefix lengths.
pub mod Order
pub mod Lookup
mod Tests
use fubuki_test.Base.{
  ℕ, suc, Bool, true, false, Option, none, some, List, [], ◌∷◌, leb, if◌then◌else◌, insert_at,
  remove_at, get_elem?,
}
use fubuki_test.Ipnet.{IpNet}
use fubuki_test.Routing.{Item, RoutingTable}

-- The index of the first element that fails the test; a partitioned slice is what the program
-- calls it on.
unfoldable pub partition_point : {A : Type 0} → (A → Bool) → List A → ℕ
partition_point p [] = 0
partition_point p (x ∷ xs) = if p x then suc (partition_point p xs) else 0

unfoldable pub position : {A : Type 0} → (A → Bool) → List A → Option ℕ
position p [] = none
position p (x ∷ xs) =
    if p x then some 0 else elim (position p xs) [ none ↦ none | some i ↦ some (suc i) ]

abbrev pub ArrayRoutingTable : Type 0 → Type 0
ArrayRoutingTable Net = List (Item Net)

module _ {Net : Type 0} (ip : IpNet Net) where
  open ip use {prefix_len, same, contains}

  unfoldable pub add : Item Net → ArrayRoutingTable Net → ArrayRoutingTable Net
  add item inner =
      let index =
        partition_point (λ (v : Item Net). leb (prefix_len item.cidr) (prefix_len v.cidr)) inner in
      insert_at index item inner

  -- `index.map(|index| self.inner.remove(index))`, with the vector it leaves.
  abbrev pub remove_index :
      ArrayRoutingTable Net → Option ℕ → Option (Item Net) × ArrayRoutingTable Net
  remove_index inner none = (none, inner)
  remove_index inner (some index) = (get_elem? inner index, remove_at index inner)

  unfoldable pub remove : Net → ArrayRoutingTable Net → Option (Item Net) × ArrayRoutingTable Net
  remove cidr inner =
      let index = position (λ (v : Item Net). same v.cidr cidr) inner in remove_index inner index

  unfoldable pub find : ArrayRoutingTable Net → (src to : ℕ) → Option (Item Net)
  find [] src to = none
  find (v ∷ vs) src to = if contains v.cidr to then some v else find vs src to

  abbrev pub array_table : RoutingTable Net (ArrayRoutingTable Net)
  array_table = record { add = add; remove = remove; find = find }
