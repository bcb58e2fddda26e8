-- ===== src/Routing.antt =====
-- src/routing_table: the entries of a routing table and the trait that the tables implement.
pub mod Array
pub mod Route
pub mod External
pub mod Hash
use fubuki_test.Base.{ℕ, Bool, true, false, Option, none, some}

pub data ItemKind : Type 0 where
  virtual_range ips_route allowed_ips_route : ItemKind

-- `==` on `Option<ItemKind>` against `Some(kind)`.
abbrev pub same_kind : ItemKind → ItemKind → Bool
same_kind virtual_range virtual_range = true
same_kind ips_route ips_route = true
same_kind allowed_ips_route allowed_ips_route = true
same_kind virtual_range _ = false
same_kind ips_route _ = false
same_kind allowed_ips_route _ = false

abbrev pub is_kind : Option ItemKind → ItemKind → Bool
is_kind none k = false
is_kind (some j) k = same_kind j k

pub record Extend : Type 0 where
  pub item_kind : Option ItemKind

pub record Item (Net : Type 0) : Type 0 where
  pub cidr : Net
  pub gateway : ℕ
  pub interface_index : ℕ
  pub extend : Extend

-- The trait `RoutingTable`, of a table with states `T`.
pub record RoutingTable (Net T : Type 0) : Type 0 where
  pub add : Item Net → T → T
  pub remove : Net → T → Option (Item Net) × T
  pub find : T → (src to : ℕ) → Option (Item Net)
