-- ===== src/Nodes/Ranges.antt =====
-- `update_tun_addr` (src/node/mod.rs): the routes and the device follow a new address of the node.
pub mod Entries
use fubuki_test.Base.{
  ℕ, Bool, true, false, ◌&&◌, ◌||◌, not, Option, none, some, List, [], ◌∷◌, ◌==◌, if◌then◌else◌,
}
use fubuki_test.Ipnet.{IpNet}
use fubuki_test.Routing.{Item, ItemKind, virtual_range, allowed_ips_route, RoutingTable, is_kind}
use fubuki_test.Nodes.{Interface}

-- What the TUN device is told, which may refuse it; an address goes with the network whose mask it has.
pub data TunCall (Net : Type 0) : Type 0 where
  delete_addr add_addr : ℕ → Net → TunCall Net

module _ {Net : Type 0} (ip : IpNet Net) (accepts : TunCall Net → Bool) where
  -- Whether no call of the device failed, the interface, and the calls that succeeded.
  unfoldable pub move_tun :
      (old_addr addr : ℕ) (old_cidr cidr : Net)
      → Interface Net
      → Bool × Interface Net × List (TunCall Net)
  move_tun old_addr addr old_cidr cidr interface =
      let removal : TunCall Net = delete_addr old_addr old_cidr in
      let addition : TunCall Net = add_addr addr cidr in
      if not (addr == old_addr) || not (ip.same cidr old_cidr)
      then (if not (accepts removal)
          then (false, interface, [])
          else (if not (accepts addition)
              then (false, interface, removal ∷ [])
              else (true, record interface { addr = addr; cidr = cidr }, removal ∷ addition ∷ [])))
      else (true, interface, [])

module _ {Net T : Type 0} (ip : IpNet Net) (rt : RoutingTable Net T) where
  -- The entry that `remove` took out is put back if it is of another kind.
  unfoldable pub put_back : ItemKind → Option (Item Net) × T → T
  put_back kind (none, table) = table
  put_back kind (some i, table) =
      if not (is_kind i.extend.item_kind kind) then rt.add i table else table

  -- The loop over the networks behind the node.
  unfoldable pub update_allowed : List (Item Net) → T → T
  update_allowed [] table = table
  update_allowed (i ∷ is) table =
      update_allowed is (rt.add i (put_back allowed_ips_route (rt.remove i.cidr table)))

  abbrev pub virtual_item : (interface_index : ℕ) (cidr : Net) → Item Net
  virtual_item interface_index cidr = record {
    cidr = cidr;
    gateway = 0;
    interface_index = interface_index;
    extend = record { item_kind = some virtual_range };
  }

  abbrev pub allowed_items : (interface_index addr : ℕ) → List Net → List (Item Net)
  allowed_items interface_index addr [] = []
  allowed_items interface_index addr (allowed ∷ rest) =
      record {
        cidr = allowed;
        gateway = addr;
        interface_index = interface_index;
        extend = record { item_kind = some allowed_ips_route };
      }
      ∷ allowed_items interface_index addr rest

  unfoldable pub update_range : (interface_index : ℕ) (old_cidr cidr : Net) → T → T
  update_range interface_index old_cidr cidr table =
      if ip.same cidr old_cidr
      then table
      else rt.add (virtual_item interface_index cidr)
          (put_back virtual_range (rt.remove old_cidr table))

  unfoldable pub update_route :
      (interface_index : ℕ) (allowed_ips : List Net) (old_addr addr : ℕ) (old_cidr cidr : Net)
      → T
      → T
  update_route interface_index allowed_ips old_addr addr old_cidr cidr table =
      let table' = update_range interface_index old_cidr cidr table in
      if addr == old_addr
      then table'
      else update_allowed (allowed_items interface_index addr allowed_ips) table'

  -- Whether it returned `Ok`, the table, the interface and the calls of the device that succeeded.
  unfoldable pub update_tun_addr :
      (accepts : TunCall Net → Bool) (allowed_ips : List Net) (old_addr addr : ℕ)
      (old_cidr cidr : Net)
      → Interface Net
      → T
      → Bool × T × Interface Net × List (TunCall Net)
  update_tun_addr accepts allowed_ips old_addr addr old_cidr cidr interface table =
      let table' = update_route interface.index allowed_ips old_addr addr old_cidr cidr table in
      let moved = move_tun ip accepts old_addr addr old_cidr cidr interface in
      (moved.0, table', moved.1, moved.2)
