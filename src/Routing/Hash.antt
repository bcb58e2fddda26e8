-- ===== src/Routing/Hash.antt =====
-- `HashRoutingTable` (src/routing_table/hash.rs), the table of the cargo feature
-- hash-routing-table: the `HashMap` is a function from networks. `Ipv4Net::new` and
-- `Ipv4Net::trunc` are parameters.
pub mod Masks
pub mod View
pub mod Search
pub mod Agreement
mod Tests
use fubuki_test.Base.{ℕ, zero, suc, Option, none, some, if◌then◌else◌, Outcome, ok, ◌>>=◌, unwrap}
use fubuki_test.Ipnet.{IpNet}
use fubuki_test.Routing.{Item}
use fubuki_test.Routing.External.{NetParts}

abbrev pub HashRoutingTable : Type 0 → Type 0
HashRoutingTable Net = Net → Option (Item Net)

unfoldable pub create : {Net : Type 0} → HashRoutingTable Net
create cidr = none

module _ {Net : Type 0} (ip : IpNet Net) where
  -- `HashMap::insert`
  abbrev pub insert : Net → Item Net → HashRoutingTable Net → HashRoutingTable Net
  insert cidr item cidrs c = if ip.same cidr c then some item else cidrs c

  -- `HashMap::remove`, without what it returns
  abbrev pub erase : Net → HashRoutingTable Net → HashRoutingTable Net
  erase cidr cidrs c = if ip.same cidr c then none else cidrs c

  unfoldable pub add : Item Net → HashRoutingTable Net → HashRoutingTable Net
  add item cidrs = insert item.cidr item cidrs

  unfoldable pub remove : Net → HashRoutingTable Net → Option (Item Net) × HashRoutingTable Net
  remove cidr cidrs = (cidrs cidr, erase cidr cidrs)

module _ {Net : Type 0} (parts : NetParts Net) (trunc : Net → Net) where
  -- The loop over the prefix lengths below a bound, the longest first.
  unfoldable pub find_below :
      (bound : ℕ) → HashRoutingTable Net → (to : ℕ) → Outcome Unit (Option (Item Net))
  find_below zero cidrs to = ok none
  find_below (suc len) cidrs to =
      let rest = find_below len cidrs to in
      unwrap (parts.new to len) >>= λ cidr. elim (cidrs (trunc cidr)) [
        | none ↦ rest
        | some item ↦ ok (some item)
      ]

  unfoldable pub find : HashRoutingTable Net → (src to : ℕ) → Outcome Unit (Option (Item Net))
  find cidrs src to = find_below 33 cidrs to
