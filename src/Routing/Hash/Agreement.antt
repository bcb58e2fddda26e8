-- ===== src/Routing/Hash/Agreement.antt =====
-- The hash table beside the array table that the program uses without the cargo feature.
use fubuki_test.Base.{
  ℕ, ◌≡◌, refl, sym, ap, ◌∙◌, Option, none, some, [], All, All-insert_at, All-remove_at, ok,
}
use fubuki_test.Ipnet.{IpNet, IsIpNet}
use fubuki_test.Routing.{Item}
use fubuki_test.Routing.External.{NetParts}
use fubuki_test.Routing.Array as Array
use fubuki_test.Routing.Array.{ArrayRoutingTable}
use fubuki_test.Routing.Array.Order.{IsSorted, add-IsSorted, remove-IsSorted}
use fubuki_test.Routing.Array.Lookup.{find-IsLongestMatch}
use fubuki_test.Routing.Hash as Hash
use fubuki_test.Routing.Hash.{HashRoutingTable, find_below, find}
use fubuki_test.Routing.Hash.Masks.{IsMasked}
use fubuki_test.Routing.Hash.View.{
  view, IsFresh, AreDistinct, view-add, view-remove, add-AreDistinct, remove-AreDistinct,
}
use fubuki_test.Routing.Hash.Search.{find_either}

module _ {Net : Type 0} (ip : IpNet Net) (trunc : Net → Net) where
  -- The two tables after the same calls, from empty tables on: entries are added with networks
  -- that are truncated and that the table does not have.
  pub data Runs : ArrayRoutingTable Net → HashRoutingTable Net → Type 0 where
    created : Runs [] Hash.create
    added :
        {vs : ArrayRoutingTable Net} {m : HashRoutingTable Net} (item : Item Net)
        → Runs vs m
        → trunc item.cidr ≡ item.cidr
        → IsFresh ip item.cidr vs
        → Runs (Array.add ip item vs) (Hash.add ip item m)
    removed :
        {vs : ArrayRoutingTable Net} {m : HashRoutingTable Net} (cidr : Net)
        → Runs vs m
        → Runs (Array.remove ip cidr vs).1 (Hash.remove ip cidr m).1

  record Linked (vs : ArrayRoutingTable Net) (m : HashRoutingTable Net) : Type 0 where
    viewed : view ip vs ≡ m
    sorted : IsSorted ip vs
    distinct : AreDistinct ip vs
    truncated : All (λ v. trunc v.cidr ≡ v.cidr) vs

  add-All :
      (P : Item Net → Type 0) (item : Item Net) (vs : ArrayRoutingTable Net)
      → P item
      → All P vs
      → All P (Array.add ip item vs)
  unfolding Array.add
  add-All P item vs p ps = All-insert_at P _ item vs p ps

  remove_index-All :
      (P : Item Net → Type 0) (o : Option ℕ) (vs : ArrayRoutingTable Net)
      → All P vs
      → All P (Array.remove_index ip vs o).1
  remove_index-All P none vs ps = ps
  remove_index-All P (some i) vs ps = All-remove_at P i vs ps

  remove-All :
      (P : Item Net → Type 0) (cidr : Net) (vs : ArrayRoutingTable Net)
      → All P vs
      → All P (Array.remove ip cidr vs).1
  unfolding Array.remove
  remove-All P cidr vs ps = remove_index-All P _ vs ps

  Runs-Linked :
      (laws : IsIpNet ip) {vs : ArrayRoutingTable Net} {m : HashRoutingTable Net}
      → Runs vs m
      → Linked vs m
  unfolding Hash.create
  Runs-Linked laws created = record { viewed = refl; sorted = tt; distinct = tt; truncated = tt }
  Runs-Linked laws (added {vs = vs} {m = m} item r t fresh) =
      let h = Runs-Linked laws r in
      record {
        viewed = view-add laws item vs fresh ∙ ap (Hash.add ip item) h.viewed;
        sorted = add-IsSorted ip item vs h.sorted;
        distinct = add-AreDistinct laws item vs fresh h.distinct;
        truncated = add-All (λ v. trunc v.cidr ≡ v.cidr) item vs t h.truncated;
      }
  Runs-Linked laws (removed {vs = vs} {m = m} cidr r) =
      let h = Runs-Linked laws r in
      record {
        viewed =
            (view-remove laws cidr vs h.distinct).1 ∙ ap (λ x. (Hash.remove ip cidr x).1) h.viewed;
        sorted = remove-IsSorted ip cidr vs h.sorted;
        distinct = remove-AreDistinct laws cidr vs h.distinct;
        truncated = remove-All (λ v. trunc v.cidr ≡ v.cidr) cidr vs h.truncated;
      }

-- After the same calls from empty tables on, where every added network is truncated and new to the
-- table, the hash table and the array table give the same: a lookup in the hash table does not
-- panic and returns the entry that the array table's returns, and removing a network returns the
-- same entry from both.
pub tables_agree :
    {Net : Type 0} {ip : IpNet Net} {parts : NetParts Net} {trunc : Net → Net} (laws : IsIpNet ip)
    (masks : IsMasked ip parts trunc) {vs : ArrayRoutingTable Net} {m : HashRoutingTable Net}
    (src to : ℕ) (cidr : Net)
    → Runs ip trunc vs m
    → (find parts trunc m src to ≡ ok (Array.find ip vs src to))
      × ((Hash.remove ip cidr m).0 ≡ (Array.remove ip cidr vs).0)
tables_agree {ip = ip} {parts = parts} {trunc = trunc} laws masks {vs = vs} {m = m} src to cidr r =
    let h = Runs-Linked ip trunc laws r in
    (
      ap (λ x. find parts trunc x src to) (sym h.viewed)
          ∙ find_either laws masks vs src to (Array.find ip vs src to) h.truncated
              (find-IsLongestMatch ip vs src to h.sorted) refl,
      ap (λ x. (Hash.remove ip cidr x).0) (sym h.viewed)
          ∙ sym (view-remove laws cidr vs h.distinct).0,
    )
