-- ===== src/Routing/Array/Tests.antt =====
-- Runs of the routing tables at concrete entries.
use fubuki_test.Base.{ℕ, ◌≡◌, ◌↔◌, refl, none, some, [], ◌∷◌, arith, ok, ◌>>=◌}
use mathlib.Core.Option as Options
use fubuki_test.Ipnet.Sample.{SampleNet, sample_ip}
use fubuki_test.Routing.{Item, ips_route}
use fubuki_test.Routing.Array.{ArrayRoutingTable, array_table, find}
use fubuki_test.Routing.Array.Order.{IsSorted}
use fubuki_test.Routing.Array.Lookup.{IsLongestMatch, find-IsLongestMatch}
use fubuki_test.Routing.Route.{find_route, follow, find_route-Leads, Leads}
use fubuki_test.Routing.External.{
  NetParts, item_c_from, items_from, items_from-item_c_from, option_from, option_c_from,
}

abbrev net : ℕ → ℕ → SampleNet
net a n = record { addr = a; prefix_len = n }

-- Everything through 10.0.199.2, and 10.0.199.0/24 on the link.
abbrev default_item : Item SampleNet
default_item = record {
  cidr = net 0 0;
  gateway = 167823106;
  interface_index = 0;
  extend = record { item_kind = some ips_route };
}

abbrev link_item : Item SampleNet
link_item = record {
  cidr = net 167823104 24;
  gateway = 0;
  interface_index = 0;
  extend = record { item_kind = none };
}

abbrev two_items : ArrayRoutingTable SampleNet
two_items = link_item ∷ default_item ∷ []

two_items-IsSorted : IsSorted sample_ip two_items
two_items-IsSorted = ((omega arith, tt), (tt, tt))

longest_example :
    IsLongestMatch sample_ip two_items 167823107 (find sample_ip two_items 0 167823107)
longest_example = find-IsLongestMatch sample_ip two_items 0 167823107 two_items-IsSorted

route_example :
    (find_route (array_table sample_ip) two_items 0 16843009 ≡ some (167823106, link_item)) ↔ (
      (item : Item SampleNet) × (find sample_ip two_items 0 16843009 ≡ some item)
      × Leads (array_table sample_ip) two_items 0 5 16843009 item (167823106, link_item))
route_example = find_route-Leads (array_table sample_ip) two_items 0 16843009 (167823106, link_item)

route_run : find_route (array_table sample_ip) two_items 0 16843009 ≡ some (167823106, link_item)
unfolding find_route follow find
route_run = refl

abbrev sample_parts : NetParts SampleNet
sample_parts = record {
  new = λ a n. some (net a n);
  addr = λ n. n.addr;
  prefix_len = λ n. n.prefix_len;
}

external_example :
    (option_from (option_c_from (Options.map (item_c_from sample_parts) (some link_item)))
      >>= items_from sample_parts)
    ≡ ok (some link_item)
external_example = items_from-item_c_from sample_parts (λ n. refl) (some link_item)
