-- ===== src/Routing/Hash/Tests.antt =====
-- Runs of src/routing_table/hash.rs at concrete entries.
use mathlib.Core.HLevel.{Σ_prop_path}
use native.Mathlib.Bridge.{le_prop}
use native.Mathlib.Decide.{dec_le}
use fubuki_test.Base.{ℕ, ◌≤◌, ◌≡◌, refl, ap, Option, none, some, [], arith, ok}
use fubuki_test.Ipnet.{IpNet, IsIpNet}
use fubuki_test.Ipnet.Sample.{SampleNet, network, broadcast, sample_ip, sample-IsIpNet}
use fubuki_test.Routing.{Item}
use fubuki_test.Routing.External.{NetParts}
use fubuki_test.Routing.Array as Array
use fubuki_test.Routing.Hash as Hash
use fubuki_test.Routing.Hash.{find_below}
use fubuki_test.Routing.Hash.Masks.{IsMasked}
use fubuki_test.Routing.Hash.Agreement.{Runs, created, added, tables_agree}

-- A network whose prefix length is one of IPv4.
abbrev Net4 : Type 0
Net4 = (n : SampleNet) × (n.prefix_len ≤ 32)

net4_ext : (a b : Net4) → a.0.addr ≡ b.0.addr → a.0.prefix_len ≡ b.0.prefix_len → a ≡ b
net4_ext a b h k =
    Σ_prop_path (λ n. le_prop) ((sample-IsIpNet.same_iff a.0 b.0).0 (ground (arith, h, k)))

abbrev ip4 : IpNet Net4
ip4 = record {
  same = λ a b. sample_ip.same a.0 b.0;
  contains = λ n a. sample_ip.contains n.0 a;
  prefix_len = λ n. n.0.prefix_len;
  network = λ n. network n.0;
  broadcast = λ n. broadcast n.0;
  hosts = λ n. sample_ip.hosts n.0;
}

ip4-IsIpNet : IsIpNet ip4
ip4-IsIpNet = record {
  same_iff = λ a b. (
    λ h. Σ_prop_path (λ n. le_prop) ((sample-IsIpNet.same_iff a.0 b.0).0 h),
    λ e. (sample-IsIpNet.same_iff a.0 b.0).1 (ap (λ n. n.0) e),
  );
  contains_iff = λ n a. sample-IsIpNet.contains_iff n.0 a;
  hosts_inner = λ n h. sample-IsIpNet.hosts_inner n.0 h;
}

made4 : (a len : ℕ) → Dec (len ≤ 32) → Option Net4
made4 a len (yes h) = some (record { addr = a; prefix_len = len }, h)
made4 a len (no _) = none

abbrev parts4 : NetParts Net4
parts4 = record {
  new = λ a len. made4 a len (dec_le len 32);
  addr = λ n. n.0.addr;
  prefix_len = λ n. n.0.prefix_len;
}

abbrev trunc4 : Net4 → Net4
trunc4 n = (record { addr = network n.0; prefix_len = n.0.prefix_len }, n.1)

new4 :
    (a len : ℕ) (d : Dec (len ≤ 32))
    → len ≤ 32
    → (n : Net4) × (made4 a len d ≡ some n) × (n.0.addr ≡ a) × (n.0.prefix_len ≡ len)
unfolding made4
new4 a len (yes h) le = ((record { addr = a; prefix_len = len }, h), refl, refl, refl)
new4 a len (no h) le = absurd (h le)

masks4 : IsMasked ip4 parts4 trunc4
masks4 = record {
  new_parts = λ a len h. new4 a len (dec_le len 32) h;
  prefix_le = λ n. n.1;
  network_mask = λ n. refl;
  broadcast_mask = λ n. refl;
  trunc_parts = λ n. (refl, refl);
  same_parts = λ a b h k. net4_ext a b h k;
}

abbrev entry : (a len : ℕ) → len ≤ 32 → Item Net4
entry a len h = record {
  cidr = (record { addr = a; prefix_len = len }, h);
  gateway = 0;
  interface_index = 0;
  extend = record { item_kind = none };
}

abbrev everything : Item Net4
everything = entry 0 0 (omega arith)

abbrev link : Item Net4
link = entry 167823104 24 (omega arith)

two_runs :
    Runs ip4 trunc4
      (Array.add ip4 link (Array.add ip4 everything []))
      (Hash.add ip4 link (Hash.add ip4 everything Hash.create))
unfolding Array.add Array.partition_point
two_runs = added link (added everything created refl tt) refl (refl, tt)

agree_example :
    (Hash.find parts4 trunc4 (Hash.add ip4 link (Hash.add ip4 everything Hash.create)) 0 167823107
      ≡ ok (Array.find ip4 (Array.add ip4 link (Array.add ip4 everything [])) 0 167823107))
    × ((Hash.remove ip4 link.cidr (Hash.add ip4 link (Hash.add ip4 everything Hash.create))).0
        ≡ (Array.remove ip4 link.cidr (Array.add ip4 link (Array.add ip4 everything []))).0)
agree_example = tables_agree ip4-IsIpNet masks4 0 167823107 link.cidr two_runs

-- An entry with the network 10.0.199.2/24, which is not truncated, is found in the array table, and
-- is not found in the hash table.
untruncated_run :
    (Array.find ip4 (Array.add ip4 (entry 167823106 24 (omega arith)) []) 0 167823107
      ≡ some (entry 167823106 24 (omega arith)))
    × (Hash.find parts4 trunc4
          (Hash.add ip4 (entry 167823106 24 (omega arith)) Hash.create)
          0
          167823107
        ≡ ok none)
unfolding Array.add Array.find Array.partition_point Hash.add Hash.find Hash.create find_below made4
    dec_le
untruncated_run = (refl, refl)
