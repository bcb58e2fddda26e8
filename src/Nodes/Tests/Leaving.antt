-- ===== src/Nodes/Tests/Leaving.antt =====
-- A run of the system's NAT: an address of the configuration, then one in another range, and the end.
use fubuki_test.Base.{ℕ, ◌≡◌, refl, true, List, [], ◌∷◌, ok}
use fubuki_test.Ipnet.Sample.{SampleNet, sample_ip, sample-IsIpNet}
use fubuki_test.Nodes.{Interface}
use fubuki_test.Nodes.Ranges.{move_tun}
use fubuki_test.Nodes.NativeNat.{
  Rule, Rules, NatState, add_nat, del_nat, delete_rule, begin_manual, refresh, clear,
}
use fubuki_test.Nodes.NativeNat.Counts.{SameRules, working}
use fubuki_test.Nodes.NativeNat.Cleanup.{Life, begun_manual, refreshed, clear-SameRules}
use fubuki_test.Nodes.Tests.{interface}

abbrev net : ℕ → ℕ → SampleNet
net a n = record { addr = a; prefix_len = n }

abbrev everywhere : SampleNet
everywhere = net 0 0

-- 192.168.1.0/24 behind the node.
abbrev behind : List SampleNet
behind = net 3232235776 24 ∷ []

abbrev fresh : Interface SampleNet
fresh = record interface { addr = 0; cidr = everywhere }

abbrev rule : SampleNet → Rule SampleNet
rule src = record { dst = net 3232235776 24; src = src }

-- Someone else's rule is there before.
abbrev before : Rules SampleNet
before = rule (net 167837696 24) ∷ []

abbrev at_range : SampleNet → NatState sample_ip
at_range cidr = record {
  is_add_nat = true;
  interface = record interface { addr = 167772161; cidr = cidr };
  rules = rule (net 167837696 24) ∷ rule cidr ∷ [];
}

life : Life sample_ip true behind everywhere before (at_range (net 167772160 16))
unfolding begin_manual refresh move_tun add_nat del_nat delete_rule
life =
    refreshed {s = at_range (net 167772160 24)} 167772161 (net 167772160 16)
      (begun_manual fresh 167772161 (net 167772160 24) refl refl) refl

cleared_example :
    (s' : NatState sample_ip) × (rules : Rules SampleNet) × (refresh sample_ip working true behind
        167772170
        (net 167772160 24)
        (at_range (net 167772160 16))
      ≡ ok s')
    × (clear sample_ip working true behind (at_range (net 167772160 16)) ≡ (true, rules))
    × SameRules sample_ip rules before
cleared_example =
    clear-SameRules sample-IsIpNet true behind everywhere before (at_range (net 167772160 16))
      167772170 (net 167772160 24) life
