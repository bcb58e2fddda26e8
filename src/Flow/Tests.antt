-- ===== src/Flow/Tests.antt =====
-- Runs of the flow control at concrete rules.
use fubuki_test.Base.{ℕ, ◌+◌, ◌≤◌, ◌≡◌, refl, [], ◌∷◌, arith}
use fubuki_test.Ipnet.Sample.{SampleNet, sample_ip}
use fubuki_test.Flow.{FlowControl, push, limit_opt, search, traffic_update, fetch_update}
use fubuki_test.Flow.Limit.{accepted, accepted-le-limit}

abbrev net : ℕ → ℕ → SampleNet
net a n = record { addr = a; prefix_len = n }

-- 192.168.8.10/32 with 1024 bytes per second, and 192.168.8.0/24 with 2048.
abbrev two_rules : FlowControl SampleNet
two_rules = record {
  rule = (net 3232237578 32, 1024) ∷ (net 3232237568 24, 2048) ∷ [];
  pool = record { addr = 3232237578; value = (0, 100) } ∷ [];
}

limit_example :
    0 + accepted sample_ip 100 3232237578 ((3232237578, 1000) ∷ (3232237578, 500) ∷ []) two_rules
    ≤ 1024
unfolding limit_opt
limit_example =
    accepted-le-limit sample_ip 1024 100 3232237578 ((3232237578, 1000) ∷ (3232237578, 500) ∷ [])
      two_rules refl (omega arith) (omega arith)

accepted_run :
    accepted sample_ip 100 3232237578 ((3232237578, 1000) ∷ (3232237578, 500) ∷ []) two_rules ≡ 1000
unfolding push limit_opt search traffic_update fetch_update
accepted_run = refl
