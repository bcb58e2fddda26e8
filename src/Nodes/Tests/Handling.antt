-- ===== src/Nodes/Tests/Handling.antt =====
-- Runs of the cross NAT's sessions, and of the handler of a hook's packets.
use fubuki_test.Base.{
  ℕ, zero, suc, ◌+◌, ◌≡◌, ◌≤◌, ◌<◌, ◌⊎◌, refl, false, none, List, [], ◌∷◌, replicate, length,
  Outcome, ok, panic, arith,
}
use fubuki_test.Ipnet.Sample.{sample_ip}
use fubuki_test.Routing.Array.{array_table}
use fubuki_test.Nodes.Sending.{Sending}
use fubuki_test.Nodes.Packets.{input, nothing, Sent}
use fubuki_test.Protocol.{ProtocolError}
use fubuki_test.Nodes.Packets.Handlers.{hook_pass}
use fubuki_test.Nodes.Packets.Handlers.Room.{IsHanded, hook_pass-cases}
use fubuki_test.Nodes.CrossNat.{
  SNat, Event, received, bound, sent, replied, slept, ended, passed, initial, run, step, handle,
  binary_search, insert_session, remove_session, find_session, touch, has_child, finish, drop_child,
  waiting, SNat,
}
use fubuki_test.Nodes.CrossNat.Served.{IsServed, run_from_start}
use fubuki_test.Nodes.Tests.{interface, direct, link_table}
use fubuki_test.Nodes.Tests.Delivery.{all_suppressed}
use fubuki_test.Nodes.Tests.Starting.{ready_config}

length-replicate : (n : ℕ) → length {A = ℕ} (replicate n 0) ≡ n
length-replicate zero = refl
length-replicate (suc n) = omega (arith, length-replicate n)

-- Two senders; the first is silent for 301 seconds, its child ends, and it sends again.
abbrev events : List Event
events =
    received 7
    ∷ bound
    ∷ sent
    ∷ received 3
    ∷ bound
    ∷ sent
    ∷ passed 200
    ∷ replied 3
    ∷ passed 101
    ∷ slept 7
    ∷ slept 3
    ∷ ended 7
    ∷ ended 3
    ∷ received 7
    ∷ bound
    ∷ []

sessions_example : (s : SNat) × (run events (initial 1000) ≡ ok s) × IsServed s
sessions_example = run_from_start events 1000

-- The first sender's entry was removed when its child ended.
removed_run :
    run (received 7 ∷ bound ∷ sent ∷ passed 301 ∷ slept 7 ∷ ended 7 ∷ []) (initial 1000)
    ≡ ok (record (initial 1301) { phase = waiting })
unfolding run step handle binary_search insert_session remove_session find_session touch has_child
    finish drop_child
removed_run = refl

abbrev wide : Sending
wide = record { buff = replicate 65535 0; cache = []; attempts = 0; sent = [] }

abbrev content : List ℕ
content = 69 ∷ 70 ∷ 71 ∷ []

abbrev handed : Outcome ProtocolError Sent
handed =
    hook_pass sample_ip direct all_suppressed 5 (array_table sample_ip) link_table false
      (interface ∷ []) (λ n. 300 + n) ready_config none input content wide

hook_example :
    ((content ≡ []) × (handed ≡ ok nothing))
    ⊎ (((65527 < length content) × (handed ≡ panic))
        ⊎ ((length content ≤ 65527)
            × IsHanded sample_ip direct all_suppressed 5
                (array_table sample_ip)
                link_table
                false
                (interface ∷ [])
                (λ n. 300 + n)
                ready_config
                none
                input
                content
                wide
                handed))
hook_example =
    hook_pass-cases sample_ip direct all_suppressed 5 (array_table sample_ip) link_table false
      (interface ∷ []) (λ n. 300 + n) ready_config none input content wide (length-replicate 65535)
