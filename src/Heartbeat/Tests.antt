-- ===== src/Heartbeat/Tests.antt =====
-- Runs of the heartbeat code at concrete paths.
use fubuki_test.Base.{ℕ, ◌≡◌, refl, true, arith}
use fubuki_test.Heartbeat.{
  available, unavailable, is_available, new, reply, check, ping, UdpPath, round, receive_resp,
  after_reply,
}
use fubuki_test.Heartbeat.Counters.{start, replied, checked, pinged, counters-AreCounts, AreCounts}
use fubuki_test.Heartbeat.Liveness.{
  silent_rounds, silent_rounds-status, answered_rounds, answered_rounds-status,
}

abbrev joined : UdpPath ℕ
joined = record { status = unavailable; cache = new 0 }

abbrev pinged_once : UdpPath ℕ
pinged_once = record { status = available 7; cache = ping 0 (new 0) }

counters_example : AreCounts 3 (check (reply 5 1 (ping 0 (new 0))).1)
counters_example =
    counters-AreCounts 3 (check (reply 5 1 (ping 0 (new 0))).1) (omega arith)
      (checked (replied 5 1 (pinged 0 (start 0))))

silent_example : (silent_rounds 2 2 (λ n. n) pinged_once).status ≡ unavailable
unfolding ping new
silent_example =
    silent_rounds-status 2 0 2 (λ n. n) pinged_once (omega arith) (omega arith)
      (record { sent = refl; not_answered = refl; lost = refl })

answered_example :
    is_available (answered_rounds 2 3 3 (λ n. n) (λ n. n) (λ n. 7) joined).status ≡ true
unfolding new
answered_example =
    answered_rounds-status 2 3 0 3 (λ n. n) (λ n. n) (λ n. 7) joined (omega arith) (omega arith)
      (omega arith) (record { answered = refl; none_lost = refl; received_in_row = refl })

-- The sequence number of a cache that sent nothing yet is 0, and a response with it is counted.
reply_before_ping : (receive_resp 1 4 9 0 joined).status ≡ available 9
unfolding receive_resp after_reply reply new
reply_before_ping = refl

-- A second copy of one response is counted like a response to a further heartbeat.
reply_twice : (receive_resp 2 4 9 1 (receive_resp 2 3 9 1 (round 5 0 joined))).status ≡ available 9
unfolding receive_resp after_reply reply new round check ping
reply_twice = refl
