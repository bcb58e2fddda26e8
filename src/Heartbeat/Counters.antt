-- ===== src/Heartbeat/Counters.antt =====
-- The counters of a `HeartbeatCache`, in every order of its operations.
use fubuki_test.Base.{
  ℕ, suc, ◌+◌, ◌≤◌, ◌<◌, ◌^◌, ◌≡◌, ◌&&◌, not, Bool-cases, inl, inr, ◌==◌, if◌then◌else◌, arith,
}
use fubuki_test.Heartbeat.{HeartbeatCache, new, reply, check, ping}

-- The caches that so many operations lead to.
pub data Reached : ℕ → HeartbeatCache → Type 0 where
  start : (now : ℕ) → Reached 0 (new now)
  replied :
      {n : ℕ} {c : HeartbeatCache} (now seq : ℕ) → Reached n c → Reached (suc n) (reply now seq c).1
  checked : {n : ℕ} {c : HeartbeatCache} → Reached n c → Reached (suc n) (check c)
  pinged : {n : ℕ} {c : HeartbeatCache} (now : ℕ) → Reached n c → Reached (suc n) (ping now c)

-- A heartbeat that is not judged yet, which the losses do not count.
abbrev pub pending : HeartbeatCache → ℕ
pending c = if c.is_send then 1 else 0

pub record AreCounts (n : ℕ) (c : HeartbeatCache) : Type 0 where
  pub sent : c.send_count ≤ n
  pub lost : c.packet_loss_count + pending c ≤ c.send_count
  pub lost_in_row : c.packet_continuous_loss_count ≤ c.packet_loss_count
  pub received_in_row : c.packet_continuous_recv_count ≤ n

reply-AreCounts :
    (n now seq : ℕ) (c : HeartbeatCache)
    → suc n < 2 ^ 64
    → AreCounts n c
    → AreCounts (suc n) (reply now seq c).1
unfolding reply
reply-AreCounts n now seq c b h = elim (Bool-cases (c.seq == seq)) [
  | inl same ↦ rw same record {
    sent = omega (arith, h.sent);
    lost = h.lost;
    lost_in_row = omega arith;
    received_in_row = omega (arith, h.received_in_row);
  }
  | inr other ↦ rw other record {
    sent = omega (arith, h.sent);
    lost = h.lost;
    lost_in_row = h.lost_in_row;
    received_in_row = omega (arith, h.received_in_row);
  }
]

check-AreCounts :
    (n : ℕ) (c : HeartbeatCache) → suc n < 2 ^ 64 → AreCounts n c → AreCounts (suc n) (check c)
unfolding check
check-AreCounts n c b h = elim (Bool-cases (c.is_send && not c.is_reply)) [
  | inl lost ↦
      let one : pending c ≡ 1 = ground (arith, lost) in
      rw lost record {
        sent = omega (arith, h.sent);
        lost = omega (arith, h.lost, h.sent, one);
        lost_in_row = omega (arith, h.lost, h.sent, h.lost_in_row, one);
        received_in_row = omega arith;
      }
  | inr kept ↦ rw kept record {
    sent = omega (arith, h.sent);
    lost = omega (arith, h.lost);
    lost_in_row = h.lost_in_row;
    received_in_row = omega (arith, h.received_in_row);
  }
]

ping-AreCounts :
    (n now : ℕ) (c : HeartbeatCache)
    → suc n < 2 ^ 64
    → AreCounts n c
    → AreCounts (suc n) (ping now c)
unfolding ping
ping-AreCounts n now c b h = record {
  sent = omega (arith, h.sent);
  lost = omega (arith, h.lost, h.sent);
  lost_in_row = h.lost_in_row;
  received_in_row = omega (arith, h.received_in_row);
}

-- In every order of fewer than 2 ^ 64 operations no counter wraps: the heartbeats sent are at most
-- the operations, the losses and the heartbeat that is not judged yet at most those sent, and the
-- losses in a row at most all losses.
pub counters-AreCounts : (n : ℕ) (c : HeartbeatCache) → n < 2 ^ 64 → Reached n c → AreCounts n c
unfolding new
counters-AreCounts n c b (start now) = record {
  sent = omega arith;
  lost = omega arith;
  lost_in_row = omega arith;
  received_in_row = omega arith;
}
counters-AreCounts (suc n) c b (replied {c = old} now seq r) =
    reply-AreCounts n now seq old b (counters-AreCounts n old (omega arith) r)
counters-AreCounts (suc n) c b (checked {c = old} r) =
    check-AreCounts n old b (counters-AreCounts n old (omega arith) r)
counters-AreCounts (suc n) c b (pinged {c = old} now r) =
    ping-AreCounts n now old b (counters-AreCounts n old (omega arith) r)
