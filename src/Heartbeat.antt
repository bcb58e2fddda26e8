-- ===== src/Heartbeat.antt =====
-- Heartbeats (src/common/net.rs: `UdpStatus`, `HeartbeatCache`, `HeartbeatInfo`) and the server's
-- use of them (src/server/mod.rs: `udp_handler`). A moment of the monotonic clock is a number,
-- and the counters wrap as those of a release build do.
pub mod Counters
pub mod Liveness
mod Tests
use fubuki_test.Base.{
  ℕ, ◌+◌, ◌-◌, Bool, true, false, ◌&&◌, not, Option, none, some, ◌==◌, leb, if◌then◌else◌,
}
use fubuki_test.Base.Bytes.{u32, u64}

module _ (Addr : Type 0) where
  pub data UdpStatus : Type 0 where
    available : (dst_addr : Addr) → UdpStatus
    unavailable : UdpStatus

-- `status != UdpStatus::Unavailable`.
abbrev pub is_available : {Addr : Type 0} → UdpStatus Addr → Bool
is_available (available a) = true
is_available unavailable = false

pub record HeartbeatCache : Type 0 where
  pub seq : ℕ
  pub send_time : ℕ
  pub is_reply : Bool
  pub last_elapsed : Option ℕ
  pub send_count : ℕ
  pub packet_continuous_loss_count : ℕ
  pub packet_continuous_recv_count : ℕ
  pub packet_loss_count : ℕ
  pub is_send : Bool

unfoldable pub new : (now : ℕ) → HeartbeatCache
new now = record {
  seq = 0;
  send_time = now;
  is_reply = false;
  last_elapsed = none;
  send_count = 0;
  packet_continuous_loss_count = 0;
  packet_continuous_recv_count = 0;
  packet_loss_count = 0;
  is_send = false;
}

unfoldable pub reply : (now reply_seq : ℕ) → HeartbeatCache → Option ℕ × HeartbeatCache
reply now reply_seq self =
    if self.seq == reply_seq
    then (
      some (now - self.send_time),
      record self {
        packet_continuous_loss_count = 0;
        packet_continuous_recv_count = u64 (self.packet_continuous_recv_count + 1);
        is_reply = true;
        last_elapsed = some (now - self.send_time);
      },
    )
    else (none, self)

unfoldable pub check : HeartbeatCache → HeartbeatCache
check self =
    if self.is_send && not self.is_reply
    then record self {
      packet_continuous_recv_count = 0;
      packet_loss_count = u64 (self.packet_loss_count + 1);
      packet_continuous_loss_count = u64 (self.packet_continuous_loss_count + 1);
      is_send = false;
    }
    else record self { is_send = false }

unfoldable pub ping : (now : ℕ) → HeartbeatCache → HeartbeatCache
ping now self = record self {
  is_send = true;
  is_reply = false;
  send_time = now;
  seq = u32 (self.seq + 1);
  send_count = u64 (self.send_count + 1);
}

pub record HeartbeatInfo : Type 0 where
  pub elapsed : Option ℕ
  pub send_count : ℕ
  pub packet_continuous_loss_count : ℕ
  pub packet_continuous_recv_count : ℕ
  pub packet_loss_count : ℕ

unfoldable pub info_from : HeartbeatCache → HeartbeatInfo
info_from value = record {
  elapsed = value.last_elapsed;
  send_count = value.send_count;
  packet_continuous_loss_count = value.packet_continuous_loss_count;
  packet_continuous_recv_count = value.packet_continuous_recv_count;
  packet_loss_count = value.packet_loss_count;
}

-- What the server keeps about a node's UDP path.
pub record UdpPath (Addr : Type 0) : Type 0 where
  pub status : UdpStatus Addr
  pub cache : HeartbeatCache

module _ {Addr : Type 0} where
  -- One pass of the schedule over a node: the last heartbeat is judged and the next one sent.
  unfoldable pub round : (packet_loss_limit now : ℕ) → UdpPath Addr → UdpPath Addr
  round packet_loss_limit now path =
      let checked = check path.cache in
      record {
        status =
            if is_available path.status
              && leb packet_loss_limit checked.packet_continuous_loss_count
            then unavailable
            else path.status;
        cache = ping now checked;
      }

  abbrev pub resp_status :
      (packet_continuous_recv : ℕ) (peer_addr : Addr) → UdpPath Addr → UdpStatus Addr
  resp_status packet_continuous_recv peer_addr path =
      if not (is_available path.status)
        && leb packet_continuous_recv path.cache.packet_continuous_recv_count
      then available peer_addr
      else path.status

  -- What the handler does with the result of `reply`.
  unfoldable pub after_reply :
      (packet_continuous_recv : ℕ) (peer_addr : Addr)
      → UdpStatus Addr
      → Option ℕ × HeartbeatCache
      → UdpPath Addr
  after_reply packet_continuous_recv peer_addr status (none, cache) = record {
    status = status;
    cache = cache;
  }
  after_reply packet_continuous_recv peer_addr status (some elapsed, cache) =
      let path : UdpPath Addr = record { status = status; cache = cache } in
      record path { status = resp_status packet_continuous_recv peer_addr path }

  -- A response from the node, which came from `peer_addr`.
  unfoldable pub receive_resp :
      (packet_continuous_recv now : ℕ) (peer_addr : Addr) (seq : ℕ) → UdpPath Addr → UdpPath Addr
  receive_resp packet_continuous_recv now peer_addr seq path =
      after_reply packet_continuous_recv peer_addr path.status (reply now seq path.cache)
