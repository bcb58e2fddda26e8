-- ===== src/Server/Tests/Silence.antt =====
-- A run of the heartbeat schedule with a node that falls silent.
use fubuki_test.Base.{ℕ, ◌≡◌, refl, true, false, none, some, List, [], ◌∷◌, arith}
use fubuki_test.Ipnet.Sample.{SampleNet, sample_ip}
use fubuki_test.Protocol.{SocketAddr, UdpMsg, req, resp, default_mode}
use fubuki_test.Heartbeat as Heartbeat
use fubuki_test.Heartbeat.{available, unavailable}
use fubuki_test.Server.{NodeHandle, GroupHandle, with_entry}
use fubuki_test.Server.Relay.{relay}
use fubuki_test.Server.Beats.{GroupEvent, passes, receives, after_all}
use fubuki_test.Server.Beats.Silent.{is_over_udp, silent-relay}
use fubuki_test.Server.Tests.{empty_group}

abbrev at_port : ℕ → SocketAddr
at_port p = record { ip = 16843009; port = p }

-- 10.0.0.2 at 1.1.1.1:80, with a heartbeat on its way.
abbrev silent : NodeHandle SampleNet
silent = record {
  node = record {
    name = [];
    virtual_addr = 167772162;
    lan_udp_addr = none;
    wan_udp_addr = some (at_port 80);
    mode = default_mode;
    allowed_ips = [];
    register_time = 0;
    register_nonce = 0;
  };
  udp = record {
    status = available (at_port 80);
    cache = record (Heartbeat.new 0) { is_send = true };
  };
  tcp_heartbeat_cache = Heartbeat.new 0;
  peers_status = none;
}

abbrev group : GroupHandle SampleNet
group = record empty_group { mapping = with_entry 167772162 silent empty_group.mapping }

-- Two passes; in between a request of the node from another port, and a response of another node.
abbrev events : List GroupEvent
events =
    passes 5 (167772162 ∷ [])
    ∷ receives 6 6 true true (at_port 81) (UdpMsg.heartbeat 167772162 4 req)
    ∷ receives 6 6 true true (at_port 82) (UdpMsg.heartbeat 167772163 4 resp)
    ∷ passes 10 (167772162 ∷ [])
    ∷ []

fell_silent_example :
    (last : NodeHandle SampleNet) × ((after_all sample_ip 2 3 events group).mapping 167772162
      ≡ some last)
    × (last.udp.status ≡ unavailable)
    × (is_over_udp
          (relay sample_ip true true 11 167772162 (1 ∷ []) (after_all sample_ip 2 3 events group)).0
        ≡ false)
unfolding Heartbeat.new
fell_silent_example =
    silent-relay sample_ip 2 3 167772162 events group silent (at_port 80) true true 11 (1 ∷ []) refl
      refl (record { sent = refl; not_answered = refl; lost = refl }) (omega arith)
      (refl, (tt, ((λ e. ground (arith, e)), (refl, tt)))) (omega arith) (omega arith)
