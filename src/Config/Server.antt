-- ===== src/Config/Server.antt =====
-- `ServerConfigFinalize::try_from` (src/lib.rs).
use fubuki_test.Base.{ℕ, Bool, true, not, Option, List, [], ◌∷◌, Outcome, ok, ensure, ◌>>=◌, ◌>>◌}
use fubuki_test.Cipher.{CipherEnum}
use fubuki_test.Protocol.{SocketAddr}
use fubuki_test.Config.{System, ConfigError, loopback, localhost, unwrap_or, cipher_from}

pub record Group (Net Addr : Type 0) : Type 0 where
  pub name : List ℕ
  pub listen_addr : Addr × ℕ
  pub key : Option (List ℕ)
  pub address_range : Net
  pub flow_control_rules : Option (List (Net × ℕ))
  pub allow_udp_relay : Option Bool
  pub allow_tcp_relay : Option Bool

pub record GroupFinalize (Net Addr : Type 0) : Type 0 where
  pub name : List ℕ
  pub listen_addr : Addr × ℕ
  pub key : CipherEnum
  pub address_range : Net
  pub flow_control_rules : List (Net × ℕ)
  pub allow_udp_relay : Bool
  pub allow_tcp_relay : Bool

pub record ServerConfig (Net Addr : Type 0) : Type 0 where
  pub channel_limit : Option ℕ
  pub api_addr : Option SocketAddr
  pub tcp_heartbeat_interval_secs : Option ℕ
  pub tcp_heartbeat_continuous_loss : Option ℕ
  pub udp_heartbeat_interval_secs : Option ℕ
  pub udp_heartbeat_continuous_loss : Option ℕ
  pub udp_heartbeat_continuous_recv : Option ℕ
  pub groups : List (Group Net Addr)

pub record ServerConfigFinalize (Net Addr : Type 0) : Type 0 where
  pub channel_limit : ℕ
  pub api_addr : SocketAddr
  pub tcp_heartbeat_interval : ℕ
  pub tcp_heartbeat_continuous_loss : ℕ
  pub udp_heartbeat_interval : ℕ
  pub udp_heartbeat_continuous_loss : ℕ
  pub udp_heartbeat_continuous_recv : ℕ
  pub groups : List (GroupFinalize Net Addr)

module _ {Net Addr : Type 0} (os : System Net Addr) where
  unfoldable pub finalize_group : Group Net Addr → Outcome ConfigError (GroupFinalize Net Addr)
  finalize_group group =
      ensure (not (os.is_loopback group.listen_addr.0)) loopback
      >> ok (record {
        name = group.name;
        listen_addr = group.listen_addr;
        key = cipher_from os.hash group.key;
        address_range = group.address_range;
        flow_control_rules = unwrap_or group.flow_control_rules [];
        allow_udp_relay = unwrap_or group.allow_udp_relay true;
        allow_tcp_relay = unwrap_or group.allow_tcp_relay true;
      })

  unfoldable pub finalize_groups :
      List (Group Net Addr) → Outcome ConfigError (List (GroupFinalize Net Addr))
  finalize_groups [] = ok []
  finalize_groups (group ∷ groups) = do
    one ← finalize_group group
    rest ← finalize_groups groups
    ok (one ∷ rest)

  unfoldable pub try_from :
      ServerConfig Net Addr → Outcome ConfigError (ServerConfigFinalize Net Addr)
  try_from config = do
    groups ← finalize_groups config.groups
    ok (record {
      channel_limit = unwrap_or config.channel_limit 100;
      api_addr = unwrap_or config.api_addr (localhost 3031);
      tcp_heartbeat_interval = unwrap_or config.tcp_heartbeat_interval_secs 5;
      tcp_heartbeat_continuous_loss = unwrap_or config.tcp_heartbeat_continuous_loss 5;
      udp_heartbeat_interval = unwrap_or config.udp_heartbeat_interval_secs 5;
      udp_heartbeat_continuous_loss = unwrap_or config.udp_heartbeat_continuous_loss 5;
      udp_heartbeat_continuous_recv = unwrap_or config.udp_heartbeat_continuous_recv 3;
      groups = groups;
    })
