-- ===== src/Nodes/Joining.antt =====
-- `register` (src/node/mod.rs): a node asks for an address if it has none, and registers with the
-- server. The two messages that the server answers with are a parameter, `none` where the connection
-- was closed; a failure of the connection itself ends the function with the state as it is.
pub mod Settled
use fubuki_test.Base.{
  ℕ, Bool, true, false, not, Option, none, some, List, Outcome, ok, err, panic, ◌⊎◌, inl, inr,
  if◌then◌else◌,
}
use fubuki_test.Ipnet.{IpNet}
use fubuki_test.Protocol.{
  SocketAddr, ProtocolMode, Register, GroupContent, RegisterError, invalid_virtual_address, timeout,
  nonce_repeat, AllocateError, ip_already_in_use, ip_not_belong_network_range,
  ip_same_as_network_address, ip_same_as_broadcast_address, TcpMsg, get_idle_virtual_addr_res,
  register_res,
}

pub data RegisterVirtualAddr (Net : Type 0) : Type 0 where
  manual : ℕ × Net → RegisterVirtualAddr Net
  auto : Option (ℕ × Net) → RegisterVirtualAddr Net

-- `anyhow!` of the function, and the server's refusal.
pub data JoinError : Type 0 where
  connection_closed insufficient_address invalid_message not_match cidr_not_match : JoinError
  refused : RegisterError → JoinError

-- The result, the state of `register_addr` and of `refresh_route`, and the message sent, if any.
pub record Joined (Net : Type 0) : Type 0 where
  pub result : Outcome JoinError (GroupContent Net)
  pub register_addr : RegisterVirtualAddr Net
  pub refresh_route : Bool
  pub registered : Option (Register Net)

-- What the group's configuration says of the node.
pub record TargetGroup (Net : Type 0) : Type 0 where
  pub node_name : List ℕ
  pub mode : ProtocolMode
  pub allowed_ips : List Net

module _ {Net : Type 0} (ip : IpNet Net) where
  -- `if let RegisterVirtualAddr::Auto(v) = register_addr { *v = None }`
  abbrev pub forget : RegisterVirtualAddr Net → RegisterVirtualAddr Net
  forget (manual a) = manual a
  forget (auto v) = auto none

  abbrev pub is_in_use : AllocateError → Bool
  is_in_use ip_already_in_use = true
  is_in_use ip_not_belong_network_range = false
  is_in_use ip_same_as_network_address = false
  is_in_use ip_same_as_broadcast_address = false

  abbrev pub idle_answer : Option (TcpMsg Net) → Outcome JoinError (ℕ × Net)
  idle_answer none = err connection_closed
  idle_answer (some (get_idle_virtual_addr_res (some a))) = ok a
  idle_answer (some (get_idle_virtual_addr_res none)) = err insufficient_address
  idle_answer (some _) = err invalid_message

  -- The address to register, which the server is asked for if there is none.
  unfoldable pub addr_for :
      RegisterVirtualAddr Net → (idle : Option (TcpMsg Net)) → Outcome JoinError (ℕ × Net)
  addr_for (manual a) idle = ok a
  addr_for (auto (some a)) idle = ok a
  addr_for (auto none) idle = idle_answer idle

  -- `if let RegisterVirtualAddr::Auto(None) = register_addr { .. }`
  abbrev pub settle :
      (addr : ℕ × Net) → GroupContent Net → RegisterVirtualAddr Net → Register Net → Joined Net
  settle addr group_info (auto none) reg = record {
    result = ok group_info;
    register_addr = auto (some addr);
    refresh_route = true;
    registered = some reg;
  }
  settle addr group_info (auto (some a)) reg = record {
    result = ok group_info;
    register_addr = auto (some a);
    refresh_route = false;
    registered = some reg;
  }
  settle addr group_info (manual a) reg = record {
    result = ok group_info;
    register_addr = manual a;
    refresh_route = false;
    registered = some reg;
  }

  abbrev pub failed : JoinError → RegisterVirtualAddr Net → Option (Register Net) → Joined Net
  failed e register_addr reg = record {
    result = err e;
    register_addr = register_addr;
    refresh_route = false;
    registered = reg;
  }

  -- The server's answer to the registration.
  abbrev pub answered :
      (addr : ℕ × Net) → RegisterVirtualAddr Net → Register Net → Option (TcpMsg Net) → Joined Net
  answered addr register_addr reg none = failed connection_closed register_addr (some reg)
  answered addr register_addr reg (some (register_res (inl (invalid_virtual_address e)))) =
      failed (refused (invalid_virtual_address e))
        (if is_in_use e then forget register_addr else register_addr) (some reg)
  answered addr register_addr reg (some (register_res (inl timeout))) =
      failed (refused timeout) register_addr (some reg)
  answered addr register_addr reg (some (register_res (inl nonce_repeat))) =
      failed (refused nonce_repeat) register_addr (some reg)
  answered addr register_addr reg (some (register_res (inr group_info))) =
      if not (ip.same addr.1 group_info.cidr)
      then failed cidr_not_match (forget register_addr) (some reg)
      else settle addr group_info register_addr reg
  answered addr register_addr reg (some _) = failed not_match register_addr (some reg)

  abbrev pub registration :
      (now nonce : ℕ)
      → TargetGroup Net
      → (lan_udp_socket_addr : Option SocketAddr) → RegisterVirtualAddr Net
      → (res : Option (TcpMsg Net)) → Outcome JoinError (ℕ × Net)
      → Joined Net
  registration now nonce group lan_udp_socket_addr register_addr res (ok addr) =
      answered addr register_addr
        (record {
          node_name = group.node_name;
          virtual_addr = addr.0;
          lan_udp_socket_addr = lan_udp_socket_addr;
          proto_mod = group.mode;
          allowed_ips = group.allowed_ips;
          register_time = now;
          nonce = nonce;
        })
        res
  registration now nonce group lan_udp_socket_addr register_addr res (err e) =
      failed e register_addr none
  registration now nonce group lan_udp_socket_addr register_addr res panic = record {
    result = panic;
    register_addr = register_addr;
    refresh_route = false;
    registered = none;
  }

  unfoldable pub register :
      (now nonce : ℕ)
      → TargetGroup Net
      → (lan_udp_socket_addr : Option SocketAddr) → RegisterVirtualAddr Net
      → (idle res : Option (TcpMsg Net)) → Joined Net
  register now nonce group lan_udp_socket_addr register_addr idle res =
      registration now nonce group lan_udp_socket_addr register_addr res
        (addr_for register_addr idle)
