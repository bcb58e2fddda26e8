-- ===== src/Nodes/Joining/Settled.antt =====
-- The address of a node that `register` (src/node/mod.rs) let into the group.
use fubuki_test.Base.{
  ℕ, ◌≡◌, refl, sym, Bool, true, false, Bool-cases, Option, none, some, ok, err, ◌⊎◌, inl, inr,
}
use fubuki_test.Ipnet.{IpNet, IsIpNet}
use fubuki_test.Protocol.{
  SocketAddr, Register, GroupContent, invalid_virtual_address, timeout, nonce_repeat, AllocateError,
  TcpMsg, get_idle_virtual_addr, get_idle_virtual_addr_res, register_res, node_map, relay,
  heartbeat, upload_peers, fetch_peers, fetch_peers_res,
}
use fubuki_test.Protocol as Protocol
use fubuki_test.Nodes.Joining.{
  RegisterVirtualAddr, manual, auto, JoinError, Joined, TargetGroup, forget, is_in_use, idle_answer,
  addr_for, settle, answered, register,
}

module _ {Net : Type 0} (ip : IpNet Net) where
  -- The address that the node has, with its range.
  abbrev pub holds : RegisterVirtualAddr Net → Option (ℕ × Net)
  holds (manual a) = some a
  holds (auto v) = v

  abbrev pub lacks_addr : RegisterVirtualAddr Net → Bool
  lacks_addr (manual a) = false
  lacks_addr (auto none) = true
  lacks_addr (auto (some a)) = false

  -- A node that joined holds the address that it registered, in the group's range, and the routes
  -- are refreshed exactly if it held none before. One that did not holds what it held before, or
  -- has given it up if the server chose it.
  pub data IsSettled (before : RegisterVirtualAddr Net) (r : Joined Net) : Type 0 where
    settled :
        {group_info : GroupContent Net} {addr : ℕ} {reg : Register Net}
        → r.result ≡ ok group_info
        → holds r.register_addr ≡ some (addr, group_info.cidr)
        → r.registered ≡ some reg
        → reg.virtual_addr ≡ addr
        → r.refresh_route ≡ lacks_addr before
        → IsSettled before r
    not_settled :
        {e : JoinError}
        → r.result ≡ err e
        → (r.register_addr ≡ before) ⊎ (r.register_addr ≡ forget ip before)
        → r.refresh_route ≡ false
        → IsSettled before r

  -- The address is the one that the node has, if it has one.
  abbrev Fits : ℕ × Net → RegisterVirtualAddr Net → Type 0
  Fits a (manual b) = b ≡ a
  Fits a (auto none) = Unit
  Fits a (auto (some b)) = b ≡ a

  module _ (lawful : IsIpNet ip) where
    settle-IsSettled :
        (a : ℕ × Net) (group_info : GroupContent Net) (before : RegisterVirtualAddr Net)
        (reg : Register Net)
        → Fits a before
        → a.1 ≡ group_info.cidr
        → reg.virtual_addr ≡ a.0
        → IsSettled before (settle ip a group_info before reg)
    settle-IsSettled a group_info (manual b) reg f c v =
        settled refl (rw (f, sym c) refl) refl v refl
    settle-IsSettled a group_info (auto none) reg f c v = settled refl (rw (sym c) refl) refl v refl
    settle-IsSettled a group_info (auto (some b)) reg f c v =
        settled refl (rw (f, sym c) refl) refl v refl

    answered-IsSettled :
        (a : ℕ × Net) (before : RegisterVirtualAddr Net) (reg : Register Net)
        (res : Option (TcpMsg Net))
        → Fits a before
        → reg.virtual_addr ≡ a.0
        → IsSettled before (answered ip a before reg res)
    answered-IsSettled a before reg none f v = not_settled refl (inl refl) refl
    answered-IsSettled a before reg (some (register_res (inl (invalid_virtual_address e)))) f v =
        elim (Bool-cases (is_in_use ip e)) [
          | inl taken ↦ rw taken (not_settled refl (inr refl) refl)
          | inr kept ↦ rw kept (not_settled refl (inl refl) refl)
        ]
    answered-IsSettled a before reg (some (register_res (inl timeout))) f v =
        not_settled refl (inl refl) refl
    answered-IsSettled a before reg (some (register_res (inl nonce_repeat))) f v =
        not_settled refl (inl refl) refl
    answered-IsSettled a before reg (some (register_res (inr group_info))) f v =
        elim (Bool-cases (ip.same a.1 group_info.cidr)) [
          | inl same ↦ rw same (
              settle-IsSettled a group_info before reg f
                ((lawful.same_iff a.1 group_info.cidr).0 same) v)
          | inr other ↦ rw other (not_settled refl (inr refl) refl)
        ]
    answered-IsSettled a before reg (some (get_idle_virtual_addr)) f v =
        not_settled refl (inl refl) refl
    answered-IsSettled a before reg (some (get_idle_virtual_addr_res x)) f v =
        not_settled refl (inl refl) refl
    answered-IsSettled a before reg (some (Protocol.register x)) f v =
        not_settled refl (inl refl) refl
    answered-IsSettled a before reg (some (node_map x)) f v = not_settled refl (inl refl) refl
    answered-IsSettled a before reg (some (relay x y)) f v = not_settled refl (inl refl) refl
    answered-IsSettled a before reg (some (heartbeat x y)) f v = not_settled refl (inl refl) refl
    answered-IsSettled a before reg (some (upload_peers x)) f v = not_settled refl (inl refl) refl
    answered-IsSettled a before reg (some (fetch_peers)) f v = not_settled refl (inl refl) refl
    answered-IsSettled a before reg (some (fetch_peers_res x)) f v =
        not_settled refl (inl refl) refl

    idle_answer-returns :
        (idle : Option (TcpMsg Net))
        → ((a : ℕ × Net) × (idle_answer ip idle ≡ ok a))
          ⊎ ((e : JoinError) × (idle_answer ip idle ≡ err e))
    idle_answer-returns none = inr (_, refl)
    idle_answer-returns (some (get_idle_virtual_addr_res (some a))) = inl (a, refl)
    idle_answer-returns (some (get_idle_virtual_addr_res none)) = inr (_, refl)
    idle_answer-returns (some (get_idle_virtual_addr)) = inr (_, refl)
    idle_answer-returns (some (register_res x)) = inr (_, refl)
    idle_answer-returns (some (Protocol.register x)) = inr (_, refl)
    idle_answer-returns (some (node_map x)) = inr (_, refl)
    idle_answer-returns (some (relay x y)) = inr (_, refl)
    idle_answer-returns (some (heartbeat x y)) = inr (_, refl)
    idle_answer-returns (some (upload_peers x)) = inr (_, refl)
    idle_answer-returns (some (fetch_peers)) = inr (_, refl)
    idle_answer-returns (some (fetch_peers_res x)) = inr (_, refl)

    -- Whatever the server answers, register lets the node join only with the address that it
    -- registered, in a range that is the group's, and refreshes the routes exactly if the node
    -- held no address before; where it fails, the node holds what it held, or has given up an
    -- address that the server chose.
    pub register-IsSettled :
        (now nonce : ℕ) (group : TargetGroup Net) (lan_udp_socket_addr : Option SocketAddr)
        (before : RegisterVirtualAddr Net) (idle res : Option (TcpMsg Net))
        → IsSettled before (register ip now nonce group lan_udp_socket_addr before idle res)
    unfolding register addr_for
    register-IsSettled now nonce group lan_udp_socket_addr (manual a) idle res =
        answered-IsSettled a (manual a) _ res refl refl
    register-IsSettled now nonce group lan_udp_socket_addr (auto (some a)) idle res =
        answered-IsSettled a (auto (some a)) _ res refl refl
    register-IsSettled now nonce group lan_udp_socket_addr (auto none) idle res =
        elim (idle_answer-returns idle) [
          | inl (a, e) ↦ rw e (answered-IsSettled a (auto none) _ res tt refl)
          | inr (e, h) ↦ rw h (not_settled refl (inl refl) refl)
        ]
