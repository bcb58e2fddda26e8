-- ===== src/Server.antt =====
-- The server's state of one group (src/server/mod.rs). A HashSet and a HashMap are functions of
-- their keys; both sides of the `watch` channel are the value last sent.
pub mod Pool
pub mod Register
pub mod Lifecycle
pub mod Relay
pub mod Exec
pub mod Beats
pub mod Info
mod Tests
use fubuki_test.Base.{ℕ, Bool, true, false, Option, none, some, List, ◌==◌, if◌then◌else◌}
use fubuki_test.Protocol.{Node, PeerStatus, SocketAddr}
use fubuki_test.Heartbeat.{HeartbeatCache, UdpPath, unavailable}
use fubuki_test.Heartbeat as Heartbeat
use fubuki_test.Flow.{FlowControl, add_address}

-- `HashSet`
abbrev pub Set : Type 0
Set = ℕ → Bool

abbrev pub with_key : ℕ → Set → Set
with_key k s = λ x. if x == k then true else s x

abbrev pub without_key : ℕ → Set → Set
without_key k s = λ x. if x == k then false else s x

-- `HashMap`
abbrev pub Map : Type 0 → Type 0
Map A = ℕ → Option A

abbrev pub with_entry : {A : Type 0} → ℕ → A → Map A → Map A
with_entry k v m = λ x. if x == k then some v else m x

abbrev pub without_entry : {A : Type 0} → ℕ → Map A → Map A
without_entry k m = λ x. if x == k then none else m x

abbrev pub is_some : {A : Type 0} → Option A → Bool
is_some none = false
is_some (some a) = true

pub record NodeHandle (Net : Type 0) : Type 0 where
  pub node : Node Net
  pub udp : UdpPath SocketAddr
  pub tcp_heartbeat_cache : HeartbeatCache
  -- The peers, and the time of the update.
  pub peers_status : Option (List PeerStatus × ℕ)

pub record GroupHandle (Net : Type 0) : Type 0 where
  pub name : List ℕ
  pub address_range : Net
  pub mapping : Map (NodeHandle Net)
  pub watch : Map (Node Net)
  pub flow_control : FlowControl Net

module _ {Net : Type 0} where
  -- `GroupHandle::sync` sends every node of the mapping.
  abbrev pub node_of : Option (NodeHandle Net) → Option (Node Net)
  node_of none = none
  node_of (some h) = some h.node

  unfoldable pub sync : GroupHandle Net → GroupHandle Net
  sync self = record self { watch = λ a. node_of (self.mapping a) }

  unfoldable pub new_handle : (now : ℕ) → Node Net → NodeHandle Net
  new_handle now node = record {
    node = node;
    udp = record { status = unavailable; cache = Heartbeat.new now };
    tcp_heartbeat_cache = Heartbeat.new now;
    peers_status = none;
  }

  -- The part of `join` under the lock of the mapping.
  unfoldable pub join_mapping : (now : ℕ) → Node Net → GroupHandle Net → GroupHandle Net
  join_mapping now node self =
      sync
        (record self { mapping = with_entry node.virtual_addr (new_handle now node) self.mapping })

  unfoldable pub join : (now : ℕ) → Node Net → GroupHandle Net → GroupHandle Net
  join now node self =
      let joined = join_mapping now node self in
      record joined { flow_control = add_address now node.virtual_addr joined.flow_control }

  -- The part of `Tunnel::drop` under the lock of the mapping.
  unfoldable pub leave_mapping : (virtual_addr : ℕ) → GroupHandle Net → GroupHandle Net
  leave_mapping virtual_addr self =
      if is_some (self.mapping virtual_addr)
      then sync (record self { mapping = without_entry virtual_addr self.mapping })
      else self
