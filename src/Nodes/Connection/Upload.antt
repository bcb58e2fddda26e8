-- ===== src/Nodes/Connection/Upload.antt =====
-- What a node tells the server of its paths (src/node/mod.rs: `update_peers_schedule`).
use native.Mathlib.Nat.{div-le_of_le-mul}
use fubuki_test.Base.{
  ℕ, ◌*◌, ◌/◌, ◌<◌, ◌≤◌, ◌^◌, ◌≡◌, refl, Bool, true, false, Bool-cases, inl, inr, ◌&&◌, ◌⊎◌, sym,
  Option, none, some, List, [], ◌∷◌, ◌==◌, arith, ok,
}
use fubuki_test.Base.Bytes.{u8, u64}
use fubuki_test.Heartbeat.{is_available}
use fubuki_test.Protocol.{ProtocolMode, PeerStatus}
use fubuki_test.Nodes.{ExtendedNode, NodeList}
use fubuki_test.Nodes.Connection.{may_p2p, loss_rate, peer_status, peers_status}

-- Something was sent to the node, and not more was lost than sent.
pub record IsCounted {Net : Type 0} (node : ExtendedNode Net) : Type 0 where
  pub has_sent : 0 < node.hc.send_count
  pub lost : node.hc.packet_loss_count ≤ node.hc.send_count
  pub fits : node.hc.packet_loss_count * 100 < 2 ^ 64

abbrev pub is_some : Option ℕ → Bool
is_some none = false
is_some (some n) = true

-- A loss in percent, if there is one.
abbrev pub IsPercent : Option ℕ → Type 0
IsPercent none = Unit
IsPercent (some rate) = rate ≤ 100

percent_le : (lost sent : ℕ) → lost ≤ sent → lost * 100 / sent ≤ 100
percent_le lost sent h = div-le_of_le-mul sent (omega arith)

loss_rate-IsPercent :
    {Net : Type 0} (node : ExtendedNode Net)
    → IsCounted node
    → (rate : ℕ) × (loss_rate node.hc ≡ ok rate) × IsPercent (some rate)
unfolding loss_rate
loss_rate-IsPercent node c =
    let counted : (node.hc.send_count == 0) ≡ false = ground (arith, c.has_sent) in
    let whole : u64 (node.hc.packet_loss_count * 100) ≡ node.hc.packet_loss_count * 100 =
      omega (arith, c.fits) in
    (
      u8 (u64 (node.hc.packet_loss_count * 100) / node.hc.send_count),
      rw counted refl,
      rw whole (omega (arith, percent_le node.hc.packet_loss_count node.hc.send_count c.lost)),
    )

-- The status is that of the node's path: measured exactly if it is available and allowed.
pub record IsStatusOf {Net : Type 0} (specify_mode : ℕ → Option ProtocolMode)
    (node : ExtendedNode Net) (peer : PeerStatus) : Type 0 where
  pub same_addr : peer.addr ≡ node.node.virtual_addr
  pub is_measured :
      is_some peer.packet_loss
      ≡ (is_available node.udp_status && may_p2p (specify_mode node.node.virtual_addr))
  pub is_percent : IsPercent peer.packet_loss

-- Every node that the path is available to is counted.
abbrev pub AreCounted : {Net : Type 0} → NodeList Net → Type 0
AreCounted [] = Unit
AreCounted (node ∷ nodes) =
    (is_available node.udp_status ≡ false ⊎ IsCounted node) × AreCounted nodes

abbrev pub AreStatusesOf :
    {Net : Type 0} → (ℕ → Option ProtocolMode) → NodeList Net → List PeerStatus → Type 0
AreStatusesOf specify_mode [] [] = Unit
AreStatusesOf specify_mode (node ∷ nodes) (peer ∷ peers) =
    IsStatusOf specify_mode node peer × AreStatusesOf specify_mode nodes peers
AreStatusesOf specify_mode [] (peer ∷ peers) = ⊥
AreStatusesOf specify_mode (node ∷ nodes) [] = ⊥

module _ {Net : Type 0} (specify_mode : ℕ → Option ProtocolMode) where
  measured_status :
      (node : ExtendedNode Net)
      → (is_available node.udp_status && may_p2p (specify_mode node.node.virtual_addr)) ≡ true
      → IsCounted node
      → (peer : PeerStatus) × (peer_status specify_mode node ≡ ok peer)
        × IsStatusOf specify_mode node peer
  unfolding peer_status
  measured_status node m c =
      let (rate, e, p) = loss_rate-IsPercent node c in
      (
        record {
          addr = node.node.virtual_addr;
          latency = node.hc.last_elapsed;
          packet_loss = some rate;
        },
        rw (m, e) refl,
        record { same_addr = refl; is_measured = sym m; is_percent = p },
      )

  peer_status-IsStatusOf :
      (node : ExtendedNode Net)
      → is_available node.udp_status ≡ false ⊎ IsCounted node
      → (peer : PeerStatus) × (peer_status specify_mode node ≡ ok peer)
        × IsStatusOf specify_mode node peer
  unfolding peer_status
  peer_status-IsStatusOf node h =
      elim (Bool-cases
        (is_available node.udp_status && may_p2p (specify_mode node.node.virtual_addr))) [
          | inl m ↦ measured_status node m (counted h m)
          | inr m ↦ (
            record { addr = node.node.virtual_addr; latency = none; packet_loss = none },
            rw m refl,
            record { same_addr = refl; is_measured = sym m; is_percent = tt },
          )
        ]
    where
      counted :
          is_available node.udp_status ≡ false ⊎ IsCounted node
          → (is_available node.udp_status && may_p2p (specify_mode node.node.virtual_addr)) ≡ true
          → IsCounted node
      counted (inl e) m = absurd (ground (arith, e, m))
      counted (inr c) m = c

  -- Where every node with an available path was sent at least one heartbeat and lost no more than it
  -- was sent, and the product with 100 fits 64 bits, the upload does not panic and gives each node's
  -- status in order, with a loss of at most 100 exactly if the path is available and allowed.
  pub peers_status-AreStatusesOf :
      (nodes : NodeList Net)
      → AreCounted nodes
      → (peers : List PeerStatus) × (peers_status specify_mode nodes ≡ ok peers)
        × AreStatusesOf specify_mode nodes peers
  unfolding peers_status
  peers_status-AreStatusesOf [] h = ([], refl, tt)
  peers_status-AreStatusesOf (node ∷ nodes) (h, hs) =
      let (peer, e, p) = peer_status-IsStatusOf node h in
      let (peers, es, ps) = peers_status-AreStatusesOf nodes hs in
      (peer ∷ peers, rw (e, es) refl, (p, ps))
