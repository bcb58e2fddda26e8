-- ===== src/Server/Beats/Losing.antt =====
-- A node that loses heartbeats, in a pass of the schedule (src/server/mod.rs).
use fubuki_test.Base.{
  ℕ, suc, ◌+◌, ◌≤◌, ◌<◌, ◌^◌, ◌≡◌, ◌≢◌, refl, sym, ap, ◌∙◌, subst, false, ◌&&◌, Option, none, some,
  List, [], ◌∷◌, ◌==◌, ==_iff, ℕ_discrete, leb, if◌then◌else◌, arith,
}
use fubuki_test.Protocol.{SocketAddr}
use fubuki_test.Heartbeat.{UdpStatus, available, unavailable, is_available, UdpPath, check, round}
use fubuki_test.Heartbeat.Liveness.{IsWaiting, check_loss, round-IsWaiting}
use fubuki_test.Server.{with_entry, NodeHandle, GroupHandle}
use fubuki_test.Server.Beats.{beat_to, beat_node, beat}

round-lapses :
    (limit now losses : ℕ) (path : UdpPath SocketAddr)
    → suc losses < 2 ^ 64
    → limit ≤ suc losses
    → IsWaiting losses path
    → (round limit now path).status ≡ unavailable
unfolding round
round-lapses limit now losses path b le w =
    let l : (check path.cache).packet_continuous_loss_count ≡ suc losses =
      omega (arith, check_loss path.cache w.sent w.not_answered, w.lost) in
    rw l (lapsed path.status)
  where
    lapsed :
        (s : UdpStatus SocketAddr)
        → (if is_available s && leb limit (suc losses) then unavailable else s) ≡ unavailable
    lapsed (available a) = ground (arith, le)
    lapsed unavailable = ground arith

abbrev pub occurs : (a : ℕ) → List ℕ → ℕ
occurs a [] = 0
occurs a (k ∷ ks) = (if k == a then 1 else 0) + occurs a ks

module _ {Net : Type 0} (limit a : ℕ) where
  -- The node has an address, and so many heartbeats in a row were lost.
  pub record IsLosing (losses : ℕ) (group : GroupHandle Net) : Type 0 where
    pub handle : NodeHandle Net
    pub here : group.mapping a ≡ some handle
    pub wan : SocketAddr
    pub has_wan : handle.node.wan_udp_addr ≡ some wan
    pub waiting : IsWaiting losses handle.udp
    pub lapsed : limit ≤ losses → handle.udp.status ≡ unavailable

  pub same_entry :
      {losses : ℕ} (g g' : GroupHandle Net)
      → g'.mapping a ≡ g.mapping a
      → IsLosing losses g
      → IsLosing losses g'
  same_entry g g' e h = record {
    handle = h.handle;
    here = e ∙ h.here;
    wan = h.wan;
    has_wan = h.has_wan;
    waiting = h.waiting;
    lapsed = h.lapsed;
  }

  beat_node-other :
      (now key : ℕ) (o : Option (NodeHandle Net)) (group : GroupHandle Net)
      → key ≢ a
      → (beat_node limit now key o group).1.mapping a ≡ group.mapping a
  beat_node-other now key none group other = refl
  beat_node-other now key (some node) group other =
      let differ : a == key ≡ false = ground (arith, other) in rw differ refl

  beat-other :
      (now : ℕ) (keys : List ℕ) (group : GroupHandle Net)
      → occurs a keys ≡ 0
      → (beat limit now keys group).1.mapping a ≡ group.mapping a
  unfolding beat
  beat-other now [] group h = refl
  beat-other now (key ∷ keys) group h =
      beat-other now keys (beat_node limit now key (group.mapping key) group).1 (ground (arith, h))
      ∙ beat_node-other now key (group.mapping key) group (λ e. ground (arith, h, e))

  pub own_entry :
      (x : NodeHandle Net) (m : ℕ → Option (NodeHandle Net)) → with_entry a x m a ≡ some x
  own_entry x m = rw ((==_iff a a).1 refl) refl

  pub other_entry :
      (key : ℕ) (x : NodeHandle Net) (m : ℕ → Option (NodeHandle Net))
      → key ≢ a
      → with_entry key x m a ≡ m a
  other_entry key x m other =
      let differ : a == key ≡ false = ground (arith, other) in rw differ refl

  beat_node-own :
      (now losses : ℕ) (group : GroupHandle Net)
      → suc losses < 2 ^ 64
      → IsLosing losses group
      → IsLosing (suc losses) (beat_node limit now a (group.mapping a) group).1
  beat_node-own now losses group b h = record {
    handle = record h.handle { udp = round limit now h.handle.udp };
    here =
        ap (λ o. (beat_node limit now a o group).1.mapping a) h.here
        ∙ own_entry (beat_to limit now h.handle h.handle.node.wan_udp_addr).1 group.mapping
        ∙ ap (λ w. some (beat_to limit now h.handle w).1) h.has_wan;
    wan = h.wan;
    has_wan = h.has_wan;
    waiting = round-IsWaiting limit losses now h.handle.udp b h.waiting;
    lapsed = λ le. round-lapses limit now losses h.handle.udp b le h.waiting;
  }

  pub beat-IsLosing :
      (now losses : ℕ) (keys : List ℕ) (group : GroupHandle Net)
      → suc losses < 2 ^ 64
      → occurs a keys ≡ 1
      → IsLosing losses group
      → IsLosing (suc losses) (beat limit now keys group).1
  unfolding beat
  beat-IsLosing now losses [] group b o h = absurd (ground (arith, o))
  beat-IsLosing now losses (key ∷ keys) group b o h = elim (ℕ_discrete key a) [
    | yes own ↦
        subst
          (λ k.
            IsLosing (suc losses)
              (beat limit now keys (beat_node limit now k (group.mapping k) group).1).1)
          (sym own)
          (same_entry (beat_node limit now a (group.mapping a) group).1 _
            (beat-other now keys (beat_node limit now a (group.mapping a) group).1
              (ground (arith, o, own)))
            (beat_node-own now losses group b h))
    | no other ↦
        let next = (beat_node limit now key (group.mapping key) group).1 in
        beat-IsLosing now losses keys next b (ground (arith, o, other))
          (same_entry group next (beat_node-other now key (group.mapping key) group other) h)
  ]

  -- A handle of the node with the same path, and an address.
  pub same_path :
      {losses : ℕ} (g g' : GroupHandle Net) (h : IsLosing losses g) (handle : NodeHandle Net)
      (wan : SocketAddr)
      → g'.mapping a ≡ some handle
      → handle.node.wan_udp_addr ≡ some wan
      → handle.udp ≡ h.handle.udp
      → IsLosing losses g'
  same_path {losses = losses} g g' h handle wan here has_wan same = record {
    handle = handle;
    here = here;
    wan = wan;
    has_wan = has_wan;
    waiting = subst (λ p. IsWaiting losses p) (sym same) h.waiting;
    lapsed = λ le. ap (λ p. p.status) same ∙ h.lapsed le;
  }
