-- ===== src/Nodes/Schedule/Targets.antt =====
-- Where the heartbeat schedule of `udp_handler` (src/node/mod.rs) looks for a node.
use fubuki_test.Base.{
  ℕ, ◌≡◌, ◌≤◌, ◌<◌, refl, sym, ap, ap₂, ◌∙◌, subst, map, leb, Bool, true, false, Bool-cases, ◌&&◌,
  ◌||◌, not, ◌⊎◌, inl, inr, Option, none, some, List, [], ◌∷◌, ◌++◌, All, if◌then◌else◌, arith,
}
use fubuki_test.Heartbeat as Heartbeat
use fubuki_test.Heartbeat.{UdpStatus, available, unavailable, is_available, ping, HeartbeatCache}
use fubuki_test.Protocol.{SocketAddr, contains, udp}
use fubuki_test.Nodes.{ExtendedNode}
use fubuki_test.Nodes.Receiving.{UdpConfig, same_addr}
use fubuki_test.Nodes.Schedule.{
  Beat, send_to, other_addr, search_addrs, targets, beats_to, is_over, judged, turn, node_turn,
}

-- No address stands twice.
abbrev pub IsDistinct : List SocketAddr → Type 0
IsDistinct [] = Unit
IsDistinct (a ∷ l) = All (λ b. same_addr a b ≡ false) l × IsDistinct l

All-append :
    (P : SocketAddr → Type 0) (xs ys : List SocketAddr) → All P xs → All P ys → All P (xs ++ ys)
All-append P [] ys ps qs = qs
All-append P (x ∷ xs) ys (p, ps) qs = (p, All-append P xs ys ps qs)

-- Whether an address stands in a list.
abbrev pub has_addr : SocketAddr → List SocketAddr → Bool
has_addr a [] = false
has_addr a (b ∷ l) = same_addr a b || has_addr a l

has_addr-append :
    (a : SocketAddr) (xs ys : List SocketAddr)
    → has_addr a (xs ++ ys) ≡ (has_addr a xs || has_addr a ys)
has_addr-append a [] ys = refl
has_addr-append a (x ∷ xs) ys = ground (arith, has_addr-append a xs ys)

same_addr_refl : (a : SocketAddr) → same_addr a a ≡ true
same_addr_refl a = ground arith

same_addr-eq : (a b : SocketAddr) → same_addr a b ≡ true → a ≡ b
same_addr-eq a b h =
    let i : a.ip ≡ b.ip = ground (arith, h) in
    let p : a.port ≡ b.port = ground (arith, h) in ap₂ (λ x y. record { ip = x; port = y }) i p

-- None or this one.
abbrev IsAtMost : SocketAddr → List SocketAddr → Type 0
IsAtMost a k = (k ≡ []) ⊎ (k ≡ a ∷ [])

front-IsDistinct :
    (a : SocketAddr) (k l : List SocketAddr)
    → IsAtMost a k
    → All (λ b. same_addr a b ≡ false) l
    → IsDistinct l
    → IsDistinct (k ++ l)
front-IsDistinct a k l (inl e) others d = rw e d
front-IsDistinct a k l (inr e) others d = rw e (others, d)

single-IsDistinct : (a : SocketAddr) (k : List SocketAddr) → IsAtMost a k → IsDistinct k
single-IsDistinct a k (inl e) = rw e tt
single-IsDistinct a k (inr e) = rw e (tt, tt)

module _ (config : UdpConfig) (through : SocketAddr → Bool) (now : ℕ) where
  -- The way to the address may be used.
  abbrev pub IsWay : SocketAddr → Type 0
  IsWay a = (config.has_bind_device || not (through a)) ≡ true

  send_to-IsAtMost : (a : SocketAddr) → IsAtMost a (send_to config through now a)
  send_to-IsAtMost a = elim (Bool-cases (config.has_bind_device || not (through a))) [
    | inl way ↦ rw way (inr refl)
    | inr none_there ↦ rw none_there (inl refl)
  ]

  send_to-has : (a : SocketAddr) → IsWay a → has_addr a (send_to config through now a) ≡ true
  send_to-has a way = rw way (rw (same_addr_refl a) refl)

  send_to-All :
      (P : SocketAddr → Type 0) (a : SocketAddr) → P a → All P (send_to config through now a)
  send_to-All P a p = elim (send_to-IsAtMost a) [ inl e ↦ rw e tt | inr e ↦ rw e (p, tt) ]

  module _ (lan wan : SocketAddr) where
    abbrev own_addrs : List SocketAddr
    own_addrs =
        if same_addr wan lan
        then send_to config through now wan
        else send_to config through now lan ++ send_to config through now wan

    own_addrs-IsDistinct : IsDistinct own_addrs
    own_addrs-IsDistinct = elim (Bool-cases (same_addr wan lan)) [
      | inl same ↦ rw same (single-IsDistinct wan _ (send_to-IsAtMost wan))
      | inr differ ↦
          let flipped : same_addr lan wan ≡ false = ground (arith, differ) in
          rw differ (
            front-IsDistinct lan _ _ (send_to-IsAtMost lan)
              (send_to-All (λ b. same_addr lan b ≡ false) wan flipped)
              (single-IsDistinct wan _ (send_to-IsAtMost wan)))
    ]

    own_addrs-All :
        (P : SocketAddr → Type 0)
        → All P (send_to config through now lan)
        → All P (send_to config through now wan)
        → All P own_addrs
    own_addrs-All P l w = elim (Bool-cases (same_addr wan lan)) [
      | inl same ↦ rw same w
      | inr differ ↦ rw differ (All-append P _ _ l w)
    ]

    search_addrs-IsDistinct :
        (peer_addr : Option SocketAddr)
        → IsDistinct (search_addrs config through now lan wan peer_addr)
    unfolding search_addrs
    search_addrs-IsDistinct none = own_addrs-IsDistinct
    search_addrs-IsDistinct (some a) =
        elim (Bool-cases (not (same_addr a lan) && not (same_addr a wan))) [
          | inl other ↦ rw other (
              front-IsDistinct a _ _ (send_to-IsAtMost a)
                (own_addrs-All (λ b. same_addr a b ≡ false)
                  (send_to-All (λ b. same_addr a b ≡ false) lan (ground (arith, other)))
                  (send_to-All (λ b. same_addr a b ≡ false) wan (ground (arith, other))))
                own_addrs-IsDistinct)
          | inr known ↦ rw known own_addrs-IsDistinct
        ]

    module _ (peer_addr : Option SocketAddr) where
      -- An address at which the node may be.
      abbrev pub IsCandidate : SocketAddr → Type 0
      IsCandidate a = (a ≡ lan) ⊎ (a ≡ wan) ⊎ (peer_addr ≡ some a)

      abbrev IsFit : SocketAddr → Type 0
      IsFit a = IsWay a × IsCandidate a

      send_to-IsFit : (a : SocketAddr) → IsCandidate a → All IsFit (send_to config through now a)
      send_to-IsFit a c = elim (Bool-cases (config.has_bind_device || not (through a))) [
        | inl way ↦ rw way ((way, c), tt)
        | inr none_there ↦ rw none_there tt
      ]

      own_addrs-IsFit : All IsFit own_addrs
      own_addrs-IsFit =
          own_addrs-All IsFit (send_to-IsFit lan (inl refl)) (send_to-IsFit wan (inr (inl refl)))

      other_addr-IsFit :
          (o : Option SocketAddr)
          → peer_addr ≡ o
          → All IsFit (other_addr config through now lan wan o)
      other_addr-IsFit none e = tt
      other_addr-IsFit (some a) e =
          elim (Bool-cases (not (same_addr a lan) && not (same_addr a wan))) [
            | inl other ↦ rw other (send_to-IsFit a (inr (inr e)))
            | inr known ↦ rw known tt
          ]

      search_addrs-All : All IsFit (search_addrs config through now lan wan peer_addr)
      unfolding search_addrs
      search_addrs-All = All-append IsFit _ _ (other_addr-IsFit peer_addr refl) own_addrs-IsFit

    own_addrs-has : (a : SocketAddr) → (a ≡ lan) ⊎ (a ≡ wan) → IsWay a → has_addr a own_addrs ≡ true
    own_addrs-has a h way = elim (Bool-cases (same_addr wan lan)) [
      | inl same ↦
          let e = same_addr-eq wan lan same in
          let at : a ≡ wan = elim h [ inl f ↦ f ∙ sym e | inr f ↦ f ] in
          rw same
            (subst (λ w. has_addr a (send_to config through now w) ≡ true) at (send_to-has a way))
      | inr differ ↦ rw differ (
          has_addr-append a (send_to config through now lan) (send_to config through now wan)
          ∙ elim h [
            | inl f ↦
                let there : has_addr a (send_to config through now lan) ≡ true =
                  subst (λ w. has_addr a (send_to config through now w) ≡ true) f
                    (send_to-has a way) in
                ground (arith, there)
            | inr f ↦
                let there : has_addr a (send_to config through now wan) ≡ true =
                  subst (λ w. has_addr a (send_to config through now w) ≡ true) f
                    (send_to-has a way) in
                ground (arith, there)
          ])
    ]

    -- The address it was last heard from is there, as one of its own or before them.
    peer-has :
        (a : SocketAddr)
        → IsWay a
        → (has_addr a (other_addr config through now lan wan (some a)) || has_addr a own_addrs)
          ≡ true
    peer-has a way = elim (Bool-cases (same_addr a lan)) [
      | inl first ↦
          let there = own_addrs-has a (inl (same_addr-eq a lan first)) way in ground (arith, there)
      | inr not_first ↦ elim (Bool-cases (same_addr a wan)) [
        | inl second ↦
            let there = own_addrs-has a (inr (same_addr-eq a wan second)) way in
            ground (arith, there)
        | inr not_second ↦
            let there = send_to-has a way in rw (not_first, not_second) (ground (arith, there))
      ]
    ]

    search_addrs-has :
        (peer_addr : Option SocketAddr) (a : SocketAddr)
        → IsCandidate peer_addr a
        → IsWay a
        → has_addr a (search_addrs config through now lan wan peer_addr) ≡ true
    unfolding search_addrs
    search_addrs-has peer_addr a c way =
        has_addr-append a (other_addr config through now lan wan peer_addr) own_addrs ∙ elim c [
          | inl e ↦ let there = own_addrs-has a (inl e) way in ground (arith, there)
          | inr (inl e) ↦ let there = own_addrs-has a (inr e) way in ground (arith, there)
          | inr (inr e) ↦
              subst
                (λ o.
                  (has_addr a (other_addr config through now lan wan o) || has_addr a own_addrs)
                  ≡ true)
                (sym e) (peer-has a way)
        ]

  -- The turn's addresses: that of the path, or those of a search, which are the node's two addresses
  -- and the one that it was last heard from, each once and as far as the way there may be used.
  pub data IsSought (status : UdpStatus SocketAddr) (over : Bool) (lan wan : SocketAddr)
      (peer_addr : Option SocketAddr) : List SocketAddr → Type 0 where
    on_path :
        {a : SocketAddr}
        → status ≡ available a
        → over ≡ false
        → IsSought status over lan wan peer_addr (a ∷ [])
    searched :
        {tos : List SocketAddr}
        → (over || not (is_available status)) ≡ true
        → IsDistinct tos
        → All (λ a. IsWay a × IsCandidate lan wan peer_addr a) tos
        → ((a : SocketAddr) → IsCandidate lan wan peer_addr a → IsWay a → has_addr a tos ≡ true)
        → IsSought status over lan wan peer_addr tos

  search-IsSought :
      (over : Bool) (lan wan : SocketAddr) (peer_addr : Option SocketAddr)
      (status : UdpStatus SocketAddr)
      → (over || not (is_available status)) ≡ true
      → IsSought status over lan wan peer_addr (search_addrs config through now lan wan peer_addr)
  search-IsSought over lan wan peer_addr status h =
      searched h (search_addrs-IsDistinct lan wan peer_addr) (search_addrs-All lan wan peer_addr)
        (search_addrs-has lan wan peer_addr)

  targets-IsSought :
      (over : Bool) (lan wan : SocketAddr) (peer_addr : Option SocketAddr)
      (status : UdpStatus SocketAddr)
      → IsSought status over lan wan peer_addr
          (targets config through now over lan wan peer_addr status)
  targets-IsSought false lan wan peer_addr (available a) = on_path refl refl
  targets-IsSought true lan wan peer_addr (available a) =
      search-IsSought true lan wan peer_addr (available a) refl
  targets-IsSought false lan wan peer_addr unavailable =
      search-IsSought false lan wan peer_addr unavailable refl
  targets-IsSought true lan wan peer_addr unavailable =
      search-IsSought true lan wan peer_addr unavailable refl

  -- What becomes of the path: it is lost exactly if too many heartbeats in a row were.
  pub data IsJudged (losses : ℕ) (before : UdpStatus SocketAddr)
      : UdpStatus SocketAddr → Type 0 where
    lost : config.udp_heartbeat_continuous_loss ≤ losses → IsJudged losses before unavailable
    kept : losses < config.udp_heartbeat_continuous_loss → IsJudged losses before before

  judged-IsJudged :
      (hc : HeartbeatCache) (status : UdpStatus SocketAddr)
      → IsJudged hc.packet_continuous_loss_count status (judged config through now hc status)
  judged-IsJudged hc unavailable =
      elim (Bool-cases (leb config.udp_heartbeat_continuous_loss hc.packet_continuous_loss_count)) [
        | inl over ↦ rw over (lost (ground (arith, over)))
        | inr fine ↦ rw fine (kept (ground (arith, fine)))
      ]
  judged-IsJudged hc (available a) =
      elim (Bool-cases (leb config.udp_heartbeat_continuous_loss hc.packet_continuous_loss_count)) [
        | inl over ↦ rw over (lost (ground (arith, over)))
        | inr fine ↦ rw fine (kept (ground (arith, fine)))
      ]

  beats_to-map :
      (seq : ℕ) (tos : List SocketAddr)
      → beats_to config through now seq tos ≡ map (λ to. record { to = to; seq = seq }) tos
  beats_to-map seq [] = refl
  beats_to-map seq (to ∷ tos) = ap (λ l. record { to = to; seq = seq } ∷ l) (beats_to-map seq tos)

  -- What a pass does with a node.
  pub data IsTurn {Net : Type 0} (node : ExtendedNode Net)
      : ExtendedNode Net × List Beat → Type 0 where
    left_out : contains node.node.mode.p2p udp ≡ false → IsTurn node (node, [])
    only_judged :
        {status : UdpStatus SocketAddr}
        → contains node.node.mode.p2p udp ≡ true
        → (node.node.lan_udp_addr ≡ none) ⊎ (node.node.wan_udp_addr ≡ none)
        → IsJudged (Heartbeat.check node.hc).packet_continuous_loss_count node.udp_status status
        → IsTurn node (record node { udp_status = status; hc = Heartbeat.check node.hc }, [])
    pinged :
        {status : UdpStatus SocketAddr} {lan wan : SocketAddr} {tos : List SocketAddr}
        → contains node.node.mode.p2p udp ≡ true
        → node.node.lan_udp_addr ≡ some lan
        → node.node.wan_udp_addr ≡ some wan
        → IsJudged (Heartbeat.check node.hc).packet_continuous_loss_count node.udp_status status
        → IsSought node.udp_status
            (leb config.udp_heartbeat_continuous_loss
              (Heartbeat.check node.hc).packet_continuous_loss_count)
            lan
            wan
            node.peer_addr
            tos
        → IsTurn node (
          record node { udp_status = status; hc = ping now (Heartbeat.check node.hc) },
          map (λ to. record { to = to; seq = (ping now (Heartbeat.check node.hc)).seq }) tos,
        )

  turn-IsTurn :
      {Net : Type 0} (node : ExtendedNode Net) (lan wan : Option SocketAddr)
      → contains node.node.mode.p2p udp ≡ true
      → node.node.lan_udp_addr ≡ lan
      → node.node.wan_udp_addr ≡ wan
      → IsTurn node (turn config through now (Heartbeat.check node.hc) node lan wan)
  turn-IsTurn node (some lan) (some wan) u e f =
      rw
        (beats_to-map (ping now (Heartbeat.check node.hc)).seq (
          targets config through now (is_over config through now (Heartbeat.check node.hc)) lan wan
            node.peer_addr node.udp_status))
        (pinged u e f (judged-IsJudged (Heartbeat.check node.hc) node.udp_status) (
          targets-IsSought (is_over config through now (Heartbeat.check node.hc)) lan wan
            node.peer_addr node.udp_status))
  turn-IsTurn node none wan u e f =
      only_judged u (inl e) (judged-IsJudged (Heartbeat.check node.hc) node.udp_status)
  turn-IsTurn node (some lan) none u e f =
      only_judged u (inr f) (judged-IsJudged (Heartbeat.check node.hc) node.udp_status)

  -- In a pass of the heartbeat schedule, a node with which packets may be exchanged directly loses
  -- its path exactly if it lost the configured number of heartbeats in a row, its last one included,
  -- and is sent heartbeats with one new sequence number: one to the address of its path, if it had
  -- one that is not lost, or else one to each of its two addresses and the one it was last heard
  -- from, none twice, and none where the way lies through the node's own network, unless a
  -- device to bind to is given; or none, if either of its two addresses is unknown. Another node stays as it is and is sent none.
  pub node_turn-IsTurn :
      {Net : Type 0} (node : ExtendedNode Net) → IsTurn node (node_turn config through now node)
  unfolding node_turn
  node_turn-IsTurn node = elim (Bool-cases (contains node.node.mode.p2p udp)) [
    | inl p2p ↦
        rw p2p (turn-IsTurn node node.node.lan_udp_addr node.node.wan_udp_addr p2p refl refl)
    | inr alone ↦ rw alone (left_out alone)
  ]
