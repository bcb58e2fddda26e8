-- ===== src/Config/Sound.antt =====
-- What every configuration has that `NodeConfigFinalize::try_from` (src/lib.rs) accepts, for the
-- start of its groups.
use fubuki_test.Base.{
  ℕ, ◌≡◌, refl, subst, false, Bool-cases, not, inl, inr, Option, none, some, List, [], ◌∷◌, All,
  length, if◌then◌else◌, ok, ok_or, ensure, step-inv, ensure-inv, ok-inv, arith,
}
use fubuki_test.Cipher.Laws.{HasKey, xor_from-HasKey}
use fubuki_test.Protocol.{ProtocolMode, default_mode, contains, is_use_udp, tcp}
use fubuki_test.Config.{
  System, TargetGroup, TargetGroupFinalize, NodeConfig, NodeConfigFinalize, Uses, unwrap_or,
  cipher_from, lan_addr, name_for, group_finalize, finalize_group, finalize_groups, bind_device,
  try_from, only_udp, lookup_failed, loopback,
}
use fubuki_test.Config.Accepted.{is_some}

-- What the start of a group relies on: no TCP between nodes, an address in the local network exactly
-- for UDP, and a whole key.
pub record IsSound {Net Addr : Type 0} (group : TargetGroupFinalize Net Addr) : Type 0 where
  pub no_tcp : contains group.mode.p2p tcp ≡ false
  pub has_addr : is_some group.lan_ip_addr ≡ is_use_udp group.mode
  pub has_key : HasKey group.key

module _ {Net Addr : Type 0} (os : System Net Addr)
    (whole : (bytes : List ℕ) → length (os.hash bytes) ≡ 32) where
  cipher_from-HasKey : (o : Option (List ℕ)) → HasKey (cipher_from os.hash o)
  cipher_from-HasKey none = tt
  cipher_from-HasKey (some k) = xor_from-HasKey os.hash k (whole k)

  lan_for_udp :
      (mode : ProtocolMode) (lan : Addr)
      → is_some (if is_use_udp mode then some lan else none) ≡ is_use_udp mode
  lan_for_udp mode lan = elim (Bool-cases (is_use_udp mode)) [
    | inl u ↦ rw u refl
    | inr n ↦ rw n refl
  ]

  group_finalize-IsSound :
      (group : TargetGroup Net Addr) (mode : ProtocolMode) (lan : Addr) (name : List ℕ)
      → contains mode.p2p tcp ≡ false
      → IsSound (group_finalize os group mode lan name)
  group_finalize-IsSound group mode lan name h = record {
    no_tcp = h;
    has_addr = lan_for_udp mode lan;
    has_key = cipher_from-HasKey group.key;
  }

  finalize_group-IsSound :
      (group : TargetGroup Net Addr) (r : TargetGroupFinalize Net Addr × Uses)
      → finalize_group os group ≡ ok r
      → IsSound r.0
  unfolding finalize_group
  finalize_group-IsSound group r h =
      let mode = unwrap_or group.mode default_mode in
      let (u1, e1, h1) = step-inv (ensure (not (contains mode.p2p tcp)) only_udp) _ r h in
      let (server, e2, h2) = step-inv (ok_or (os.resolve group.server_addr) lookup_failed) _ r h1 in
      let (lan, e3, h3) = step-inv (lan_addr os server group.lan_ip_addr) _ r h2 in
      let (name, e4, h4) = step-inv (name_for os group.node_name) _ r h3 in
      let (u5, e5, h5) = step-inv (ensure (not (os.is_loopback server)) loopback) _ r h4 in
      let no_tcp : contains mode.p2p tcp ≡ false =
        ground (arith, ensure-inv (not (contains mode.p2p tcp)) only_udp u1 e1) in
      subst (λ x. IsSound x.0) (ok-inv r _ r h5) (group_finalize-IsSound group mode lan name no_tcp)

  finalize_groups-IsSound :
      (groups : List (TargetGroup Net Addr)) (r : List (TargetGroupFinalize Net Addr) × Uses)
      → finalize_groups os groups ≡ ok r
      → All IsSound r.0
  unfolding finalize_groups
  finalize_groups-IsSound [] r h = subst (λ x. All IsSound x.0) (ok-inv r _ r h) tt
  finalize_groups-IsSound (group ∷ groups) r h =
      let (one, e1, h1) = step-inv (finalize_group os group) _ r h in
      let (rest, e2, h2) = step-inv (finalize_groups os groups) _ r h1 in
      subst (λ x. All IsSound x.0) (ok-inv r _ r h2)
        (finalize_group-IsSound group one e1, finalize_groups-IsSound groups rest e2)

  -- With hashes of 32 bytes, every group of an accepted configuration uses no TCP between nodes, has
  -- a local address exactly if it uses UDP, and has a whole key.
  pub try_from-IsSound :
      (config : NodeConfig Net Addr) (c : NodeConfigFinalize Net Addr)
      → try_from os config ≡ ok c
      → All IsSound c.groups
  unfolding try_from
  try_from-IsSound config c h =
      let (groups, e1, h1) = step-inv (finalize_groups os config.groups) _ c h in
      let (device, e2, h2) =
        step-inv (bind_device os groups.1.use_gateway config.socket_bind_device) _ c h1 in
      subst (λ x. All IsSound x.groups) (ok-inv c _ c h2)
        (finalize_groups-IsSound config.groups groups e1)
