-- ===== src/Config/Accepted.antt =====
-- What holds of a node's configuration that `NodeConfigFinalize::try_from` (src/lib.rs) accepts.
use fubuki_test.Base.{
  ℕ, ◌+◌, ◌≤◌, ◌≡◌, Bool, true, false, ◌||◌, not, ◌⊎◌, Option, none, some, List, [], ◌∷◌, All,
  if◌then◌else◌,
}
use fubuki_test.Protocol.{default_mode, contains, is_use_udp, tcp}
use fubuki_test.Config.{System, TargetGroup, TargetGroupFinalize, Uses, unwrap_or}

abbrev pub is_some : {A : Type 0} → Option A → Bool
is_some none = false
is_some (some a) = true

module _ {Net Addr : Type 0} (os : System Net Addr) where
  -- The address in the local network is allowed, or there is one to the server.
  abbrev pub HasLan : (server : Addr) → Option Addr → Type 0
  HasLan server none = (a : Addr) × (os.get_interface_addr server ≡ some a)
  HasLan server (some a) = (os.is_loopback a ≡ false) × (os.is_unspecified a ≡ false)

  abbrev pub HasName : Option (List ℕ) → Type 0
  HasName none = (n : List ℕ) × (os.gethostname ≡ some n)
  HasName (some n) = Unit

  pub record IsAcceptable (group : TargetGroup Net Addr) : Type 0 where
    pub only_udp : contains (unwrap_or group.mode default_mode).p2p tcp ≡ false
    pub server : Addr
    pub resolves : os.resolve group.server_addr ≡ some server
    pub is_remote : os.is_loopback server ≡ false
    pub has_lan : HasLan server group.lan_ip_addr
    pub has_name : HasName group.node_name

  abbrev pub HasDevice : Option (List ℕ) → Type 0
  HasDevice (some d) = Unit
  HasDevice none = (d : List ℕ) × (os.gateway_device ≡ some d)

  -- What is put before a packet over Ethernet with SNAP, VLAN and PPPoE: an IP header, one of UDP, and
  -- that of a message with the address of a relay.
  abbrev pub overhead : Addr → ℕ
  overhead lan = 8 + 4 + 8 + (if os.is_ipv6 lan then 40 else 20) + 8 + 4 + 4

  -- A packet as long as the MTU fits a frame of 1500 bytes.
  abbrev pub FitsFrame : (mtu : ℕ) → Option Addr → Type 0
  FitsFrame mtu none = mtu ≤ 1500
  FitsFrame mtu (some lan) = mtu + overhead lan ≤ 1500

  abbrev pub FitsMtu : (given : Option ℕ) (mtu : ℕ) → Option Addr → Type 0
  FitsMtu (some m) mtu lan = mtu ≡ m
  FitsMtu none mtu lan = FitsFrame mtu lan

  -- A group has a local address with this property.
  abbrev pub HasLocal : (Addr → Type 0) → TargetGroupFinalize Net Addr → Type 0
  HasLocal P g = (lan : Addr) × (g.lan_ip_addr ≡ some lan) × P lan

  abbrev pub SomeLocal : (Addr → Type 0) → List (TargetGroupFinalize Net Addr) → Type 0
  SomeLocal P [] = ⊥
  SomeLocal P (g ∷ gs) = HasLocal P g ⊎ SomeLocal P gs

  -- The MTU is the given one, or as large as it can be: 1500 if no group uses UDP, and otherwise one
  -- with which the packets of a group fill 1500 bytes.
  abbrev pub IsLargest : (given : Option ℕ) (mtu : ℕ) → List (TargetGroupFinalize Net Addr) → Type 0
  IsLargest (some m) mtu gs = mtu ≡ m
  IsLargest none mtu gs =
      ((mtu ≡ 1500) × All (λ g. is_some g.lan_ip_addr ≡ false) gs)
      ⊎ SomeLocal (λ lan. mtu + overhead lan ≡ 1500) gs

  -- A group has a local address exactly if it uses UDP, and then its packets fit.
  pub record IsReady (given : Option ℕ) (mtu : ℕ) (g : TargetGroupFinalize Net Addr) : Type 0 where
    pub has_addr : is_some g.lan_ip_addr ≡ is_use_udp g.mode
    pub fits : FitsMtu given mtu g.lan_ip_addr

  -- What a group adds to the flags.
  abbrev Counted : Uses → Option Addr → Type 0
  Counted uses none = Unit
  Counted uses (some lan) = (uses.use_udp ≡ true) × ((not (os.is_ipv6 lan) || uses.use_ipv6) ≡ true)

  record IsPrepared (uses : Uses) (g : TargetGroupFinalize Net Addr) : Type 0 where
    has_addr : is_some g.lan_ip_addr ≡ is_use_udp g.mode
    counted : Counted uses g.lan_ip_addr

  -- The flags are set by a group with an address in the local network.
  abbrev Shown : Uses → ((Addr → Type 0) → Type 0) → Type 0
  Shown uses There =
      (uses.use_udp ≡ true → There (λ lan. Unit))
      × (uses.use_ipv6 ≡ true → There (λ lan. os.is_ipv6 lan ≡ true))
