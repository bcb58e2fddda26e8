-- ===== src/Nodes/NativeNat.antt =====
-- The system's NAT for the networks behind a node: the commands of src/nat/linux.rs, and when
-- `tcp_handler` of src/node/mod.rs gives them. The program iptables is a list of rules, to whose end
-- `-A` appends and from which `-D` deletes the first rule that is given, or fails.
-- Of `update_tun_addr` only what it does to the interface is taken, and whether the TUN device accepts
-- it (Nodes.Ranges has the rest).
pub mod Counts
pub mod Cleanup
use fubuki_test.Base.{
  ℕ, Bool, true, false, ◌&&◌, not, Option, none, some, List, [], ◌∷◌, ◌++◌, map, if◌then◌else◌,
  Outcome, ok, err, panic, ensure, ok_or, ◌>>=◌, ◌>>◌,
}
use fubuki_test.Ipnet.{IpNet}
use fubuki_test.Nodes.{Interface}
use fubuki_test.Nodes.Ranges.{TunCall, move_tun}

-- `-j MASQUERADE -d dst -s src`
pub record Rule (Net : Type 0) : Type 0 where
  pub dst : Net
  pub src : Net

pub data NatError : Type 0 where
  not_enabled not_added not_removed not_moved : NatError

abbrev pub Rules : Type 0 → Type 0
Rules Net = List (Rule Net)

abbrev pub is_empty : {A : Type 0} → List A → Bool
is_empty [] = true
is_empty (x ∷ xs) = false

-- Whether sysctl succeeds, which rules iptables takes, and what the TUN device accepts.
pub record Commands (Net : Type 0) : Type 0 where
  pub enables : Bool
  pub takes : Rule Net → Bool
  pub accepts : TunCall Net → Bool

module _ {Net : Type 0} (ip : IpNet Net) where
  abbrev pub same_rule : Rule Net → Rule Net → Bool
  same_rule a b = ip.same a.dst b.dst && ip.same a.src b.src

  -- `-D`
  unfoldable pub delete_rule : Rule Net → Rules Net → Option (Rules Net)
  delete_rule r [] = none
  delete_rule r (x ∷ xs) =
      if same_rule r x
      then some xs
      else elim (delete_rule r xs) [ none ↦ none | some ys ↦ some (x ∷ ys) ]

  -- The loop of `add_nat`.
  abbrev pub append_rules :
      Commands Net → (ranges : List Net) (src : Net) → Rules Net → Outcome NatError (Rules Net)
  append_rules commands [] src rules = ok rules
  append_rules commands (dst ∷ ranges) src rules =
      let r : Rule Net = record { dst = dst; src = src } in
      ensure (commands.takes r) not_added >> append_rules commands ranges src (rules ++ (r ∷ []))

  unfoldable pub add_nat :
      Commands Net → (ranges : List Net) (src : Net) → Rules Net → Outcome NatError (Rules Net)
  add_nat commands ranges src rules =
      ensure commands.enables not_enabled >> append_rules commands ranges src rules

  -- The rules that are left, and whether a command failed.
  unfoldable pub del_nat : (ranges : List Net) (src : Net) → Rules Net → Bool × Rules Net
  del_nat [] src rules = (true, rules)
  del_nat (dst ∷ ranges) src rules = elim (delete_rule (record { dst = dst; src = src }) rules) [
    | none ↦ (false, rules)
    | some rest ↦ del_nat ranges src rest
  ]

  -- `is_add_nat`, the interface and the system's rules.
  pub record NatState : Type 0 where
    pub is_add_nat : Bool
    pub interface : Interface Net
    pub rules : Rules Net

  -- `update_tun_addr(..)?`
  abbrev pub move_to :
      Commands Net
      → (old_addr addr : ℕ) (old_cidr cidr : Net) → NatState
      → Outcome NatError NatState
  move_to commands old_addr addr old_cidr cidr s =
      let moved = move_tun ip commands.accepts old_addr addr old_cidr cidr s.interface in
      ensure moved.0 not_moved >> ok (record s { interface = moved.1 })

  module _ (commands : Commands Net) (native_nat : Bool) (allowed_ips : List Net) where
    abbrev pub wanted : Bool
    wanted = not (is_empty allowed_ips) && native_nat

    -- `add_nat(..)?; is_add_nat.store(true)`
    abbrev pub put_nat : (cidr : Net) → NatState → Outcome NatError NatState
    put_nat cidr s = add_nat commands allowed_ips cidr s.rules >>= λ rules.
        ok (record s { is_add_nat = true; rules = rules })

    abbrev pub removed : NatState → Bool × Rules Net → Outcome NatError NatState
    removed s (true, rules) = ok (record s { is_add_nat = false; rules = rules })
    removed s (false, rules) = err not_removed

    -- For the address of the configuration.
    unfoldable pub begin_manual :
        (default_net : Net) (addr : ℕ) (cidr : Net) → NatState → Outcome NatError NatState
    begin_manual default_net addr cidr s = move_to commands 0 addr default_net cidr s >>= λ moved.
        if wanted then put_nat cidr moved else ok moved

    abbrev pub remove_old : (old_cidr cidr : Net) → NatState → Outcome NatError NatState
    remove_old old_cidr cidr s =
        if not (ip.same old_cidr cidr) && s.is_add_nat
        then removed s (del_nat allowed_ips old_cidr s.rules)
        else ok s

    abbrev pub put_new : (cidr : Net) → NatState → Outcome NatError NatState
    put_new cidr s = if not s.is_add_nat then put_nat cidr s else ok s

    -- The closure `f`, which follows a new address of the node.
    unfoldable pub refresh : (addr : ℕ) (cidr : Net) → NatState → Outcome NatError NatState
    refresh addr cidr s =
        let old_cidr = s.interface.cidr in
        move_to commands s.interface.addr addr old_cidr cidr s >>= λ moved.
        if wanted then (remove_old old_cidr cidr moved >>= λ s'. put_new cidr s') else ok moved

    -- What `defer` does at the end.
    unfoldable pub clear : NatState → Bool × Rules Net
    clear s =
        if s.is_add_nat && native_nat
        then del_nat allowed_ips s.interface.cidr s.rules
        else (true, s.rules)
