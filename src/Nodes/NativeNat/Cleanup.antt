-- ===== src/Nodes/NativeNat/Cleanup.antt =====
-- The rules of iptables over the life of `tcp_handler` (src/node/mod.rs).
use fubuki_test.Base.{
  ℕ, ◌+◌, ◌≡◌, refl, sym, ap, ◌∙◌, subst, inl, inr, Bool, true, false, Bool-cases, ◌&&◌, List, ok,
  ok-inv, ◌>>=◌, arith,
}
use fubuki_test.Ipnet.{IpNet, IsIpNet}
use fubuki_test.Nodes.{Interface}
use fubuki_test.Nodes.NativeNat.{
  Rule, Rules, add_nat, NatState, wanted, put_nat, begin_manual, remove_old, put_new, refresh,
  clear,
}
use fubuki_test.Nodes.NativeNat.Counts.{
  count, SameRules, added, rules_for, append_rules-count, working, del_nat-count, move_to-returns,
}

module _ {Net : Type 0} (ip : IpNet Net) (native_nat : Bool) (allowed_ips : List Net)
    (default_net : Net) (before : Rules Net) where
  -- The states of the handler, while sysctl, `iptables -A` and the calls of the TUN device
  -- succeed: it begins with an address that the server
  -- chooses or one of the configuration, and follows any new addresses.
  pub data Life : NatState ip → Type 0 where
    begun_auto :
        (interface : Interface Net)
        → Life (record { is_add_nat = false; interface = interface; rules = before })
    begun_manual :
        {s : NatState ip} (interface : Interface Net) (addr : ℕ) (cidr : Net)
        → interface.cidr ≡ default_net
        → begin_manual ip working native_nat allowed_ips default_net addr cidr
            (record { is_add_nat = false; interface = interface; rules = before })
          ≡ ok s
        → Life s
    refreshed :
        {s s' : NatState ip} (addr : ℕ) (cidr : Net)
        → Life s
        → refresh ip working native_nat allowed_ips addr cidr s ≡ ok s'
        → Life s'

  record Holds (s : NatState ip) : Type 0 where
    counted :
        (q : Rule Net)
        → count ip q s.rules
          ≡ added ip allowed_ips s.is_add_nat s.interface.cidr q + count ip q before
    only_wanted : s.is_add_nat ≡ true → wanted ip working native_nat allowed_ips ≡ true

module _ {Net : Type 0} {ip : IpNet Net} (laws : IsIpNet ip) (native_nat : Bool)
    (allowed_ips : List Net) (default_net : Net) (before : Rules Net) where
  abbrev Kept : NatState ip → Type 0
  Kept s = Holds ip native_nat allowed_ips default_net before s

  put_nat-Holds :
      (cidr : Net) (s : NatState ip)
      → wanted ip working native_nat allowed_ips ≡ true
      → s.interface.cidr ≡ cidr
      → ((q : Rule Net) → count ip q s.rules ≡ count ip q before)
      → (s' : NatState ip) × (put_nat ip working native_nat allowed_ips cidr s ≡ ok s') × Kept s'
  unfolding add_nat
  put_nat-Holds cidr s w here same =
      let (last, e, c) = append_rules-count ip allowed_ips cidr s.rules in
      (
        record s { is_add_nat = true; rules = last },
        rw e refl,
        record {
          counted = λ q.
              c q ∙ omega (arith, same q, ap (λ c. count ip q (rules_for ip allowed_ips c)) here);
          only_wanted = λ e. w;
        },
      )

  abbrev Follows : (old_cidr cidr : Net) → NatState ip → Type 0
  Follows old_cidr cidr s =
      (s' : NatState ip) × ((remove_old ip working native_nat allowed_ips old_cidr cidr s >>= λ t.
      put_new ip working native_nat allowed_ips cidr t)
        ≡ ok s')
      × Kept s'

  -- With the interface moved already, by whether there are rules and whether the range is new.
  follow :
      (b : Bool) (interface : Interface Net) (rules : Rules Net) (old_cidr cidr : Net)
      → wanted ip working native_nat allowed_ips ≡ true
      → interface.cidr ≡ cidr
      → ((q : Rule Net) → count ip q rules ≡ added ip allowed_ips b old_cidr q + count ip q before)
      → Follows old_cidr cidr (record { is_add_nat = b; interface = interface; rules = rules })
  follow true interface rules old_cidr cidr w here counted =
      elim (Bool-cases (ip.same old_cidr cidr)) [
        | inl this ↦
            let e : old_cidr ≡ interface.cidr = (laws.same_iff old_cidr cidr).0 this ∙ sym here in
            rw this (
              record { is_add_nat = true; interface = interface; rules = rules },
              refl,
              record {
                counted = λ q.
                    counted q
                    ∙ ap (λ c. count ip q (rules_for ip allowed_ips c) + count ip q before) e;
                only_wanted = λ e. w;
              },
            )
        | inr other ↦
            let (rest, e, c) = del_nat-count laws allowed_ips old_cidr rules before counted in
            rw other (
              rw e (
                put_nat-Holds cidr
                  (record { is_add_nat = false; interface = interface; rules = rest }) w here c))
      ]
  follow false interface rules old_cidr cidr w here counted =
      let new =
        put_nat-Holds cidr (record { is_add_nat = false; interface = interface; rules = rules }) w
          here (λ q. omega (arith, counted q)) in
      elim (Bool-cases (ip.same old_cidr cidr)) [
        | inl this ↦ rw this new
        | inr other ↦ rw other new
      ]

  -- Nothing is added where it is not wanted.
  idle :
      (s : NatState ip) (interface : Interface Net)
      → wanted ip working native_nat allowed_ips ≡ false
      → Kept s
      → Kept (record s { interface = interface })
  idle s interface w h = elim (Bool-cases s.is_add_nat) [
    | inl yes_added ↦ absurd (ground (arith, h.only_wanted yes_added, w))
    | inr no_added ↦ record {
      counted = λ q.
          subst
            (λ b.
              count ip q s.rules ≡ added ip allowed_ips b s.interface.cidr q + count ip q before)
            no_added (h.counted q)
          ∙ ap (λ b. added ip allowed_ips b interface.cidr q + count ip q before) (sym no_added);
      only_wanted = h.only_wanted;
    }
  ]

  refresh-Kept :
      (addr : ℕ) (cidr : Net) (s : NatState ip)
      → Kept s
      → (s' : NatState ip) × (refresh ip working native_nat allowed_ips addr cidr s ≡ ok s')
        × Kept s'
  unfolding refresh
  refresh-Kept addr cidr s h =
      let (interface, e, here) =
        move_to-returns laws s.interface.addr addr s.interface.cidr cidr s refl in
      elim (Bool-cases (wanted ip working native_nat allowed_ips)) [
        | inl w ↦
            rw (e, w) (follow s.is_add_nat interface s.rules s.interface.cidr cidr w here h.counted)
        | inr w ↦ rw (e, w) (record s { interface = interface }, refl, idle s interface w h)
      ]

  begin_manual-Kept :
      (interface : Interface Net) (addr : ℕ) (cidr : Net)
      → interface.cidr ≡ default_net
      → (s : NatState ip) × (begin_manual ip working native_nat allowed_ips default_net addr cidr
            (record { is_add_nat = false; interface = interface; rules = before })
          ≡ ok s)
        × Kept s
  unfolding begin_manual
  begin_manual-Kept interface addr cidr h =
      let start : NatState ip = record {
        is_add_nat = false;
        interface = interface;
        rules = before;
      } in
      let (moved, e, here) = move_to-returns laws 0 addr default_net cidr start h in
      let s : NatState ip = record { is_add_nat = false; interface = moved; rules = before } in
      elim (Bool-cases (wanted ip working native_nat allowed_ips)) [
        | inl w ↦ rw (e, w) (put_nat-Holds cidr s w here (λ q. refl))
        | inr w ↦ rw (e, w) (s, refl, start_Kept moved)
      ]
    where
      start_Kept :
          (i : Interface Net) → Kept (record { is_add_nat = false; interface = i; rules = before })
      start_Kept i = record {
        counted = λ q. omega arith;
        only_wanted = λ e. absurd (ground (arith, e));
      }

  Life-Kept : {s : NatState ip} → Life ip native_nat allowed_ips default_net before s → Kept s
  Life-Kept (begun_auto interface) = record {
    counted = λ q. omega arith;
    only_wanted = λ e. absurd (ground (arith, e));
  }
  Life-Kept (begun_manual {s = s} interface addr cidr first e) =
      let (t, f, k) = begin_manual-Kept interface addr cidr first in
      subst Kept (ok-inv t t s (sym f ∙ e)) k
  Life-Kept (refreshed {s = s} {s' = s'} addr cidr l e) =
      let (t, f, k) = refresh-Kept addr cidr s (Life-Kept l) in
      subst Kept (ok-inv t t s' (sym f ∙ e)) k

  clear-Kept :
      (s : NatState ip)
      → Kept s
      → (rules : Rules Net) × (clear ip working native_nat allowed_ips s ≡ (true, rules))
        × SameRules ip rules before
  unfolding clear
  clear-Kept s h = elim (Bool-cases s.is_add_nat) [
    | inl there ↦
        let (rest, e, c) = del_nat-count laws allowed_ips s.interface.cidr s.rules before (λ q.
          h.counted q
          ∙ ap (λ b. added ip allowed_ips b s.interface.cidr q + count ip q before) there) in
        let native : s.is_add_nat && native_nat ≡ true =
          ground (arith, there, h.only_wanted there) in
        (rest, rw native e, record { same_count = c })
    | inr gone ↦
        let none_left : s.is_add_nat && native_nat ≡ false = ground (arith, gone) in
        (
          s.rules,
          rw none_left refl,
          record {
            same_count = λ q.
                h.counted q
                ∙ ap (λ b. added ip allowed_ips b s.interface.cidr q + count ip q before) gone
                ∙ omega arith;
          },
        )
  ]

  -- While sysctl, `iptables -A` and the calls of the TUN device succeed, from an address of the server or of the configuration on and after any new
  -- addresses: a further new address is followed without an error, and at the end no command fails
  -- and iptables has each rule exactly as often as before the start.
  pub clear-SameRules :
      (s : NatState ip) (addr : ℕ) (cidr : Net)
      → Life ip native_nat allowed_ips default_net before s
      → (s' : NatState ip) × (rules : Rules Net) × (refresh ip working native_nat allowed_ips addr
            cidr s
          ≡ ok s')
        × (clear ip working native_nat allowed_ips s ≡ (true, rules))
        × SameRules ip rules before
  clear-SameRules s addr cidr l =
      let k = Life-Kept l in
      let (s', e, k') = refresh-Kept addr cidr s k in
      let (rules, c, same) = clear-Kept s k in (s', rules, e, c, same)
