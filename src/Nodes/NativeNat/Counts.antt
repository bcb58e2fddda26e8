-- ===== src/Nodes/NativeNat/Counts.antt =====
-- What the commands of src/nat/linux.rs do to the rules of iptables. Their order does not matter, so
-- that lists of rules are compared by how often they have each rule.
use fubuki_test.Base.{
  ℕ, ◌+◌, ◌<◌, ◌≡◌, refl, sym, ap, ap₂, ◌∙◌, inl, inr, Bool, true, false, Bool-cases, ◌||◌, not,
  Option, none, some, List, [], ◌∷◌, ◌++◌, ◌==◌, if◌then◌else◌, ok, arith,
}
use fubuki_test.Ipnet.{IpNet, IsIpNet}
use fubuki_test.Nodes.{Interface}
use fubuki_test.Nodes.Ranges.{move_tun}
use fubuki_test.Nodes.NativeNat.{
  Rule, Rules, Commands, same_rule, delete_rule, append_rules, del_nat, NatState, move_to,
}

-- Every command and every call of the device succeeds.
abbrev pub working : {Net : Type 0} → Commands Net
working = record { enables = true; takes = λ r. true; accepts = λ call. true }

module _ {Net : Type 0} (ip : IpNet Net) where
  abbrev pub one : Rule Net → Rule Net → ℕ
  one q r = if same_rule ip q r then 1 else 0

  abbrev pub count : Rule Net → Rules Net → ℕ
  count q [] = 0
  count q (r ∷ rs) = one q r + count q rs

  -- Both have each rule as often.
  pub record SameRules (a b : Rules Net) : Type 0 where
    pub same_count : (q : Rule Net) → count q a ≡ count q b

  abbrev pub rules_for : (ranges : List Net) (src : Net) → Rules Net
  rules_for [] src = []
  rules_for (dst ∷ ranges) src = record { dst = dst; src = src } ∷ rules_for ranges src

  -- The rules that the program has added, if it has.
  abbrev pub added : (ranges : List Net) → Bool → (src : Net) → Rule Net → ℕ
  added ranges true src q = count q (rules_for ranges src)
  added ranges false src q = 0

  count-append : (q : Rule Net) (a b : Rules Net) → count q (a ++ b) ≡ count q a + count q b
  count-append q [] b = omega arith
  count-append q (r ∷ a) b = omega (arith, count-append q a b)

  pub append_rules-count :
      (ranges : List Net) (src : Net) (rules : Rules Net)
      → (last : Rules Net) × (append_rules ip working ranges src rules ≡ ok last)
        × ((q : Rule Net) → count q last ≡ count q (rules_for ranges src) + count q rules)
  append_rules-count [] src rules = (rules, refl, λ q. omega arith)
  append_rules-count (dst ∷ ranges) src rules =
      let r : Rule Net = record { dst = dst; src = src } in
      let (last, e, c) = append_rules-count ranges src (rules ++ (r ∷ [])) in
      (last, e, λ q. omega (arith, c q, count-append q rules (r ∷ [])))

module _ {Net : Type 0} {ip : IpNet Net} (laws : IsIpNet ip) where
  same_rule-eq : (a b : Rule Net) → same_rule ip a b ≡ true → a ≡ b
  same_rule-eq a b h =
      let d : a.dst ≡ b.dst = (laws.same_iff a.dst b.dst).0 (ground (arith, h)) in
      let s : a.src ≡ b.src = (laws.same_iff a.src b.src).0 (ground (arith, h)) in
      ap₂ (λ x y. record { dst = x; src = y }) d s

  same_rule_refl : (a : Rule Net) → same_rule ip a a ≡ true
  same_rule_refl a =
      rw ((laws.same_iff a.dst a.dst).1 refl, (laws.same_iff a.src a.src).1 refl) refl

  delete_later :
      (r x : Rule Net) (xs rest : Rules Net)
      → same_rule ip r x ≡ false
      → delete_rule ip r xs ≡ some rest
      → delete_rule ip r (x ∷ xs) ≡ some (x ∷ rest)
  unfolding delete_rule
  delete_later r x xs rest other e = rw other (rw e refl)

  -- A rule that is there is deleted, once.
  delete_rule-count :
      (r : Rule Net) (rules : Rules Net)
      → 0 < count ip r rules
      → (rest : Rules Net) × (delete_rule ip r rules ≡ some rest)
        × ((q : Rule Net) → one ip q r + count ip q rest ≡ count ip q rules)
  unfolding delete_rule
  delete_rule-count r [] h = absurd (omega arith)
  delete_rule-count r (x ∷ xs) h = elim (Bool-cases (same_rule ip r x)) [
    | inl this ↦
        (xs, rw this refl, λ q. ap (λ y. one ip q y + count ip q xs) (same_rule-eq r x this))
    | inr other ↦
        let (rest, e, c) = delete_rule-count r xs (ground (arith, h, other)) in
        (x ∷ rest, delete_later r x xs rest other e, λ q. omega (arith, c q))
  ]

  del_nat_step :
      (dst : Net) (ranges : List Net) (src : Net) (rules rest : Rules Net)
      → delete_rule ip (record { dst = dst; src = src }) rules ≡ some rest
      → del_nat ip (dst ∷ ranges) src rules ≡ del_nat ip ranges src rest
  unfolding del_nat
  del_nat_step dst ranges src rules rest e = ap next e
    where
      next : Option (Rules Net) → Bool × Rules Net
      next none = (false, rules)
      next (some rest) = del_nat ip ranges src rest

  -- The rules of all ranges are deleted, if they are there, and no others.
  pub del_nat-count :
      (ranges : List Net) (src : Net) (rules base : Rules Net)
      → ((q : Rule Net) → count ip q rules ≡ count ip q (rules_for ip ranges src) + count ip q base)
      → (rest : Rules Net) × (del_nat ip ranges src rules ≡ (true, rest))
        × ((q : Rule Net) → count ip q rest ≡ count ip q base)
  unfolding del_nat
  del_nat-count [] src rules base h = (rules, refl, λ q. omega (arith, h q))
  del_nat-count (dst ∷ ranges) src rules base h =
      let r : Rule Net = record { dst = dst; src = src } in
      let mine : one ip r r ≡ 1 = rw (same_rule_refl r) refl in
      let (rest, e, c) = delete_rule-count r rules (omega (arith, h r, mine)) in
      let (last, f, d) = del_nat-count ranges src rest base (λ q. omega (arith, h q, c q)) in
      (last, del_nat_step dst ranges src rules rest e ∙ f, d)

  pub move_to-returns :
      (old_addr addr : ℕ) (old_cidr cidr : Net) (s : NatState ip)
      → s.interface.cidr ≡ old_cidr
      → (i : Interface Net) × (move_to ip working old_addr addr old_cidr cidr s
          ≡ ok (record s { interface = i }))
        × (i.cidr ≡ cidr)
  unfolding move_tun
  move_to-returns old_addr addr old_cidr cidr s h =
      elim (Bool-cases (not (addr == old_addr) || not (ip.same cidr old_cidr))) [
        | inl moves ↦ (record s.interface { addr = addr; cidr = cidr }, rw moves refl, refl)
        | inr stays ↦
            let e : ip.same cidr old_cidr ≡ true = ground (arith, stays) in
            (s.interface, rw stays refl, h ∙ sym ((laws.same_iff cidr old_cidr).0 e))
      ]
