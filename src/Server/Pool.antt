-- ===== src/Server/Pool.antt =====
-- `AddressPool` (src/server/mod.rs): the virtual addresses of a group that are in use.
use fubuki_test.Base.{
  ℕ, ◌<◌, ◌≡◌, ◌↔◌, refl, ap, ◌∙◌, Bool, true, false, Bool-cases, not, Option, none, some, List, [],
  ◌∷◌, All, inl, inr, ◌==◌, if◌then◌else◌, arith, Outcome, ok, ◌>>◌, ensure, unsome, none-absurd,
  subst,
}
use fubuki_test.Ipnet.{IpNet, IsIpNet}
use fubuki_test.Protocol.{
  AllocateError, ip_not_belong_network_range, ip_same_as_network_address,
  ip_same_as_broadcast_address, ip_already_in_use,
}
use fubuki_test.Server.{Set, with_key, without_key}

pub record AddressPool (Net : Type 0) : Type 0 where
  pub used : Set
  pub cidr : Net

unfoldable pub first_idle : Set → List ℕ → Option ℕ
first_idle used [] = none
first_idle used (v ∷ vs) = if used v then first_idle used vs else some v

module _ {Net : Type 0} (ip : IpNet Net) where
  unfoldable pub get_idle_addr : AddressPool Net → Option ℕ
  get_idle_addr self = first_idle self.used (ip.hosts self.cidr)

  unfoldable pub allocate : ℕ → AddressPool Net → Outcome AllocateError (AddressPool Net)
  allocate a self =
      ensure (ip.contains self.cidr a) ip_not_belong_network_range
      >> (ensure (not (ip.network self.cidr == a)) ip_same_as_network_address
          >> (ensure (not (ip.broadcast self.cidr == a)) ip_same_as_broadcast_address
              >> (ensure (not (self.used a)) ip_already_in_use
                  >> ok (record self { used = with_key a self.used }))))

unfoldable pub release : {Net : Type 0} → ℕ → AddressPool Net → AddressPool Net
release a self = record self { used = without_key a self.used }

first_idle-All :
    (P : ℕ → Type 0) (used : Set) (vs : List ℕ) (a : ℕ)
    → All P vs
    → first_idle used vs ≡ some a
    → P a × (used a ≡ false)
unfolding first_idle
first_idle-All P used [] a ps h = none-absurd h
first_idle-All P used (v ∷ vs) a (p, ps) h = elim (Bool-cases (used v)) [
  | inl taken ↦
      first_idle-All P used vs a ps
        (subst (λ b. (if b then first_idle used vs else some v) ≡ some a) taken h)
  | inr idle ↦
      let same : v ≡ a =
        unsome (subst (λ b. (if b then first_idle used vs else some v) ≡ some a) idle h) in
      subst (λ x. P x × (used x ≡ false)) same (p, idle)
]

module _ {Net : Type 0} (ip : IpNet Net) (laws : IsIpNet ip) where
  allocate-inside :
      (pool : AddressPool Net) (a : ℕ)
      → ip.network pool.cidr < a
      → a < ip.broadcast pool.cidr
      → pool.used a ≡ false
      → allocate ip a pool ≡ ok (record pool { used = with_key a pool.used })
  unfolding allocate
  allocate-inside pool a low high idle =
      let inside : ip.contains pool.cidr a ≡ true =
        (laws.contains_iff pool.cidr a).1 (omega arith, omega arith) in
      let not_network : (ip.network pool.cidr == a) ≡ false = ground arith in
      let not_broadcast : (ip.broadcast pool.cidr == a) ≡ false = ground arith in
      rw (inside, not_network, not_broadcast, idle) refl

  -- In a network whose prefix is shorter than 31, `allocate` accepts every address that
  -- `get_idle_addr` offers, and then has it in use.
  pub allocate-get_idle_addr :
      (pool : AddressPool Net) (a : ℕ)
      → ip.prefix_len pool.cidr < 31
      → get_idle_addr ip pool ≡ some a
      → allocate ip a pool ≡ ok (record pool { used = with_key a pool.used })
  unfolding get_idle_addr
  allocate-get_idle_addr pool a wide offered =
      let ((low, high), idle) =
        first_idle-All (λ h. (ip.network pool.cidr < h) × (h < ip.broadcast pool.cidr)) pool.used
          (ip.hosts pool.cidr) a (laws.hosts_inner pool.cidr wide) offered in
      allocate-inside pool a low high idle

  ensured :
      {E A : Type 0} (b : Bool) (e : E) (k : Outcome E A) (v : A)
      → (ensure b e >> k) ≡ ok v
      → (b ≡ true) × (k ≡ ok v)
  ensured true e k v h = (refl, h)
  ensured false e k v h = ground arith

  ok-inv :
      (a b : AddressPool Net) (o : Outcome AllocateError (AddressPool Net))
      → o ≡ ok a
      → o ≡ ok b
      → a ≡ b
  ok-inv a b o h k = ground arith

  allocated-inside :
      (pool next : AddressPool Net) (a : ℕ)
      → allocate ip a pool ≡ ok next
      → (ip.network pool.cidr < a)
        × (a < ip.broadcast pool.cidr)
        × (pool.used a ≡ false)
        × (record pool { used = with_key a pool.used } ≡ next)
  unfolding allocate
  allocated-inside pool next a h =
      let (inside, h1) = ensured (ip.contains pool.cidr a) _ _ next h in
      let (not_network, h2) = ensured (not (ip.network pool.cidr == a)) _ _ next h1 in
      let (not_broadcast, h3) = ensured (not (ip.broadcast pool.cidr == a)) _ _ next h2 in
      let (idle, h4) = ensured (not (pool.used a)) _ _ next h3 in
      let (low, high) = (laws.contains_iff pool.cidr a).0 inside in
      (
        ground arith,
        ground arith,
        ground arith,
        ok-inv (record pool { used = with_key a pool.used }) next (ok _) refl h4,
      )

  -- `allocate` succeeds exactly at the addresses strictly between the network address and the
  -- broadcast address that are not in use, and then only adds the address to those in use.
  pub allocate_iff :
      (pool next : AddressPool Net) (a : ℕ)
      → (allocate ip a pool ≡ ok next) ↔ (
          (ip.network pool.cidr < a)
          × (a < ip.broadcast pool.cidr)
          × (pool.used a ≡ false)
          × (record pool { used = with_key a pool.used } ≡ next))
  allocate_iff pool next a = (
    allocated-inside pool next a,
    λ (low, high, idle, same). allocate-inside pool a low high idle ∙ ap ok same,
  )
