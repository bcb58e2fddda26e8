-- ===== src/Routing/Hash/Masks.antt =====
-- `Ipv4Net::new` and `Ipv4Net::trunc`, which src/routing_table/hash.rs calls: their documented
-- behaviour, and the networks that a lookup tries.
use fubuki_test.Base.{
  ℕ, ◌+◌, ◌-◌, ◌*◌, ◌/◌, ◌^◌, ◌≤◌, ◌<◌, ◌≡◌, sym, ap, ◌∙◌, subst, true, some, arith,
}
use native.Mathlib.Nat.{one-le-pow}
use native.Mathlib.Nat.{mul-add-div_right, div-eq_of_lt, div-mul-le_self, lt-div-mul-add}
use fubuki_test.Ipnet.{IpNet, IsIpNet}
use fubuki_test.Routing.External.{NetParts}

abbrev pub block : ℕ → ℕ
block len = 2 ^ (32 - len)

pub record IsMasked {Net : Type 0} (ip : IpNet Net) (parts : NetParts Net) (trunc : Net → Net)
    : Type 0 where
  -- "Creates a new IPv4 network address from an Ipv4Addr and prefix length", an error only for a
  -- length above 32.
  pub new_parts :
      (a len : ℕ)
      → len ≤ 32
      → (n : Net) × (parts.new a len ≡ some n) × (parts.addr n ≡ a) × (ip.prefix_len n ≡ len)
  pub prefix_le : (n : Net) → ip.prefix_len n ≤ 32
  -- The network address is the address with the host bits cleared, and the broadcast address the
  -- one with the host bits set.
  pub network_mask :
      (n : Net) → ip.network n ≡ parts.addr n / block (ip.prefix_len n) * block (ip.prefix_len n)
  pub broadcast_mask : (n : Net) → ip.broadcast n ≡ ip.network n + (block (ip.prefix_len n) - 1)
  -- "Returns a copy of the network with the address truncated to the prefix length."
  pub trunc_parts :
      (n : Net)
      → (parts.addr (trunc n) ≡ ip.network n) × (ip.prefix_len (trunc n) ≡ ip.prefix_len n)
  pub same_parts :
      (a b : Net) → parts.addr a ≡ parts.addr b → ip.prefix_len a ≡ ip.prefix_len b → a ≡ b

block_pos : (len : ℕ) → 0 < block len
block_pos len = omega (arith, one-le-pow (32 - len) 2 (omega arith))

masked_offset : (q size r : ℕ) → r < size → (q * size + r) / size * size ≡ q * size
masked_offset q size r h =
    ap (λ x. x * size)
      (mul-add-div_right {m = size} (omega arith) q r
        ∙ ap (λ y. q + y) (div-eq_of_lt {n = r} {m = size} h)
        ∙ omega arith)

-- An address between a multiple of the block and the next one is masked to that multiple.
masked_between :
    (q size a : ℕ)
    → 0 < size
    → q * size ≤ a
    → a ≤ q * size + (size - 1)
    → a / size * size ≡ q * size
masked_between q size a pos lo hi =
    let split : a ≡ q * size + (a - q * size) = omega arith in
    ap (λ x. x / size * size) split ∙ masked_offset q size (a - q * size) (omega arith)

module _ {Net : Type 0} {ip : IpNet Net} {parts : NetParts Net} {trunc : Net → Net}
    (laws : IsIpNet ip) (masks : IsMasked ip parts trunc) where
  -- A truncated network that contains the address of another with its prefix length is the other,
  -- truncated.
  pub trunc_covering :
      (n m : Net)
      → trunc n ≡ n
      → ip.prefix_len m ≡ ip.prefix_len n
      → ip.contains n (parts.addr m) ≡ true
      → trunc m ≡ n
  trunc_covering n m t len c =
      let (lo, hi) = (laws.contains_iff n (parts.addr m)).0 c in
      let q = parts.addr n / block (ip.prefix_len n) in
      let masked : parts.addr m / block (ip.prefix_len n) * block (ip.prefix_len n)
          ≡ parts.addr n / block (ip.prefix_len n) * block (ip.prefix_len n) =
        masked_between q (block (ip.prefix_len n)) (parts.addr m) (block_pos (ip.prefix_len n))
          (subst (λ x. x ≤ parts.addr m) (masks.network_mask n) lo)
          (subst (λ x. parts.addr m ≤ x)
            (masks.broadcast_mask n
              ∙ ap (λ x. x + (block (ip.prefix_len n) - 1)) (masks.network_mask n))
            hi) in
      let own : ip.network m ≡ ip.network n =
        masks.network_mask m
        ∙ ap (λ l. parts.addr m / block l * block l) len
        ∙ masked
        ∙ sym (masks.network_mask n) in
      let home : parts.addr n ≡ ip.network n = ap parts.addr (sym t) ∙ (masks.trunc_parts n).0 in
      masks.same_parts (trunc m) n ((masks.trunc_parts m).0 ∙ own ∙ sym home)
        ((masks.trunc_parts m).1 ∙ len)

  network_trunc : (m : Net) → ip.network (trunc m) ≡ ip.network m
  network_trunc m =
      let size = block (ip.prefix_len m) in
      let q = parts.addr m / size in
      masks.network_mask (trunc m)
      ∙ ap (λ l. parts.addr (trunc m) / block l * block l) (masks.trunc_parts m).1
      ∙ ap (λ a. a / size * size) ((masks.trunc_parts m).0 ∙ masks.network_mask m)
      ∙ masked_between q size (q * size) (block_pos (ip.prefix_len m)) (omega arith) (omega arith)
      ∙ sym (masks.network_mask m)

  -- A network, truncated, contains the address it had.
  pub trunc_contains : (m : Net) → ip.contains (trunc m) (parts.addr m) ≡ true
  trunc_contains m =
      let size = block (ip.prefix_len m) in
      let pos = block_pos (ip.prefix_len m) in
      let own : ip.network (trunc m) ≡ parts.addr m / size * size =
        network_trunc m ∙ masks.network_mask m in
      let top : ip.broadcast (trunc m) ≡ parts.addr m / size * size + (size - 1) =
        masks.broadcast_mask (trunc m)
        ∙ ap (λ l. ip.network (trunc m) + (block l - 1)) (masks.trunc_parts m).1
        ∙ ap (λ x. x + (size - 1)) own in
      (laws.contains_iff (trunc m) (parts.addr m)).1 (
        subst (λ x. x ≤ parts.addr m) (sym own) (div-mul-le_self (parts.addr m) size),
        subst (λ x. parts.addr m ≤ x) (sym top)
            (omega (arith, lt-div-mul-add {a = parts.addr m} {b = size} pos)),
      )
