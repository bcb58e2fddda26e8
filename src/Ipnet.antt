-- ===== src/Ipnet.antt =====
-- The crate `ipnet`, which the program uses and does not contain: the methods of `Ipv4Net` that
-- src/ calls, as a parameter, and what their documentation says. An IPv4 address is the number
-- that its 32 bits stand for.
pub mod Sample
use fubuki_test.Base.{ℕ, ◌≤◌, ◌<◌, ◌≡◌, ◌↔◌, Bool, true, List, All}

pub record IpNet (Net : Type 0) : Type 0 where
  pub same : Net → Net → Bool
  pub contains : Net → ℕ → Bool
  pub prefix_len : Net → ℕ
  pub network : Net → ℕ
  pub broadcast : Net → ℕ
  pub hosts : Net → List ℕ

pub record IsIpNet {Net : Type 0} (ip : IpNet Net) : Type 0 where
  pub same_iff : (a b : Net) → (ip.same a b ≡ true) ↔ (a ≡ b)
  -- "Test if a network address contains another network address or IP address."
  pub contains_iff :
      (n : Net) (a : ℕ) → (ip.contains n a ≡ true) ↔ ((ip.network n ≤ a) × (a ≤ ip.broadcast n))
  -- "If the prefix length is less than 31 both the network address and broadcast address are
  -- excluded."
  pub hosts_inner :
      (n : Net)
      → ip.prefix_len n < 31
      → All (λ h. (ip.network n < h) × (h < ip.broadcast n)) (ip.hosts n)
