-- ===== src/Ipnet/Sample.antt =====
-- A stand-in for `Ipv4Net`, for runs at concrete networks: an address and a prefix length.
use fubuki_test.Base.{
  ℕ, zero, suc, ◌+◌, ◌-◌, ◌*◌, ◌/◌, ◌^◌, ◌≤◌, ◌<◌, ◌≡◌, ◌&&◌, List, [], ◌∷◌, All, ◌==◌, leb, ltb,
  if◌then◌else◌, arith, lt→ltb,
}
use native.Mathlib.Nat.{pow-suc, one-le-pow}
use fubuki_test.Ipnet.{IpNet, IsIpNet}

pub record SampleNet : Type 0 where
  pub addr : ℕ
  pub prefix_len : ℕ

abbrev pub range : ℕ → ℕ → List ℕ
range start zero = []
range start (suc n) = start ∷ range (start + 1) n

abbrev pub size : SampleNet → ℕ
size n = 2 ^ (32 - n.prefix_len)

abbrev pub network : SampleNet → ℕ
network n = n.addr / size n * size n

abbrev pub broadcast : SampleNet → ℕ
broadcast n = network n + (size n - 1)

abbrev pub sample_ip : IpNet SampleNet
sample_ip = record {
  same = λ a b. a.addr == b.addr && a.prefix_len == b.prefix_len;
  contains = λ n a. leb (network n) a && leb a (broadcast n);
  prefix_len = λ n. n.prefix_len;
  network = network;
  broadcast = broadcast;
  hosts = λ n.
      if ltb n.prefix_len 31
      then range (network n + 1) (size n - 2)
      else range (network n) (size n);
}

range-All :
    (lo hi start n : ℕ)
    → lo < start
    → start + n ≤ hi
    → All (λ h. (lo < h) × (h < hi)) (range start n)
range-All lo hi start zero h k = tt
range-All lo hi start (suc n) h k =
    ((omega arith, omega arith), range-All lo hi (start + 1) n (omega arith) (omega arith))

sample_hosts :
    (n : SampleNet)
    → n.prefix_len < 31
    → All (λ h. (network n < h) × (h < broadcast n)) (sample_ip.hosts n)
sample_hosts n h =
    let big : 1 * 2 ≤ 2 ^ (31 - n.prefix_len) * 2 =
      omega (arith, one-le-pow (31 - n.prefix_len) 2 (omega arith)) in
    let width : 32 - n.prefix_len ≡ suc (31 - n.prefix_len) = omega arith in
    let two : 2 ≤ size n = rw width (rw (pow-suc 2 (31 - n.prefix_len)) (omega arith)) in
    rw (lt→ltb n.prefix_len 31 h)
      (range-All (network n) (broadcast n) (network n + 1) (size n - 2) (omega arith) (omega arith))

pub sample-IsIpNet : IsIpNet sample_ip
sample-IsIpNet = record {
  same_iff = λ a b. ground arith;
  contains_iff = λ n a. ground arith;
  hosts_inner = sample_hosts;
}
