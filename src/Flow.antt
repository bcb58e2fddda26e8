-- ===== src/Flow.antt =====
-- `FlowControl` (src/common/net.rs): the traffic of an address in one second, held under the limit
-- of the first rule that covers it. A rule list is sorted once; the pool of addresses is a sorted
-- vector. A time is a number of seconds, and the sum in `push` wraps as that of a release build.
pub mod Pool
pub mod Limit
mod Tests
use fubuki_test.Base.{
  ℕ, zero, suc, ◌+◌, Bool, Option, none, some, List, [], ◌∷◌, ◌⊎◌, inl, inr, ltb, leb, ◌==◌,
  if◌then◌else◌, insert_at, remove_at,
}
use fubuki_test.Base.Bytes.{u64}
use fubuki_test.Ipnet.{IpNet}

pub record Entry : Type 0 where
  pub addr : ℕ
  -- The traffic at the time, and the time.
  pub value : ℕ × ℕ

pub record FlowControl (Net : Type 0) : Type 0 where
  pub rule : List (Net × ℕ)
  pub pool : List Entry

pub data PushResult : Type 0 where
  accept reject : PushResult

abbrev past : ℕ ⊎ ℕ → ℕ ⊎ ℕ
past (inl i) = inl (suc i)
past (inr i) = inr (suc i)

-- `binary_search_by_key` in a sorted vector: where the key stands, or where it belongs.
unfoldable pub search : ℕ → List Entry → ℕ ⊎ ℕ
search a [] = inr 0
search a (e ∷ es) =
    if ltb e.addr a then past (search a es) else (if e.addr == a then inl 0 else inr 0)

-- `pool[index].1.fetch_update(f)`; none where `f` refuses the value.
unfoldable pub fetch_update : ℕ → (ℕ × ℕ → Option (ℕ × ℕ)) → List Entry → Option (List Entry)
fetch_update i f [] = none
fetch_update zero f (e ∷ es) = elim (f e.value) [
  | none ↦ none
  | some v ↦ some (record { addr = e.addr; value = v } ∷ es)
]
fetch_update (suc i) f (e ∷ es) = elim (fetch_update i f es) [
  | none ↦ none
  | some es' ↦ some (e ∷ es')
]

-- The closure of `push`.
unfoldable pub traffic_update : (limit packet_len now : ℕ) → ℕ × ℕ → Option (ℕ × ℕ)
traffic_update limit packet_len now (f, t) =
    if t == now
    then (let new_traffic = u64 (f + packet_len) in
        if leb new_traffic limit then some (new_traffic, t) else none)
    else some (packet_len, now)

-- The result of `push` and the pool that it leaves.
abbrev pub pushed : List Entry → Option (List Entry) → PushResult × List Entry
pushed pool none = (reject, pool)
pushed pool (some pool') = (accept, pool')

abbrev pub push_found : (limit packet_len now : ℕ) → List Entry → ℕ ⊎ ℕ → PushResult × List Entry
push_found limit packet_len now pool (inl index) =
    pushed pool (fetch_update index (traffic_update limit packet_len now) pool)
push_found limit packet_len now pool (inr _) = (reject, pool)

abbrev pub push_limited :
    (now packet_dst packet_len : ℕ) → List Entry → Option ℕ → PushResult × List Entry
push_limited now packet_dst packet_len pool none = (accept, pool)
push_limited now packet_dst packet_len pool (some limit) =
    if ltb limit packet_len
    then (reject, pool)
    else push_found limit packet_len now pool (search packet_dst pool)

module _ {Net : Type 0} (ip : IpNet Net) where
  unfoldable pub limit_opt : List (Net × ℕ) → ℕ → Option ℕ
  limit_opt [] packet_dst = none
  limit_opt ((cidr, limit) ∷ rules) packet_dst =
      if ip.contains cidr packet_dst then some limit else limit_opt rules packet_dst

  -- `sort` is `sort_unstable_by_key` by falling prefix lengths.
  unfoldable pub new : (sort : List (Net × ℕ) → List (Net × ℕ)) → List (Net × ℕ) → FlowControl Net
  new sort rule = record { rule = sort rule; pool = [] }

  unfoldable pub push :
      (now packet_dst packet_len : ℕ) → FlowControl Net → PushResult × FlowControl Net
  push now packet_dst packet_len self =
      let (result, pool) =
        push_limited now packet_dst packet_len self.pool (limit_opt self.rule packet_dst) in
      (result, record self { pool = pool })

-- `add_address`, given where the address stands or belongs.
abbrev pub added : (now addr : ℕ) → List Entry → ℕ ⊎ ℕ → List Entry
added now addr pool (inl _) = pool
added now addr pool (inr i) = insert_at i (record { addr = addr; value = (0, now) }) pool

unfoldable pub add_address : {Net : Type 0} → (now addr : ℕ) → FlowControl Net → FlowControl Net
add_address now addr self = record self { pool = added now addr self.pool (search addr self.pool) }

-- `remove_address`, given where the address stands or belongs.
abbrev pub removed : List Entry → ℕ ⊎ ℕ → List Entry
removed pool (inl i) = remove_at i pool
removed pool (inr _) = pool

unfoldable pub remove_address : {Net : Type 0} → (addr : ℕ) → FlowControl Net → FlowControl Net
remove_address addr self = record self { pool = removed self.pool (search addr self.pool) }
