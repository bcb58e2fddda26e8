-- ===== src/Nodes/NextHop.antt =====
-- `find_next_hop` (src/node/mod.rs): the next node on the cheapest path, kept for 60 seconds. The
-- search `pathfinding::dijkstra` is a parameter; durations are in nanoseconds.
pub mod Recent
use fubuki_test.Base.{
  ℕ, zero, suc, ◌+◌, ◌-◌, ◌*◌, ◌/◌, ◌≤◌, ◌<◌, ◌≡◌, ◌≢◌, refl, sym, ap, ◌∙◌, subst, Bool, true,
  false, Bool-cases, inl, inr, ◌⊎◌, Option, none, some, Option-cases, List, [], ◌∷◌, All, get_elem?,
  ltb, ltb→lt, ◌==◌, ==_iff, if◌then◌else◌, insert_at, arith, Outcome, ok, err, panic, unwrap,
  ◌>>=◌,
}
use fubuki_test.Protocol.{PeerStatus}
use fubuki_test.Nodes.{Peers}

pub record NextHop : Type 0 where
  pub next : ℕ
  pub cost : ℕ

-- `dijkstra(&start, successors, success)`: the nodes of a cheapest path, and its cost.
abbrev pub Dijkstra : Type 0
Dijkstra = (start : ℕ) (successors : ℕ → List (ℕ × ℕ)) (success : ℕ → Bool) → Option (List ℕ × ℕ)

abbrev pub second : ℕ
second = 1000000000

-- The cost of the step to a peer, if both its latency and its packet loss are known.
abbrev pub step_cost : (latency packet_loss : ℕ) → ℕ
step_cost latency packet_loss = latency / second / 100 + packet_loss / 5

abbrev pub with_step : (addr : ℕ) (latency packet_loss : Option ℕ) → List (ℕ × ℕ) → List (ℕ × ℕ)
with_step addr (some latency) (some packet_loss) rest = (addr, step_cost latency packet_loss) ∷ rest
with_step addr none packet_loss rest = rest
with_step addr (some latency) none rest = rest

unfoldable pub steps : List PeerStatus → List (ℕ × ℕ)
steps [] = []
steps (peer ∷ peers) = with_step peer.addr peer.latency peer.packet_loss (steps peers)

abbrev pub peers_of : Option (List PeerStatus) → List PeerStatus
peers_of none = []
peers_of (some ps) = ps

-- The path that the search gave, of which the node at index 1 is the next.
abbrev pub hop_of : Option (List ℕ × ℕ) → Outcome (Unit {0}) (Option NextHop)
hop_of none = ok none
hop_of (some (route, cost)) =
    unwrap (get_elem? route 1) >>= λ next. ok (some (record { next = next; cost = cost }))

-- `cache` of `find_next_hop`: an address, its next hop and when that was found.
pub record CacheEntry : Type 0 where
  pub addr : ℕ
  pub next_hop : Option NextHop
  pub update_time : ℕ

abbrev pub Cache : Type 0
Cache = List CacheEntry

-- `binary_search_by_key` in the cache, which is sorted by address: the entry or the index for a new one.
unfoldable pub lookup : ℕ → Cache → Option CacheEntry
lookup dst [] = none
lookup dst (e ∷ es) =
    if ltb e.addr dst then lookup dst es else (if e.addr == dst then some e else none)

-- The entry at the address replaced, or put where it belongs.
unfoldable pub store : CacheEntry → Cache → Cache
store new [] = new ∷ []
store new (e ∷ es) =
    if ltb e.addr new.addr
    then e ∷ store new es
    else (if e.addr == new.addr then new ∷ es else new ∷ e ∷ es)

module _ (dijkstra : Dijkstra) where
  unfoldable pub find : (curr dst : ℕ) → Peers → Outcome (Unit {0}) (Option NextHop)
  find curr dst peers = hop_of (dijkstra curr (λ ip. steps (peers_of (peers ip))) (λ ip. ip == dst))

  abbrev pub refresh :
      (now curr dst : ℕ) → Peers → Cache → Outcome (Unit {0}) (Option NextHop × Cache)
  refresh now curr dst peers cache = find curr dst peers >>= λ new.
      ok (new, store (record { addr = dst; next_hop = new; update_time = now }) cache)

  abbrev pub answer :
      (now curr dst : ℕ)
      → Peers
      → Cache
      → Option CacheEntry
      → Outcome (Unit {0}) (Option NextHop × Cache)
  answer now curr dst peers cache none = refresh now curr dst peers cache
  answer now curr dst peers cache (some e) =
      if ltb (now - e.update_time) (60 * second)
      then ok (e.next_hop, cache)
      else refresh now curr dst peers cache

  unfoldable pub find_next_hop :
      (now curr dst : ℕ) → Peers → Cache → Outcome (Unit {0}) (Option NextHop × Cache)
  find_next_hop now curr dst peers cache = answer now curr dst peers cache (lookup dst cache)
