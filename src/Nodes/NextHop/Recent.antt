-- ===== src/Nodes/NextHop/Recent.antt =====
-- How old the answers of `find_next_hop` (src/node/mod.rs) are.
use fubuki_test.Base.{
  ℕ, ◌+◌, ◌-◌, ◌*◌, ◌≤◌, ◌<◌, ◌≡◌, ◌≢◌, refl, sym, ap, ◌∙◌, subst, Bool, true, Bool-cases, inl, inr,
  Option, none, some, ok-inv, Option-cases, unsome, none-absurd, List, [], ◌∷◌, All, All-map, ltb,
  ◌==◌, ==_iff, arith, Outcome, ok, ◌>>=◌,
}
use fubuki_test.Nodes.{Peers}
use fubuki_test.Nodes.NextHop.{
  NextHop, Dijkstra, second, hop_of, CacheEntry, Cache, lookup, store, find, refresh, answer,
  find_next_hop, steps, peers_of,
}

-- Every entry holds what the search gave for its address at its time, which is past.
abbrev pub IsHistory : Dijkstra → (curr : ℕ) → (peers : ℕ → Peers) → (now : ℕ) → CacheEntry → Type 0
IsHistory dijkstra curr peers now e =
    (find dijkstra curr e.addr (peers e.update_time) ≡ ok e.next_hop) × (e.update_time ≤ now)

-- An answer is what the search gave at a moment in the last 60 seconds.
abbrev pub IsRecent :
    Dijkstra → (curr dst : ℕ) → (peers : ℕ → Peers) → (now : ℕ) → Option NextHop → Type 0
IsRecent dijkstra curr dst peers now hop =
    (t : ℕ) × (find dijkstra curr dst (peers t) ≡ ok hop) × (t ≤ now) × (now < t + 60 * second)

-- The cache is what calls at past moments left of an empty one, at which the node had the same
-- address and the peers were `peers t`.
pub data Filled (dijkstra : Dijkstra) (curr : ℕ) (peers : ℕ → Peers)
    : (now : ℕ) → Cache → Type 0 where
  empty : (now : ℕ) → Filled dijkstra curr peers now []
  called :
      {before now : ℕ} {cache cache' : Cache} (dst : ℕ) (hop : Option NextHop)
      → curr ≢ dst
      → Filled dijkstra curr peers before cache
      → before ≤ now
      → find_next_hop dijkstra now curr dst (peers now) cache ≡ ok (hop, cache')
      → Filled dijkstra curr peers now cache'

store-All :
    (P : CacheEntry → Type 0) (new : CacheEntry) (es : Cache)
    → P new
    → All P es
    → All P (store new es)
unfolding store
store-All P new [] p ps = (p, tt)
store-All P new (e ∷ es) p (q, qs) = elim (Bool-cases (ltb e.addr new.addr)) [
  | inl less ↦ rw less (q, store-All P new es p qs)
  | inr more ↦ elim (Bool-cases (e.addr == new.addr)) [
    | inl same ↦ rw (more, same) (p, qs)
    | inr other ↦ rw (more, other) (p, (q, qs))
  ]
]

lookup-All :
    (P : CacheEntry → Type 0) (dst : ℕ) (es : Cache) (e : CacheEntry)
    → All P es
    → lookup dst es ≡ some e
    → P e × (e.addr ≡ dst)
unfolding lookup
lookup-All P dst [] e ps h = none-absurd h
lookup-All P dst (x ∷ xs) e (q, qs) h = elim (Bool-cases (ltb x.addr dst)) [
  | inl less ↦ lookup-All P dst xs e qs (ground (arith, less, h))
  | inr more ↦ elim (Bool-cases (x.addr == dst)) [
    | inl same ↦
        let equal : x ≡ e = unsome (ground (arith, more, same, h)) in
        subst (λ y. P y × (y.addr ≡ dst)) equal (q, (==_iff x.addr dst).0 same)
    | inr other ↦ let bad : none ≡ some e = ground (arith, more, other, h) in none-absurd bad
  ]
]

-- What `dijkstra` documents of a path: it leads from the start to a node of the goal.
abbrev pub last_of : ℕ → List ℕ → ℕ
last_of n [] = n
last_of n (m ∷ ms) = last_of m ms

pub record IsPathSearch (dijkstra : Dijkstra) : Type 0 where
  pub leads :
      (start : ℕ) (successors : ℕ → List (ℕ × ℕ)) (success : ℕ → Bool) (path : List ℕ) (cost : ℕ)
      → dijkstra start successors success ≡ some (path, cost)
      → (rest : List ℕ) × (path ≡ start ∷ rest) × (success (last_of start rest) ≡ true)

module _ (dijkstra : Dijkstra) (search : IsPathSearch dijkstra) (curr dst : ℕ)
    (peers : ℕ → Peers) where
  hop_of-returns :
      (rest : List ℕ) (cost : ℕ)
      → curr ≢ dst
      → (last_of curr rest == dst) ≡ true
      → (hop : Option NextHop) × (hop_of (some (curr ∷ rest, cost)) ≡ ok hop)
  hop_of-returns [] cost other h = absurd (other ((==_iff curr dst).0 h))
  hop_of-returns (n ∷ ns) cost other h = (some (record { next = n; cost = cost }), refl)

  pub find-returns :
      (now : ℕ)
      → curr ≢ dst
      → (hop : Option NextHop) × (find dijkstra curr dst (peers now) ≡ ok hop)
  unfolding find
  find-returns now other =
      elim (Option-cases
        (dijkstra curr (λ ip. steps (peers_of (peers now ip))) (λ ip. ip == dst))) [
          | inl lost ↦ (none, ap hop_of lost)
          | inr ((path, cost), found) ↦
              let (rest, starts, ends) = search.leads curr _ _ path cost found in
              let (hop, e) = hop_of-returns rest cost other ends in
              (hop, ap hop_of found ∙ ap (λ p. hop_of (some (p, cost))) starts ∙ e)
        ]

  -- A call's result, a recent answer and a cache that holds searches of the past.
  abbrev pub IsAnswered : (now : ℕ) → Outcome (Unit {0}) (Option NextHop × Cache) → Type 0
  IsAnswered now o =
      (hop : Option NextHop) × (cache : Cache) × (o ≡ ok (hop, cache))
      × IsRecent dijkstra curr dst peers now hop
      × All (IsHistory dijkstra curr peers now) cache

  refresh-IsAnswered :
      (now : ℕ) (cache : Cache)
      → curr ≢ dst
      → All (IsHistory dijkstra curr peers now) cache
      → IsAnswered now (refresh dijkstra now curr dst (peers now) cache)
  refresh-IsAnswered now cache other h =
      let (hop, e) = find-returns now other in
      let entry : CacheEntry = record { addr = dst; next_hop = hop; update_time = now } in
      (
        hop,
        store entry cache,
        ap
            (λ o. o >>= λ new.
              ok (new, store (record { addr = dst; next_hop = new; update_time = now }) cache))
            e,
        (now, e, omega arith, omega arith),
        store-All (IsHistory dijkstra curr peers now) entry cache (e, omega arith) h,
      )

  kept-IsAnswered :
      (now : ℕ) (cache : Cache) (e : CacheEntry)
      → ltb (now - e.update_time) (60 * second) ≡ true
      → All (IsHistory dijkstra curr peers now) cache
      → IsHistory dijkstra curr peers now e × (e.addr ≡ dst)
      → IsAnswered now (ok (e.next_hop, cache))
  kept-IsAnswered now cache e young h ((found, past), at) = (
    e.next_hop,
    cache,
    refl,
    (
      e.update_time,
      subst (λ a. find dijkstra curr a (peers e.update_time) ≡ ok e.next_hop) at found,
      past,
      ground (arith, young, past),
    ),
    h,
  )

  answer-IsAnswered :
      (now : ℕ) (cache : Cache) (o : Option CacheEntry)
      → lookup dst cache ≡ o
      → curr ≢ dst
      → All (IsHistory dijkstra curr peers now) cache
      → IsAnswered now (answer dijkstra now curr dst (peers now) cache o)
  answer-IsAnswered now cache none l other h = refresh-IsAnswered now cache other h
  answer-IsAnswered now cache (some e) l other h =
      elim (Bool-cases (ltb (now - e.update_time) (60 * second))) [
        | inr old ↦ rw old (refresh-IsAnswered now cache other h)
        | inl young ↦ rw young (
            kept-IsAnswered now cache e young h
              (lookup-All (IsHistory dijkstra curr peers now) dst cache e h l))
      ]

module _ (dijkstra : Dijkstra) (search : IsPathSearch dijkstra) (curr : ℕ) (peers : ℕ → Peers) where
  older :
      (before now : ℕ) (cache : Cache)
      → before ≤ now
      → All (IsHistory dijkstra curr peers before) cache
      → All (IsHistory dijkstra curr peers now) cache
  older before now cache le h =
      All-map (IsHistory dijkstra curr peers before) (λ e (found, past). (found, omega arith)) cache
        h

  Filled-IsHistory :
      (now : ℕ) (cache : Cache)
      → Filled dijkstra curr peers now cache
      → All (IsHistory dijkstra curr peers now) cache
  unfolding find_next_hop
  Filled-IsHistory now cache (empty _) = tt
  Filled-IsHistory now cache (called {before = before} {cache = old} dst hop other f le e) =
      let (hop', cache', e', recent, h) =
        answer-IsAnswered dijkstra search curr dst peers now old (lookup dst old) refl other
          (older before now old le (Filled-IsHistory before old f)) in
      subst (λ (r : Option NextHop × Cache). All (IsHistory dijkstra curr peers now) r.1)
        (ok-inv (hop', cache') (hop', cache') (hop, cache) (sym e' ∙ e)) h

  -- From a cache that calls at past moments filled, and with a search that gives paths from the
  -- start to the goal, a call for an address other than the node's own returns a next hop, which the
  -- search gave for that address and the peers of a moment less than 60 seconds ago.
  pub find_next_hop-IsRecent :
      (dst before now : ℕ) (cache : Cache)
      → curr ≢ dst
      → before ≤ now
      → Filled dijkstra curr peers before cache
      → (hop : Option NextHop) × (cache' : Cache) × (find_next_hop dijkstra now curr dst
            (peers now)
            cache
          ≡ ok (hop, cache'))
        × IsRecent dijkstra curr dst peers now hop
  unfolding find_next_hop
  find_next_hop-IsRecent dst before now cache other le f =
      let (hop, cache', e, recent, h) =
        answer-IsAnswered dijkstra search curr dst peers now cache (lookup dst cache) refl other
          (older before now cache le (Filled-IsHistory before cache f)) in
      (hop, cache', e, recent)
