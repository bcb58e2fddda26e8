-- ===== src/Nodes/Merge.antt =====
-- The arm of the TCP handler for a `NodeMap` (src/node/mod.rs): the new list has the nodes of the
-- map, and what was known of a node that the old list had is kept.
use fubuki_test.Base.{
  ℕ, ◌≤◌, ◌≡◌, refl, ap, ◌∙◌, false, Bool-cases, inl, inr, Option, none, some, List, [], ◌∷◌, All,
  All-map, ltb, ◌==◌, ==_iff, if◌then◌else◌, arith,
}
use fubuki_test.Heartbeat as Heartbeat
use fubuki_test.Heartbeat.{unavailable}
use fubuki_test.Protocol.{Node}
use fubuki_test.Nodes.{ExtendedNode, extended_from, NodeList, get_node}

abbrev pub kept_or_new :
    {Net : Type 0} → (now : ℕ) → Node Net → Option (ExtendedNode Net) → ExtendedNode Net
kept_or_new now node none = extended_from now node
kept_or_new now node (some v) = record v { node = node }

-- The loop over the map, an entry of which is an address and a node.
unfoldable pub extend_nodes :
    {Net : Type 0} → (now : ℕ) → NodeList Net → List (ℕ × Node Net) → NodeList Net
extend_nodes now old [] = []
extend_nodes now old ((virtual_addr, node) ∷ rest) =
    kept_or_new now node (get_node virtual_addr old) ∷ extend_nodes now old rest

-- `sort_unstable_by_key` by address, where no two nodes have one address.
abbrev pub insert_node : {Net : Type 0} → ExtendedNode Net → NodeList Net → NodeList Net
insert_node n [] = n ∷ []
insert_node n (m ∷ ms) =
    if ltb m.node.virtual_addr n.node.virtual_addr then m ∷ insert_node n ms else n ∷ m ∷ ms

unfoldable pub sort_nodes : {Net : Type 0} → NodeList Net → NodeList Net
sort_nodes [] = []
sort_nodes (n ∷ ns) = insert_node n (sort_nodes ns)

unfoldable pub merge :
    {Net : Type 0} → (now : ℕ) → NodeList Net → List (ℕ × Node Net) → NodeList Net
merge now old map = sort_nodes (extend_nodes now old map)

module _ {Net : Type 0} where
  -- The entry of the map at an address.
  abbrev pub entry : ℕ → List (ℕ × Node Net) → Option (Node Net)
  entry a [] = none
  entry a ((k, node) ∷ rest) = if k == a then some node else entry a rest

  -- Each node stands at its own address, and no other entry has it.
  abbrev pub IsNodeMap : List (ℕ × Node Net) → Type 0
  IsNodeMap [] = Unit
  IsNodeMap ((k, node) ∷ rest) =
      (node.virtual_addr ≡ k) × All (λ e. (e.0 == k) ≡ false) rest × IsNodeMap rest

  abbrev pub IsSorted : NodeList Net → Type 0
  IsSorted [] = Unit
  IsSorted (n ∷ ns) = All (λ m. n.node.virtual_addr ≤ m.node.virtual_addr) ns × IsSorted ns

  -- A node with the state that the old list had for it, or that of a new one.
  abbrev pub with_state : (now : ℕ) → Option (ExtendedNode Net) → Node Net → ExtendedNode Net
  with_state now none node = record {
    node = node;
    udp_status = unavailable;
    hc = Heartbeat.new now;
    peer_addr = none;
  }
  with_state now (some old) node = record {
    node = node;
    udp_status = old.udp_status;
    hc = old.hc;
    peer_addr = old.peer_addr;
  }

  -- What a search finds, by the node that the map has there.
  abbrev pub extended : (now : ℕ) → NodeList Net → ℕ → Option (Node Net) → Option (ExtendedNode Net)
  extended now old a none = none
  extended now old a (some node) = some (with_state now (get_node a old) node)

  insert_All :
      (P : ExtendedNode Net → Type 0) (n : ExtendedNode Net) (ns : NodeList Net)
      → P n
      → All P ns
      → All P (insert_node n ns)
  insert_All P n [] p ps = (p, tt)
  insert_All P n (m ∷ ms) p (q, qs) =
      elim (Bool-cases (ltb m.node.virtual_addr n.node.virtual_addr)) [
        | inl less ↦ rw less (q, insert_All P n ms p qs)
        | inr more ↦ rw more (p, (q, qs))
      ]

  get_node-insert_node :
      (a : ℕ) (n : ExtendedNode Net) (ns : NodeList Net)
      → IsSorted ns
      → get_node a (insert_node n ns) ≡ (if n.node.virtual_addr == a then some n else get_node a ns)
  unfolding get_node
  get_node-insert_node a n [] h = ground arith
  get_node-insert_node a n (m ∷ ms) (below, h) =
      elim (Bool-cases (ltb m.node.virtual_addr n.node.virtual_addr)) [
        | inl less ↦ rw less (ground (arith, get_node-insert_node a n ms h))
        | inr more ↦ rw more (ground arith)
      ]

  insert-IsSorted :
      (n : ExtendedNode Net) (ns : NodeList Net) → IsSorted ns → IsSorted (insert_node n ns)
  insert-IsSorted n [] h = (tt, tt)
  insert-IsSorted n (m ∷ ms) (below, h) =
      elim (Bool-cases (ltb m.node.virtual_addr n.node.virtual_addr)) [
        | inl less ↦ rw less (
          insert_All (λ k. m.node.virtual_addr ≤ k.node.virtual_addr) n ms (ground (arith, less))
              below,
          insert-IsSorted n ms h,
        )
        | inr more ↦
            let le : n.node.virtual_addr ≤ m.node.virtual_addr = ground (arith, more) in
            rw more (
              (
                le,
                All-map (λ k. m.node.virtual_addr ≤ k.node.virtual_addr) (λ k q. omega arith) ms
                    below,
              ),
              (below, h),
            )
      ]

  sort_nodes-IsSorted : (ns : NodeList Net) → IsSorted (sort_nodes ns)
  unfolding sort_nodes
  sort_nodes-IsSorted [] = tt
  sort_nodes-IsSorted (n ∷ ns) = insert-IsSorted n (sort_nodes ns) (sort_nodes-IsSorted ns)

  node-kept_or_new :
      (now : ℕ) (node : Node Net) (o : Option (ExtendedNode Net))
      → (kept_or_new now node o).node ≡ node
  unfolding extended_from
  node-kept_or_new now node none = refl
  node-kept_or_new now node (some v) = refl

  kept_or_new-with_state :
      (now : ℕ) (node : Node Net) (o : Option (ExtendedNode Net))
      → kept_or_new now node o ≡ with_state now o node
  unfolding extended_from
  kept_or_new-with_state now node none = refl
  kept_or_new-with_state now node (some v) = refl

  get_node-extend_nodes :
      (now a : ℕ) (old : NodeList Net) (map : List (ℕ × Node Net))
      → IsNodeMap map
      → get_node a (sort_nodes (extend_nodes now old map)) ≡ extended now old a (entry a map)
  unfolding sort_nodes extend_nodes get_node extended_from
  get_node-extend_nodes now a old [] h = refl
  get_node-extend_nodes now a old ((k, node) ∷ rest) (own, distinct, h) =
      let n = kept_or_new now node (get_node k old) in
      let tail = sort_nodes (extend_nodes now old rest) in
      let key : n.node.virtual_addr ≡ k =
        ap (λ x. x.virtual_addr) (node-kept_or_new now node (get_node k old)) ∙ own in
      get_node-insert_node a n tail (sort_nodes-IsSorted (extend_nodes now old rest))
      ∙ elim (Bool-cases (k == a)) [
        | inl same ↦
            rw (key, same)
              (ap some (kept_or_new-with_state now node (get_node k old))
                ∙ ap (λ x. some (with_state now (get_node x old) node)) ((==_iff k a).0 same))
        | inr other ↦ rw (key, other) (get_node-extend_nodes now a old rest h)
      ]

  -- After a `NodeMap` with every node at its own address, and none at two, the list is sorted, and a
  -- search for an address finds exactly the node that the map has there, with the status, the
  -- heartbeats and the peer's address that the old list had for it.
  pub merge-get_node :
      (now : ℕ) (old : NodeList Net) (map : List (ℕ × Node Net)) (a : ℕ)
      → IsNodeMap map
      → IsSorted (merge now old map)
        × (get_node a (merge now old map) ≡ extended now old a (entry a map))
  unfolding merge
  merge-get_node now old map a h =
      (sort_nodes-IsSorted (extend_nodes now old map), get_node-extend_nodes now a old map h)
