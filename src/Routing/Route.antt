-- ===== src/Routing/Route.antt =====
-- `find_route` (src/node/mod.rs): the gateways are followed to an entry that is on the link.
use native.Mathlib.Omega.{arith}
use fubuki_test.Base.{
  ℕ_discrete, subst, unsome, none-absurd, ℕ, zero, suc, ◌≡◌, ◌≢◌, ◌↔◌, refl, sym, ◌∙◌, inl, inr,
  Option, none, some, Option-cases, ◌==◌, if◌then◌else◌,
}
use fubuki_test.Routing.{Item, RoutingTable}

-- `Ipv4Addr::UNSPECIFIED`.
abbrev pub unspecified : ℕ
unspecified = 0

module _ {Net T : Type 0} (rt : RoutingTable Net T) (table : T) (src : ℕ) where
  -- The while loop, with the number of gateways that it may still follow.
  unfoldable pub follow : ℕ → (dst_addr : ℕ) → Item Net → Option (ℕ × Item Net)
  follow zero dst_addr item = if item.gateway == unspecified then some (dst_addr, item) else none
  follow (suc left) dst_addr item =
      if item.gateway == unspecified
      then some (dst_addr, item)
      else elim (rt.find table src item.gateway) [
        | none ↦ none
        | some next ↦ follow left item.gateway next
      ]

  unfoldable pub find_route : (dst_addr : ℕ) → Option (ℕ × Item Net)
  find_route dst_addr = elim (rt.find table src dst_addr) [
    | none ↦ none
    | some item ↦ follow 5 dst_addr item
  ]

  -- The entries lead, by at most so many gateways, from an entry to one that is on the link.
  pub data Leads : ℕ → (dst_addr : ℕ) → Item Net → ℕ × Item Net → Type 0 where
    on_link :
        {left dst_addr : ℕ} {item : Item Net}
        → item.gateway ≡ unspecified
        → Leads left dst_addr item (dst_addr, item)
    through :
        {left dst_addr : ℕ} {item next : Item Net} {r : ℕ × Item Net}
        → item.gateway ≢ unspecified
        → rt.find table src item.gateway ≡ some next
        → Leads left item.gateway next r
        → Leads (suc left) dst_addr item r

  follow_here :
      (left dst_addr : ℕ) (item : Item Net)
      → item.gateway ≡ unspecified
      → follow left dst_addr item ≡ some (dst_addr, item)
  unfolding follow
  follow_here zero dst_addr item h = rw h refl
  follow_here (suc left) dst_addr item h = rw h refl

  follow_gateway :
      (left dst_addr : ℕ) (item next : Item Net)
      → item.gateway ≢ unspecified
      → rt.find table src item.gateway ≡ some next
      → follow (suc left) dst_addr item ≡ follow left item.gateway next
  unfolding follow
  follow_gateway left dst_addr item next h found = ground (arith, found)

  follow_zero :
      (dst_addr : ℕ) (item : Item Net) → item.gateway ≢ unspecified → follow 0 dst_addr item ≡ none
  unfolding follow
  follow_zero dst_addr item h = ground arith

  follow_lost :
      (left dst_addr : ℕ) (item : Item Net)
      → item.gateway ≢ unspecified
      → rt.find table src item.gateway ≡ none
      → follow (suc left) dst_addr item ≡ none
  unfolding follow
  follow_lost left dst_addr item h lost = ground (arith, lost)

  follow-from :
      (left dst_addr : ℕ) (item : Item Net) (r : ℕ × Item Net)
      → Leads left dst_addr item r
      → follow left dst_addr item ≡ some r
  follow-from left dst_addr item r (on_link h) = follow_here left dst_addr item h
  follow-from (suc left) dst_addr item r (through {next = next} h found l) =
      follow_gateway left dst_addr item next h found ∙ follow-from left item.gateway next r l

  stop :
      (left dst_addr : ℕ) (item : Item Net) (r : ℕ × Item Net)
      → item.gateway ≡ unspecified
      → follow left dst_addr item ≡ some r
      → Leads left dst_addr item r
  stop left dst_addr item r z h =
      subst (λ q. Leads left dst_addr item q) (unsome (sym (follow_here left dst_addr item z) ∙ h))
        (on_link z)

  follow-to :
      (left dst_addr : ℕ) (item : Item Net) (r : ℕ × Item Net)
      → follow left dst_addr item ≡ some r
      → Leads left dst_addr item r
  follow-to zero dst_addr item r h = elim (ℕ_discrete item.gateway unspecified) [
    | yes z ↦ stop 0 dst_addr item r z h
    | no z ↦ (none-absurd (sym (follow_zero dst_addr item z) ∙ h))
  ]
  follow-to (suc left) dst_addr item r h = elim (ℕ_discrete item.gateway unspecified) [
    | yes z ↦ stop (suc left) dst_addr item r z h
    | no z ↦ elim (Option-cases (rt.find table src item.gateway)) [
      | inl lost ↦ (none-absurd (sym (follow_lost left dst_addr item z lost) ∙ h))
      | inr (next, found) ↦ through z found (
          follow-to left item.gateway next r
            (sym (follow_gateway left dst_addr item next z found) ∙ h))
    ]
  ]

  find_route-first :
      (dst_addr : ℕ) (item : Item Net)
      → rt.find table src dst_addr ≡ some item
      → find_route dst_addr ≡ follow 5 dst_addr item
  unfolding find_route
  find_route-first dst_addr item found = ground (arith, found)

  find_route-lost : (dst_addr : ℕ) → rt.find table src dst_addr ≡ none → find_route dst_addr ≡ none
  unfolding find_route
  find_route-lost dst_addr lost = ground (arith, lost)

  -- `find_route` returns an address and an entry exactly if the lookup of the destination gives an
  -- entry from which at most five gateways lead to them.
  pub find_route-Leads :
      (dst_addr : ℕ) (r : ℕ × Item Net)
      → (find_route dst_addr ≡ some r)
        ↔ ((item : Item Net) × (rt.find table src dst_addr ≡ some item) × Leads 5 dst_addr item r)
  find_route-Leads dst_addr r = (
    λ h. elim (Option-cases (rt.find table src dst_addr)) [
      | inl lost ↦ (none-absurd (sym (find_route-lost dst_addr lost) ∙ h))
      | inr (item, found) ↦ (
        item,
        found,
        follow-to 5 dst_addr item r (sym (find_route-first dst_addr item found) ∙ h),
      )
    ],
    λ (item, found, l). find_route-first dst_addr item found ∙ follow-from 5 dst_addr item r l,
  )

  lead-on_link :
      (left dst_addr : ℕ) (item : Item Net) (r : ℕ × Item Net)
      → rt.find table src dst_addr ≡ some item
      → Leads left dst_addr item r
      → (rt.find table src r.0 ≡ some r.1) × (r.1.gateway ≡ unspecified)
  lead-on_link left dst_addr item r found (on_link h) = (found, h)
  lead-on_link (suc left) dst_addr item r found (through {next = next} h found' l) =
      lead-on_link left item.gateway next r found' l

  -- An address and an entry that `find_route` returns belong together: the lookup of the address
  -- gives the entry, and the entry has no gateway.
  pub find_route-on_link :
      (dst_addr : ℕ) (r : ℕ × Item Net)
      → find_route dst_addr ≡ some r
      → (rt.find table src r.0 ≡ some r.1) × (r.1.gateway ≡ unspecified)
  find_route-on_link dst_addr r h =
      let (item, found, l) = (find_route-Leads dst_addr r).0 h in
      lead-on_link 5 dst_addr item r found l
