-- ===== src/Routing/Hash/Search.antt =====
-- The loop of `HashRoutingTable::find` (src/routing_table/hash.rs) over the entries of an array table.
use fubuki_test.Base.{
  ℕ, zero, suc, ◌≤◌, ◌<◌, ◌≡◌, refl, sym, ap, ◌∙◌, subst, ◌⊎◌, inl, inr, true, false, Bool-cases,
  Option, none, some, Option-cases, [], ◌∷◌, All, arith, ok, unsome, none-absurd, ℕ_discrete,
}
use fubuki_test.Ipnet.{IpNet, IsIpNet}
use fubuki_test.Routing.{Item}
use fubuki_test.Routing.External.{NetParts}
use fubuki_test.Routing.Array as Array
use fubuki_test.Routing.Array.{ArrayRoutingTable}
use fubuki_test.Routing.Array.Lookup.{IsLongestMatch}
use fubuki_test.Routing.Hash.{HashRoutingTable, find_below, find}
use fubuki_test.Routing.Hash.Masks.{IsMasked, trunc_covering, trunc_contains}
use fubuki_test.Routing.Hash.View.{view}

module _ {Net : Type 0} (ip : IpNet Net) where
  -- What holds of every entry holds of the one that a network gives, which has that network.
  view-All :
      (laws : IsIpNet ip) (P : Item Net → Type 0) (vs : ArrayRoutingTable Net) (c : Net)
      (w : Item Net)
      → All P vs
      → view ip vs c ≡ some w
      → P w × (w.cidr ≡ c)
  view-All laws P [] c w ps h = none-absurd h
  view-All laws P (v ∷ vs) c w (p, ps) h = elim (Bool-cases (ip.same v.cidr c)) [
    | inl this ↦
        let e : v ≡ w = unsome (sym (rw this refl) ∙ h) in
        subst (λ x. P x × (x.cidr ≡ c)) e (p, (laws.same_iff v.cidr c).0 this)
    | inr other ↦ view-All laws P vs c w ps (sym (rw other refl) ∙ h)
  ]

  found_view :
      (laws : IsIpNet ip) (vs : ArrayRoutingTable Net) (src to : ℕ) (v : Item Net)
      → ip.contains v.cidr to ≡ true
      → Array.find ip vs src to ≡ some v
      → view ip vs v.cidr ≡ some v
  unfolding Array.find
  found_view laws [] src to v c h = none-absurd h
  found_view laws (w ∷ vs) src to v c h = elim (Bool-cases (ip.contains w.cidr to)) [
    | inl this ↦
        let e : w ≡ v = unsome (sym (rw this refl) ∙ h) in
        subst (λ x. view ip (w ∷ vs) x.cidr ≡ some x) e
          (rw ((laws.same_iff w.cidr w.cidr).1 refl) refl)
    | inr other ↦ elim (Bool-cases (ip.same w.cidr v.cidr)) [
      | inl this ↦ absurd (
          ground (
            arith,
            subst (λ x. ip.contains x to ≡ false) ((laws.same_iff w.cidr v.cidr).0 this) other,
            c,
          ))
      | inr apart ↦ rw apart (found_view laws vs src to v c (sym (rw other refl) ∙ h))
    ]
  ]

module _ {Net : Type 0} {ip : IpNet Net} {parts : NetParts Net} {trunc : Net → Net}
    (laws : IsIpNet ip) (masks : IsMasked ip parts trunc) where
  -- One pass of the loop, by what the table has for the network that it tries.
  pass_miss :
      (len : ℕ) (m : HashRoutingTable Net) (to : ℕ) (n : Net)
      → parts.new to len ≡ some n
      → m (trunc n) ≡ none
      → find_below parts trunc (suc len) m to ≡ find_below parts trunc len m to
  unfolding find_below
  pass_miss len m to n made miss = rw made (rw miss refl)

  pass_hit :
      (len : ℕ) (m : HashRoutingTable Net) (to : ℕ) (n : Net) (v : Item Net)
      → parts.new to len ≡ some n
      → m (trunc n) ≡ some v
      → find_below parts trunc (suc len) m to ≡ ok (some v)
  unfolding find_below
  pass_hit len m to n v made hit = rw made (rw hit refl)

  -- An entry that a pass finds contains the address, and has the prefix length of the pass.
  hit_entry :
      (P : Item Net → Type 0) (vs : ArrayRoutingTable Net) (n : Net) (w : Item Net)
      → All P vs
      → view ip vs (trunc n) ≡ some w
      → P w × (ip.contains w.cidr (parts.addr n) ≡ true) × (ip.prefix_len w.cidr ≡ ip.prefix_len n)
  hit_entry P vs n w ps h =
      let (p, e) = view-All ip laws P vs (trunc n) w ps h in
      (
        p,
        ap (λ c. ip.contains c (parts.addr n)) e ∙ trunc_contains laws masks n,
        ap ip.prefix_len e ∙ (masks.trunc_parts n).1,
      )

  find_nothing :
      (bound : ℕ) (vs : ArrayRoutingTable Net) (to : ℕ)
      → bound ≤ 33
      → All (λ w. ip.contains w.cidr to ≡ false) vs
      → find_below parts trunc bound (view ip vs) to ≡ ok none
  unfolding find_below
  find_nothing zero vs to le h = refl
  find_nothing (suc len) vs to le h =
      let (n, made, a, l) = masks.new_parts to len (omega arith) in
      elim (Option-cases (view ip vs (trunc n))) [
        | inl miss ↦
            pass_miss len (view ip vs) to n made miss ∙ find_nothing len vs to (omega arith) h
        | inr (w, hit) ↦
            let (p, c, q) = hit_entry (λ x. ip.contains x.cidr to ≡ false) vs n w h hit in
            absurd (ground (arith, subst (λ x. ip.contains w.cidr x ≡ true) a c, p))
      ]

  find_longest :
      (bound : ℕ) (vs : ArrayRoutingTable Net) (to : ℕ) (v : Item Net)
      → bound ≤ 33
      → ip.prefix_len v.cidr < bound
      → trunc v.cidr ≡ v.cidr
      → ip.contains v.cidr to ≡ true
      → view ip vs v.cidr ≡ some v
      → All
          (λ w. (ip.contains w.cidr to ≡ false) ⊎ (ip.prefix_len w.cidr ≤ ip.prefix_len v.cidr))
          vs
      → find_below parts trunc bound (view ip vs) to ≡ ok (some v)
  find_longest zero vs to v le lt t c own h = absurd (omega arith)
  find_longest (suc len) vs to v le lt t c own h =
      let (n, made, a, l) = masks.new_parts to len (omega arith) in
      elim (ℕ_discrete (ip.prefix_len v.cidr) len) [
        | yes e ↦
            let same_net : trunc n ≡ v.cidr =
              trunc_covering laws masks v.cidr n t (l ∙ sym e)
                (subst (λ x. ip.contains v.cidr x ≡ true) (sym a) c) in
            pass_hit len (view ip vs) to n v made (ap (view ip vs) same_net ∙ own)
        | no shorter ↦ elim (Option-cases (view ip vs (trunc n))) [
          | inl miss ↦
              pass_miss len (view ip vs) to n made miss
              ∙ find_longest len vs to v (omega arith) (omega arith) t c own h
          | inr (w, hit) ↦
              let (p, cw, q) =
                hit_entry
                  (λ x.
                    (ip.contains x.cidr to ≡ false) ⊎ (ip.prefix_len x.cidr ≤ ip.prefix_len v.cidr))
                  vs n w h hit in
              absurd (ground (arith, subst (λ x. ip.contains w.cidr x ≡ true) a cw, p))
        ]
      ]

  pub find_either :
      (vs : ArrayRoutingTable Net) (src to : ℕ) (r : Option (Item Net))
      → All (λ v. trunc v.cidr ≡ v.cidr) vs
      → IsLongestMatch ip vs to r
      → Array.find ip vs src to ≡ r
      → find parts trunc (view ip vs) src to ≡ ok r
  unfolding find
  find_either vs src to none ts h e = find_nothing 33 vs to (omega arith) h
  find_either vs src to (some v) ts (_, c, h) e =
      let own = found_view ip laws vs src to v c e in
      let (t, same_net) = view-All ip laws (λ w. trunc w.cidr ≡ w.cidr) vs v.cidr v ts own in
      find_longest 33 vs to v (omega arith) (omega (arith, masks.prefix_le v.cidr)) t c own h
