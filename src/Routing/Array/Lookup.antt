-- ===== src/Routing/Array/Lookup.antt =====
-- What `find` returns, and what `add` and `remove` change about it.
use mathlib.Core.List.{Memᴰ}
use fubuki_test.Base.{
  ℕ, zero, suc, ◌≤◌, ◌≡◌, refl, ap, ap₂, ◌∙◌, ◌⊎◌, inl, inr, Bool, true, false, Bool-cases, Option,
  none, some, [], ◌∷◌, All, All-map, leb, insert_at, remove_at, get_elem?, if◌then◌else◌, arith,
}
use fubuki_test.Ipnet.{IpNet, IsIpNet}
use fubuki_test.Routing.{Item}
use fubuki_test.Routing.Array.{
  partition_point, position, ArrayRoutingTable, add, remove, remove_index, find,
}
use fubuki_test.Routing.Array.Order.{IsBelow, IsSorted, insertion_index}

module _ {Net : Type 0} (ip : IpNet Net) where
  open ip use {prefix_len, same, contains}

  -- No entry matches, or the result is an entry that matches and every other entry that does has no longer prefix.
  abbrev pub IsLongestMatch : ArrayRoutingTable Net → ℕ → Option (Item Net) → Type 0
  IsLongestMatch vs to none = All (λ w. contains w.cidr to ≡ false) vs
  IsLongestMatch vs to (some v) =
      Memᴰ v vs
      × (contains v.cidr to ≡ true)
      × All (λ w. (contains w.cidr to ≡ false) ⊎ (prefix_len w.cidr ≤ prefix_len v.cidr)) vs

  skip_entry :
      (v : Item Net) (vs : ArrayRoutingTable Net) (to : ℕ) (o : Option (Item Net))
      → contains v.cidr to ≡ false
      → IsLongestMatch vs to o
      → IsLongestMatch (v ∷ vs) to o
  skip_entry v vs to none fail h = (fail, h)
  skip_entry v vs to (some w) fail (m, c, h) = (Memᴰ.tail m, c, (inl fail, h))

  -- In a table kept in order, the lookup returns an entry of the table whose network contains the address with a
  -- prefix that no matching entry exceeds, and returns nothing only if no network contains it.
  pub find-IsLongestMatch :
      (vs : ArrayRoutingTable Net) (src to : ℕ)
      → IsSorted ip vs
      → IsLongestMatch vs to (find ip vs src to)
  unfolding find
  find-IsLongestMatch [] src to h = tt
  find-IsLongestMatch (v ∷ vs) src to (below, h) = elim (Bool-cases (contains v.cidr to)) [
    | inl pass ↦
        rw pass (
          Memᴰ.head refl,
          pass,
          (inr (omega arith), All-map (IsBelow ip v) (λ w q. inr q) vs below),
        )
    | inr fail ↦
        rw fail (skip_entry v vs to (find ip vs src to) fail (find-IsLongestMatch vs src to h))
  ]

  -- The entry that a lookup prefers, of the new one and the one found before.
  abbrev pub prefer : Item Net → ℕ → Option (Item Net) → Option (Item Net)
  prefer item to none = if contains item.cidr to then some item else none
  prefer item to (some v) =
      if contains item.cidr to
      then (if leb (prefix_len item.cidr) (prefix_len v.cidr) then some v else some item)
      else some v

  prefer_head :
      (item v : Item Net) (vs : ArrayRoutingTable Net) (src to : ℕ)
      → leb (prefix_len item.cidr) (prefix_len v.cidr) ≡ false
      → All (IsBelow ip v) vs
      → find ip (item ∷ vs) src to ≡ prefer item to (find ip vs src to)
  unfolding find
  prefer_head item v [] src to fail below = refl
  prefer_head item v (w ∷ vs) src to fail (le, below) =
      let fail' : leb (prefix_len item.cidr) (prefix_len w.cidr) ≡ false = ground arith in
      ground (arith, prefer_head item v vs src to fail below)

  find_insert :
      (item : Item Net) (vs : ArrayRoutingTable Net) (src to : ℕ)
      → IsSorted ip vs
      → find ip (insert_at (insertion_index ip item vs) item vs) src to
        ≡ prefer item to (find ip vs src to)
  unfolding find partition_point
  find_insert item [] src to h = refl
  find_insert item (v ∷ vs) src to (below, h) =
      elim (Bool-cases (leb (prefix_len item.cidr) (prefix_len v.cidr))) [
        | inl pass ↦ ground (arith, find_insert item vs src to h)
        | inr fail ↦
            rw fail (ground (arith, prefer_head item v (v ∷ vs) src to fail (omega arith, below)))
      ]

  -- In a table kept in order, a lookup after `add` returns the new entry exactly if its network
  -- contains the address and its prefix is longer than that of the entry found before; otherwise
  -- it returns what it returned before.
  pub find-add :
      (item : Item Net) (vs : ArrayRoutingTable Net) (src to : ℕ)
      → IsSorted ip vs
      → find ip (add ip item vs) src to ≡ prefer item to (find ip vs src to)
  unfolding add
  find-add item vs src to h = find_insert item vs src to h

  abbrev position_of : Net → ArrayRoutingTable Net → Option ℕ
  position_of cidr vs = position (λ (v : Item Net). same v.cidr cidr) vs

  position_insert :
      (i : ℕ) (item : Item Net) (vs : ArrayRoutingTable Net)
      → same item.cidr item.cidr ≡ true
      → i ≤ partition_point (λ (v : Item Net). true) vs
      → All (λ v. same v.cidr item.cidr ≡ false) vs
      → position_of item.cidr (insert_at i item vs) ≡ some i
  unfolding position partition_point
  position_insert zero item vs self le h = rw self refl
  position_insert (suc i) item [] self le h = absurd (omega arith)
  position_insert (suc i) item (v ∷ vs) self le (fail, h) =
      rw fail (rw (position_insert i item vs self (omega arith) h) refl)

  partition_point_le :
      (p : Item Net → Bool) (vs : ArrayRoutingTable Net)
      → partition_point p vs ≤ partition_point (λ (v : Item Net). true) vs
  unfolding partition_point
  partition_point_le p [] = omega arith
  partition_point_le p (v ∷ vs) = ground (arith, partition_point_le p vs)

  get-insert_at :
      (i : ℕ) (item : Item Net) (vs : ArrayRoutingTable Net)
      → i ≤ partition_point (λ (v : Item Net). true) vs
      → get_elem? (insert_at i item vs) i ≡ some item
  unfolding partition_point
  get-insert_at zero item vs le = refl
  get-insert_at (suc i) item [] le = absurd (omega arith)
  get-insert_at (suc i) item (v ∷ vs) le = get-insert_at i item vs (omega arith)

  remove_at-insert_at :
      (i : ℕ) (item : Item Net) (vs : ArrayRoutingTable Net)
      → i ≤ partition_point (λ (v : Item Net). true) vs
      → remove_at i (insert_at i item vs) ≡ vs
  unfolding partition_point
  remove_at-insert_at zero item vs le = refl
  remove_at-insert_at (suc i) item [] le = absurd (omega arith)
  remove_at-insert_at (suc i) item (v ∷ vs) le =
      ap (λ l. v ∷ l) (remove_at-insert_at i item vs (omega arith))

  -- Where no entry has the network of a new one, removing that network after `add` returns the new
  -- entry and the table as it was.
  pub remove-add :
      (laws : IsIpNet ip) (item : Item Net) (vs : ArrayRoutingTable Net)
      → All (λ v. same v.cidr item.cidr ≡ false) vs
      → remove ip item.cidr (add ip item vs) ≡ (some item, vs)
  unfolding add remove
  remove-add laws item vs h =
      let i = insertion_index ip item vs in
      let le : i ≤ partition_point (λ (v : Item Net). true) vs =
        partition_point_le (λ v. leb (prefix_len item.cidr) (prefix_len v.cidr)) vs in
      let self : same item.cidr item.cidr ≡ true = (laws.same_iff item.cidr item.cidr).1 refl in
      ap (remove_index ip (insert_at i item vs)) (position_insert i item vs self le h)
      ∙ ap₂ (λ a b. (a, b)) (get-insert_at i item vs le) (remove_at-insert_at i item vs le)
