-- ===== src/Routing/Hash/View.antt =====
-- The array table as a function from networks, which is what src/routing_table/hash.rs keeps.
use fubuki_test.Base.{
  ℕ, zero, suc, ◌≡◌, refl, sym, ◌∙◌, subst, inl, inr, true, false, Bool-cases, Option, none, some,
  [], ◌∷◌, All, All-insert_at, All-remove_at, insert_at, remove_at, if◌then◌else◌, arith,
}
use mathlib.Core.Path.{fun_ext}
use fubuki_test.Ipnet.{IpNet, IsIpNet}
use fubuki_test.Routing.{Item}
use fubuki_test.Routing.Array as Array
use fubuki_test.Routing.Array.{ArrayRoutingTable}
use fubuki_test.Routing.Hash as Hash
use fubuki_test.Routing.Hash.{HashRoutingTable}

module _ {Net : Type 0} (ip : IpNet Net) where
  open ip use {same}

  -- The first entry of a network.
  abbrev pub view : ArrayRoutingTable Net → HashRoutingTable Net
  view [] c = none
  view (v ∷ vs) c = if same v.cidr c then some v else view vs c

  abbrev pub IsFresh : Net → ArrayRoutingTable Net → Type 0
  IsFresh cidr vs = All (λ v. same v.cidr cidr ≡ false) vs

  -- No two entries have the same network.
  abbrev pub AreDistinct : ArrayRoutingTable Net → Type 0
  AreDistinct [] = Unit
  AreDistinct (v ∷ vs) = IsFresh v.cidr vs × AreDistinct vs

module _ {Net : Type 0} {ip : IpNet Net} (laws : IsIpNet ip) where
  open ip use {same}

  same_sym : (a b : Net) → same a b ≡ false → same b a ≡ false
  same_sym a b h = ground (arith, laws.same_iff a b, laws.same_iff b a)

  same_both : (a b c : Net) → same a b ≡ false → same a c ≡ true → same b c ≡ false
  same_both a b c h k = subst (λ x. same b x ≡ false) ((laws.same_iff a c).0 k) (same_sym a b h)

  view-insert :
      (i : ℕ) (item : Item Net) (vs : ArrayRoutingTable Net) (c : Net)
      → IsFresh ip item.cidr vs
      → view ip (insert_at i item vs) c ≡ Hash.insert ip item.cidr item (view ip vs) c
  view-insert zero item vs c h = refl
  view-insert (suc i) item [] c h = refl
  view-insert (suc i) item (v ∷ vs) c (other, h) = elim (Bool-cases (same v.cidr c)) [
    | inl this ↦ rw this (rw (same_both v.cidr item.cidr c other this) refl)
    | inr not_this ↦ rw not_this (view-insert i item vs c h)
  ]

  -- Adding an entry for a network that the array does not have is `HashMap::insert`.
  pub view-add :
      (item : Item Net) (vs : ArrayRoutingTable Net)
      → IsFresh ip item.cidr vs
      → view ip (Array.add ip item vs) ≡ Hash.add ip item (view ip vs)
  unfolding Array.add Hash.add
  view-add item vs h = fun_ext λ c. view-insert _ item vs c h

  insert-AreDistinct :
      (i : ℕ) (item : Item Net) (vs : ArrayRoutingTable Net)
      → IsFresh ip item.cidr vs
      → AreDistinct ip vs
      → AreDistinct ip (insert_at i item vs)
  insert-AreDistinct zero item vs h d = (h, d)
  insert-AreDistinct (suc i) item [] h d = (tt, tt)
  insert-AreDistinct (suc i) item (v ∷ vs) (other, h) (apart, d) = (
    All-insert_at (λ w. same w.cidr v.cidr ≡ false) i item vs (same_sym v.cidr item.cidr other)
        apart,
    insert-AreDistinct i item vs h d,
  )

  pub add-AreDistinct :
      (item : Item Net) (vs : ArrayRoutingTable Net)
      → IsFresh ip item.cidr vs
      → AreDistinct ip vs
      → AreDistinct ip (Array.add ip item vs)
  unfolding Array.add
  add-AreDistinct item vs h d = insert-AreDistinct _ item vs h d

  remove_at-AreDistinct :
      (i : ℕ) (vs : ArrayRoutingTable Net) → AreDistinct ip vs → AreDistinct ip (remove_at i vs)
  remove_at-AreDistinct i [] d = tt
  remove_at-AreDistinct zero (v ∷ vs) (apart, d) = d
  remove_at-AreDistinct (suc i) (v ∷ vs) (apart, d) =
      (All-remove_at (λ w. same w.cidr v.cidr ≡ false) i vs apart, remove_at-AreDistinct i vs d)

  remove_index-AreDistinct :
      (o : Option ℕ) (vs : ArrayRoutingTable Net)
      → AreDistinct ip vs
      → AreDistinct ip (Array.remove_index ip vs o).1
  remove_index-AreDistinct none vs d = d
  remove_index-AreDistinct (some i) vs d = remove_at-AreDistinct i vs d

  pub remove-AreDistinct :
      (cidr : Net) (vs : ArrayRoutingTable Net)
      → AreDistinct ip vs
      → AreDistinct ip (Array.remove ip cidr vs).1
  unfolding Array.remove
  remove-AreDistinct cidr vs d = remove_index-AreDistinct _ vs d

  fresh-view :
      (cidr : Net) (vs : ArrayRoutingTable Net) → IsFresh ip cidr vs → view ip vs cidr ≡ none
  fresh-view cidr [] h = refl
  fresh-view cidr (v ∷ vs) (other, h) = rw other (fresh-view cidr vs h)

  skip :
      (v : Item Net) (vs : ArrayRoutingTable Net) (o : Option ℕ)
      → Array.remove_index ip (v ∷ vs) (elim o [ none ↦ none | some i ↦ some (suc i) ])
        ≡ ((Array.remove_index ip vs o).0, v ∷ (Array.remove_index ip vs o).1)
  skip v vs none = refl
  skip v vs (some i) = refl

  abbrev Removes : Net → ArrayRoutingTable Net → Option (Item Net) × ArrayRoutingTable Net → Type 0
  Removes cidr vs r =
      (r.0 ≡ view ip vs cidr) × ((c : Net) → view ip r.1 c ≡ Hash.erase ip cidr (view ip vs) c)

  remove_later :
      (cidr : Net) (v : Item Net) (vs : ArrayRoutingTable Net)
      → same v.cidr cidr ≡ false
      → Array.remove ip cidr (v ∷ vs)
        ≡ ((Array.remove ip cidr vs).0, v ∷ (Array.remove ip cidr vs).1)
  unfolding Array.remove Array.position
  remove_later cidr v vs h =
      rw h (skip v vs (Array.position (λ (w : Item Net). same w.cidr cidr) vs))

  remove_first :
      (cidr : Net) (v : Item Net) (vs : ArrayRoutingTable Net)
      → same v.cidr cidr ≡ true
      → Array.remove ip cidr (v ∷ vs) ≡ (some v, vs)
  unfolding Array.remove Array.position
  remove_first cidr v vs h = rw h refl

  first-Removes :
      (v : Item Net) (vs : ArrayRoutingTable Net)
      → IsFresh ip v.cidr vs
      → Removes v.cidr (v ∷ vs) (some v, vs)
  first-Removes v vs apart = (
    rw ((laws.same_iff v.cidr v.cidr).1 refl) refl,
    λ c. elim (Bool-cases (same v.cidr c)) [
      | inl this ↦
          subst (λ x. view ip vs x ≡ none) ((laws.same_iff v.cidr c).0 this)
            (fresh-view v.cidr vs apart)
          ∙ rw this refl
      | inr other ↦ rw other refl
    ],
  )

  later-Removes :
      (cidr : Net) (v : Item Net) (vs : ArrayRoutingTable Net)
      (r : Option (Item Net) × ArrayRoutingTable Net)
      → same v.cidr cidr ≡ false
      → Removes cidr vs r
      → Removes cidr (v ∷ vs) (r.0, v ∷ r.1)
  later-Removes cidr v vs r h (out, rest) = (
    rw h out,
    λ c. elim (Bool-cases (same v.cidr c)) [
      | inl this ↦ rw this (rw (same_both v.cidr cidr c h this) refl)
      | inr other ↦ rw other (rest c)
    ],
  )

  remove-Removes :
      (cidr : Net) (vs : ArrayRoutingTable Net)
      → AreDistinct ip vs
      → Removes cidr vs (Array.remove ip cidr vs)
  unfolding Array.remove Array.position
  remove-Removes cidr [] d = (refl, λ c. ground arith)
  remove-Removes cidr (v ∷ vs) (apart, d) = elim (Bool-cases (same v.cidr cidr)) [
    | inl this ↦
        subst (λ x. Removes x (v ∷ vs) (Array.remove ip x (v ∷ vs)))
          ((laws.same_iff v.cidr cidr).0 this)
          (subst (Removes v.cidr (v ∷ vs))
            (sym (remove_first v.cidr v vs ((laws.same_iff v.cidr v.cidr).1 refl)))
            (first-Removes v vs apart))
    | inr other ↦
        subst (Removes cidr (v ∷ vs)) (sym (remove_later cidr v vs other))
          (later-Removes cidr v vs (Array.remove ip cidr vs) other (remove-Removes cidr vs d))
  ]

  -- Removing a network from an array without duplicates is `HashMap::remove`, with what it returns.
  pub view-remove :
      (cidr : Net) (vs : ArrayRoutingTable Net)
      → AreDistinct ip vs
      → ((Array.remove ip cidr vs).0 ≡ (Hash.remove ip cidr (view ip vs)).0)
        × (view ip (Array.remove ip cidr vs).1 ≡ (Hash.remove ip cidr (view ip vs)).1)
  unfolding Hash.remove
  view-remove cidr vs d = let (out, rest) = remove-Removes cidr vs d in (out, fun_ext rest)
