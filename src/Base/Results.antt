-- ===== src/Base/Results.antt =====
-- A call that returns a value, returns an error, or panics.
use mathlib.Core.Bool.{Bool, true, false}
use mathlib.Core.Path.{Path, ◌≡◌, refl, sym, ap, subst}
use mathlib.Core.Option.{Option, none, some}

pub data Outcome {ℓ} (E A : Type ℓ) : Type ℓ where
  ok : A → Outcome E A
  err : E → Outcome E A
  panic : Outcome E A

infixl 5 ◌>>=◌ ◌>>◌
abbrev pub ◌>>=◌ {ℓ} : {E A B : Type ℓ} → Outcome E A → (A → Outcome E B) → Outcome E B
ok a >>= f = f a
err e >>= f = err e
panic >>= f = panic

abbrev pub ◌>>◌ : {E B : Type 0} → Outcome E (Unit {0}) → Outcome E B → Outcome E B
m >> k = m >>= λ _. k

-- `o.ok_or(e)?`
abbrev pub ok_or {ℓ} : {E A : Type ℓ} → Option A → E → Outcome E A
ok_or none e = err e
ok_or (some a) e = ok a

-- An access that panics where the option is `none`.
abbrev pub unwrap {ℓ} : {E A : Type ℓ} → Option A → Outcome E A
unwrap none = panic
unwrap (some a) = ok a

-- `if !test { return Err(e) }`
abbrev pub ensure : {E : Type 0} → Bool → E → Outcome E (Unit {0})
ensure true e = ok tt
ensure false e = err e

abbrev pub check : {E : Type 0} → Bool → Outcome E (Unit {0})
check true = ok tt
check false = panic

pub ok-inv {ℓ} : {E A : Type ℓ} (d a b : A) → Path (Outcome E A) (ok a) (ok b) → a ≡ b
ok-inv {E = E} {A = A} d a b h = ap value h
  where
    value : Outcome E A → A
    value (ok x) = x
    value (err e) = d
    value panic = d

module _ {E : Type 0} where
  abbrev IsOk : {A : Type 0} → Outcome E A → Type 0
  IsOk (ok a) = Unit
  IsOk (err e) = ⊥
  IsOk panic = ⊥

  ok-IsOk : {A : Type 0} {m : Outcome E A} {a : A} → m ≡ ok a → IsOk m
  ok-IsOk h = subst IsOk (sym h) tt

  -- A chain of calls that returns has a first call that returns.
  pub step-inv :
      {A B : Type 0} (m : Outcome E A) (f : A → Outcome E B) (b : B)
      → (m >>= f) ≡ ok b
      → (a : A) × (m ≡ ok a) × (f a ≡ ok b)
  step-inv (ok a) f b h = (a, refl, h)
  step-inv (err e) f b h = absurd (ok-IsOk h)
  step-inv panic f b h = absurd (ok-IsOk h)

  pub ensure-inv : (b : Bool) (e : E) (u : Unit {0}) → ensure b e ≡ ok u → b ≡ true
  ensure-inv true e u h = refl
  ensure-inv false e u h = absurd (ok-IsOk h)
