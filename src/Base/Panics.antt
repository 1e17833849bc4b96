-- ===== src/Base/Panics.antt =====
-- What a call comes to: a value, or a panic. A failed assertion, an `expect` on `None`, an index
-- out of range and, in the dev profile, an arithmetic overflow are panics.
use mathlib.Core.Logic.{◌⊎◌, inl, inr}
use mathlib.Core.Bool.{Bool, true, false}
use mathlib.Core.Option.{Option, none, some}
use mathlib.Core.Path.{◌≡◌, refl, sym, ap, ◌∙◌, subst}

pub data Outcome {ℓ} (A : Type ℓ) : Type ℓ where
  done : A → Outcome A
  panic : Outcome A

infixl 5 ◌>>=◌ ◌>>◌
abbrev pub ◌>>=◌ {ℓ κ} : {A : Type ℓ} {B : Type κ} → Outcome A → (A → Outcome B) → Outcome B
done a >>= f = f a
panic >>= f = panic

abbrev pub ◌>>◌ {ℓ} : {B : Type ℓ} → Outcome (Unit {0}) → Outcome B → Outcome B
m >> k = m >>= λ _. k

-- `assert!`
abbrev pub assert : Bool → Outcome (Unit {0})
assert true = done tt
assert false = panic

-- `Option::expect`
abbrev pub expect {ℓ} : {A : Type ℓ} → Option A → Outcome A
expect none = panic
expect (some a) = done a

from_done {ℓ} : {A : Type ℓ} → A → Outcome A → A
from_done a (done b) = b
from_done a panic = a

-- A call returns one value.
pub done_injective {ℓ} : {A : Type ℓ} (a b : A) → done a ≡ done b → a ≡ b
unfolding from_done
done_injective a b e = ap (from_done a) e

Returns {ℓ} : {A : Type ℓ} → Outcome A → Type 0
Returns (done a) = Unit
Returns panic = ⊥

-- If two calls in a row return, the first does.
pub bind_done {ℓ κ} :
    {A : Type ℓ} {B : Type κ} (o : Outcome A) (f : A → Outcome B) (b : B)
    → (o >>= f) ≡ done b
    → (a : A) × (o ≡ done a) × (f a ≡ done b)
unfolding Returns
bind_done (done a) f b e = (a, refl, e)
bind_done panic f b e = absurd (subst Returns (sym e) tt)

pub done_or_panic {ℓ} : {A : Type ℓ} (o : Outcome A) (a : A) → o ≡ done a → o ≡ panic → ⊥
unfolding Returns
done_or_panic o a e f = subst Returns (sym e ∙ f) tt

pub assert_done : (b : Bool) (t : Unit {0}) → assert b ≡ done t → b ≡ true
assert_done true t e = refl
assert_done false t e = absurd (done_or_panic panic t e refl)

Finds {ℓ} : {A : Type ℓ} → Outcome (Option A) → Type 0
Finds (done (some a)) = Unit
Finds (done none) = ⊥
Finds panic = ⊥

-- A call that returns something does not return nothing.
pub some_or_none {ℓ} :
    {A : Type ℓ} (o : Outcome (Option A)) (a : A) → o ≡ done (some a) → o ≡ done none → ⊥
unfolding Finds
some_or_none o a e f = subst Finds (sym e ∙ f) tt

pub found_cases {ℓ} :
    {A : Type ℓ} (o : Outcome (Option A))
    → (o ≡ panic) ⊎ (o ≡ done none) ⊎ ((a : A) × (o ≡ done (some a)))
found_cases panic = inl refl
found_cases (done none) = inr (inl refl)
found_cases (done (some a)) = inr (inr (a, refl))
