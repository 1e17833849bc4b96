-- ===== src/Base/Lists.antt =====
-- Lists measured and indexed by native numbers, under the library's names.
use Prim.Native.Nat.{ℕ, zero, suc, ◌+◌, ◌<◌}
use mathlib.Core.Path.{◌≡◌, refl, ap, sym, subst}
use mathlib.Core.Logic.{◌≢◌}
use mathlib.Core.List.{List, [], ◌∷◌, ◌++◌}
use mathlib.Core.Option.{Option, none, some}
use native.Mathlib.Omega.{arith}

module _ {ℓ} {A : Type ℓ} where
  abbrev pub length : List A → ℕ
  length [] = 0
  length (x ∷ xs) = suc (length xs)

  abbrev pub get_elem? : List A → ℕ → Option A
  get_elem? [] i = none
  get_elem? (x ∷ xs) zero = some x
  get_elem? (x ∷ xs) (suc i) = get_elem? xs i

  -- A write out of bounds changes nothing.
  abbrev pub set : List A → ℕ → A → List A
  set [] i v = []
  set (x ∷ xs) zero v = v ∷ xs
  set (x ∷ xs) (suc i) v = x ∷ set xs i v

  abbrev pub replicate : ℕ → A → List A
  replicate zero a = []
  replicate (suc n) a = a ∷ replicate n a

  abbrev pub get_or : List A → ℕ → A → A
  get_or [] i d = d
  get_or (x ∷ xs) zero d = x
  get_or (x ∷ xs) (suc i) d = get_or xs i d

  pub length-append : (xs ys : List A) → length (xs ++ ys) ≡ length xs + length ys
  length-append [] ys = omega arith
  length-append (x ∷ xs) ys = omega (arith, length-append xs ys)

module _ {ℓ} {A : Type ℓ} where
  pub length-replicate : (n : ℕ) (a : A) → length (replicate n a) ≡ n
  length-replicate zero a = refl
  length-replicate (suc n) a = ap suc (length-replicate n a)

  pub length-set : (xs : List A) (i : ℕ) (v : A) → length (set xs i v) ≡ length xs
  length-set [] i v = refl
  length-set (x ∷ xs) zero v = refl
  length-set (x ∷ xs) (suc i) v = ap suc (length-set xs i v)

  pub get_or-set_self :
      (xs : List A) (i : ℕ) (v d : A) → i < length xs → get_or (set xs i v) i d ≡ v
  get_or-set_self [] i v d h = elim h [ ]
  get_or-set_self (x ∷ xs) zero v d h = refl
  get_or-set_self (x ∷ xs) (suc i) v d h = get_or-set_self xs i v d (omega arith)

  pub get_or-set_ne :
      (xs : List A) (i j : ℕ) (v d : A) → i ≢ j → get_or (set xs i v) j d ≡ get_or xs j d
  get_or-set_ne [] i j v d h = refl
  get_or-set_ne (x ∷ xs) zero zero v d h = absurd (h refl)
  get_or-set_ne (x ∷ xs) zero (suc j) v d h = refl
  get_or-set_ne (x ∷ xs) (suc i) zero v d h = refl
  get_or-set_ne (x ∷ xs) (suc i) (suc j) v d h = get_or-set_ne xs i j v d (λ e. h (ap suc e))

  pub get_or-replicate : (n i : ℕ) (a d : A) → i < n → get_or (replicate n a) i d ≡ a
  get_or-replicate zero i a d h = elim h [ ]
  get_or-replicate (suc n) zero a d h = refl
  get_or-replicate (suc n) (suc i) a d h = get_or-replicate n i a d (omega arith)

-- Each item has the property.
abbrev pub All {ℓ κ} : {A : Type ℓ} → (A → Type κ) → List A → Type κ
All P [] = Unit
All P (x ∷ xs) = P x × All P xs

pub All-mono {ℓ κ} :
    {A : Type ℓ} (P Q : A → Type κ) (xs : List A) → ((x : A) → P x → Q x) → All P xs → All Q xs
All-mono P Q [] f h = h
All-mono P Q (x ∷ xs) f h = (f x h.0, All-mono P Q xs f h.1)

-- `i` is not among the numbers.
abbrev pub Fresh : ℕ → List ℕ → Type 0
Fresh i [] = Unit
Fresh i (j ∷ js) = (i ≢ j) × Fresh i js

abbrev pub Distinct : List ℕ → Type 0
Distinct [] = Unit
Distinct (i ∷ is) = Fresh i is × Distinct is

-- A property that holds of the items and not of `i` keeps `i` apart from them.
pub Fresh-of_All {κ} : (P : ℕ → Type κ) (i : ℕ) (xs : List ℕ) → ¬ P i → All P xs → Fresh i xs
Fresh-of_All P i [] n h = tt
Fresh-of_All P i (x ∷ xs) n h = ((λ e. n (subst P (sym e) h.0)), Fresh-of_All P i xs n h.1)

-- `Vec::remove`
abbrev pub remove_at {ℓ} : {A : Type ℓ} → ℕ → List A → List A
remove_at k [] = []
remove_at zero (x ∷ xs) = xs
remove_at (suc k) (x ∷ xs) = x ∷ remove_at k xs

pub All-remove_at {ℓ κ} :
    {A : Type ℓ} (P : A → Type κ) (k : ℕ) (xs : List A) → All P xs → All P (remove_at k xs)
All-remove_at P k [] h = h
All-remove_at P zero (x ∷ xs) h = h.1
All-remove_at P (suc k) (x ∷ xs) h = (h.0, All-remove_at P k xs h.1)

pub Fresh-remove_at : (i k : ℕ) (xs : List ℕ) → Fresh i xs → Fresh i (remove_at k xs)
Fresh-remove_at i k [] h = h
Fresh-remove_at i zero (x ∷ xs) h = h.1
Fresh-remove_at i (suc k) (x ∷ xs) h = (h.0, Fresh-remove_at i k xs h.1)

pub Distinct-remove_at : (k : ℕ) (xs : List ℕ) → Distinct xs → Distinct (remove_at k xs)
Distinct-remove_at k [] h = h
Distinct-remove_at zero (x ∷ xs) h = h.1
Distinct-remove_at (suc k) (x ∷ xs) h = (Fresh-remove_at x k xs h.0, Distinct-remove_at k xs h.1)

pub Fresh-at : (x k : ℕ) (xs : List ℕ) (i : ℕ) → Fresh x xs → get_elem? xs k ≡ some i → x ≢ i
Fresh-at x k [] i h e = cc
Fresh-at x zero (y ∷ xs) i h e = let same : y ≡ i = cc in subst (λ z. x ≢ z) same h.0
Fresh-at x (suc k) (y ∷ xs) i h e = Fresh-at x k xs i h.1 e

-- What is removed is apart from what is left.
pub Fresh-removed :
    (i k : ℕ) (xs : List ℕ) → Distinct xs → get_elem? xs k ≡ some i → Fresh i (remove_at k xs)
Fresh-removed i k [] d e = cc
Fresh-removed i zero (x ∷ xs) d e = let same : x ≡ i = cc in subst (λ y. Fresh y xs) same d.0
Fresh-removed i (suc k) (x ∷ xs) d e =
    ((λ same. Fresh-at x k xs i d.0 e (sym same)), Fresh-removed i k xs d.1 e)

pub All-at {ℓ κ} :
    {A : Type ℓ} (P : A → Type κ) (k : ℕ) (xs : List A) (x : A)
    → All P xs
    → get_elem? xs k ≡ some x
    → P x
All-at P k [] x h e = cc
All-at P zero (y ∷ xs) x h e = let same : y ≡ x = cc in subst P same h.0
All-at P (suc k) (y ∷ xs) x h e = All-at P k xs x h.1 e

pub length-remove_at {ℓ} :
    {A : Type ℓ} (k : ℕ) (xs : List A) (x : A)
    → get_elem? xs k ≡ some x
    → suc (length (remove_at k xs)) ≡ length xs
length-remove_at k [] x e = cc
length-remove_at zero (y ∷ xs) x e = refl
length-remove_at (suc k) (y ∷ xs) x e = ap suc (length-remove_at k xs x e)

abbrev pub take {ℓ} : {A : Type ℓ} → ℕ → List A → List A
take zero xs = []
take (suc n) [] = []
take (suc n) (x ∷ xs) = x ∷ take n xs

pub Fresh-append : (i : ℕ) (xs ys : List ℕ) → Fresh i (xs ++ ys) → Fresh i xs × Fresh i ys
Fresh-append i [] ys h = (tt, h)
Fresh-append i (x ∷ xs) ys h = let (p, q) = Fresh-append i xs ys h.1 in ((h.0, p), q)

module _ {κ} (P : ℕ → Type κ) where
  -- The first item, moved behind `xs`.
  pub All-moved : (i : ℕ) (xs ys : List ℕ) → All P (i ∷ xs ++ ys) → All P (xs ++ i ∷ ys)
  All-moved i [] ys h = h
  All-moved i (x ∷ xs) ys h = (h.1.0, All-moved i xs ys (h.0, h.1.1))

pub Fresh-moved : (j i : ℕ) (xs ys : List ℕ) → j ≢ i → Fresh j (xs ++ ys) → Fresh j (xs ++ i ∷ ys)
Fresh-moved j i [] ys n h = (n, h)
Fresh-moved j i (x ∷ xs) ys n h = (h.0, Fresh-moved j i xs ys n h.1)

pub Distinct-moved : (i : ℕ) (xs ys : List ℕ) → Distinct (i ∷ xs ++ ys) → Distinct (xs ++ i ∷ ys)
Distinct-moved i [] ys h = h
Distinct-moved i (x ∷ xs) ys h =
    (Fresh-moved x i xs ys (λ e. h.0.0 (sym e)) h.1.0, Distinct-moved i xs ys (h.0.1, h.1.1))
