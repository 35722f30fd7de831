-- ===== src/Common/Lists.antt =====
-- Byte strings as lists, measured and indexed by native numbers.
use Prim.Native.Nat.{ℕ, zero, suc, ◌+◌, ◌-◌, ◌≤◌, min}
use mathlib.Core.Path.{◌≡◌, refl, ap}
use mathlib.Core.Logic.{◌≢◌}
use mathlib.Core.Option.{Option, none, some}
use mathlib.Core.List.{List, [], ◌∷◌, ◌++◌}
use native.Mathlib.Omega.{arith}

module _ {ℓ} {A : Type ℓ} where
  abbrev pub length : List A → ℕ
  length [] = 0
  length (x ∷ xs) = suc (length xs)

  abbrev pub get_or : List A → ℕ → A → A
  get_or [] i d = d
  get_or (x ∷ xs) zero d = x
  get_or (x ∷ xs) (suc i) d = get_or xs i d

  abbrev pub take : ℕ → List A → List A
  take zero xs = []
  take (suc n) [] = []
  take (suc n) (x ∷ xs) = x ∷ take n xs

  abbrev pub drop : ℕ → List A → List A
  drop zero xs = xs
  drop (suc n) [] = []
  drop (suc n) (x ∷ xs) = drop n xs

  abbrev pub All {κ} : (A → Type κ) → List A → Type κ
  All P [] = Unit {κ}
  All P (x ∷ xs) = P x × All P xs

  pub length-append : (xs ys : List A) → length (xs ++ ys) ≡ length xs + length ys
  length-append [] ys = omega arith
  length-append (x ∷ xs) ys = omega (arith, length-append xs ys)

  pub length-take : (n : ℕ) (xs : List A) → length (take n xs) ≡ min n (length xs)
  length-take zero xs = omega arith
  length-take (suc n) [] = omega arith
  length-take (suc n) (x ∷ xs) = omega (arith, length-take n xs)

  pub length-drop : (n : ℕ) (xs : List A) → length (drop n xs) ≡ length xs - n
  length-drop zero xs = omega arith
  length-drop (suc n) [] = omega arith
  length-drop (suc n) (x ∷ xs) = omega (arith, length-drop n xs)

  -- A field that stands in front is taken whole, and dropping it leaves the rest.
  pub take-append : (xs ys : List A) → take (length xs) (xs ++ ys) ≡ xs
  take-append [] ys = refl
  take-append (x ∷ xs) ys = ap (◌∷◌ x) (take-append xs ys)

  pub drop-append : (xs ys : List A) → drop (length xs) (xs ++ ys) ≡ ys
  drop-append [] ys = refl
  drop-append (x ∷ xs) ys = drop-append xs ys

  pub take_all : (n : ℕ) (xs : List A) → length xs ≤ n → take n xs ≡ xs
  take_all zero [] h = refl
  take_all zero (x ∷ xs) h = absurd (omega arith)
  take_all (suc n) [] h = refl
  take_all (suc n) (x ∷ xs) h = ap (◌∷◌ x) (take_all n xs (omega arith))

abbrev pub replicate {ℓ} : {A : Type ℓ} → ℕ → A → List A
replicate zero a = []
replicate (suc n) a = a ∷ replicate n a

pub length-replicate {ℓ} : {A : Type ℓ} (n : ℕ) (a : A) → length (replicate n a) ≡ n
length-replicate zero a = refl
length-replicate (suc n) a = omega (arith, length-replicate n a)

unfoldable pub get_elem? {ℓ} : {A : Type ℓ} → List A → ℕ → Option A
get_elem? [] i = none
get_elem? (a ∷ l) zero = some a
get_elem? (a ∷ l) (suc i) = get_elem? l i

unfoldable pub set_elem {ℓ} : {A : Type ℓ} → List A → ℕ → A → List A
set_elem [] i b = []
set_elem (a ∷ l) zero b = b ∷ l
set_elem (a ∷ l) (suc i) b = a ∷ set_elem l i b

pub get_elem?-set_elem {ℓ} :
    {A : Type ℓ} (l : List A) (i : ℕ) (a b : A)
    → get_elem? l i ≡ some a
    → get_elem? (set_elem l i b) i ≡ some b
unfolding get_elem? set_elem
get_elem?-set_elem [] i a b h = cc
get_elem?-set_elem (x ∷ l) zero a b h = refl
get_elem?-set_elem (x ∷ l) (suc i) a b h = get_elem?-set_elem l i a b h

pub get_elem?-set_elem_ne {ℓ} :
    {A : Type ℓ} (l : List A) (i j : ℕ) (b : A)
    → i ≢ j
    → get_elem? (set_elem l i b) j ≡ get_elem? l j
unfolding get_elem? set_elem
get_elem?-set_elem_ne [] i j b h = refl
get_elem?-set_elem_ne (x ∷ l) zero zero b h = absurd (h refl)
get_elem?-set_elem_ne (x ∷ l) zero (suc j) b h = refl
get_elem?-set_elem_ne (x ∷ l) (suc i) zero b h = refl
get_elem?-set_elem_ne (x ∷ l) (suc i) (suc j) b h =
    get_elem?-set_elem_ne l i j b (λ e. h (ap suc e))

-- The sum of a number that every element has.
abbrev pub sum {ℓ} : {A : Type ℓ} → (A → ℕ) → List A → ℕ
sum f [] = 0
sum f (a ∷ l) = f a + sum f l

pub sum-set_elem {ℓ} :
    {A : Type ℓ} (f : A → ℕ) (l : List A) (i : ℕ) (a b : A)
    → get_elem? l i ≡ some a
    → sum f (set_elem l i b) + f a ≡ sum f l + f b
unfolding get_elem? set_elem
sum-set_elem f [] i a b h = cc
sum-set_elem f (x ∷ l) zero a b h = let e : f x ≡ f a = cc in omega arith
sum-set_elem f (x ∷ l) (suc i) a b h = omega (arith, sum-set_elem f l i a b h)
