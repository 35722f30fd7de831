-- ===== src/Common/Map.antt =====
-- `std::map` with integer keys, as a list of entries: `insert` keeps an entry that is there.
use Prim.Native.Nat.{ℕ, ◌+◌, ◌≤◌}
use mathlib.Core.Path.{◌≡◌, refl, ap, ◌∙◌}
use mathlib.Core.Logic.{◌≢◌, ◌⊎◌, inl, inr}
use mathlib.Core.Option.{Option, none, some}
use mathlib.Core.List.{List, [], ◌∷◌, ◌++◌}
use native.Mathlib.Omega.{arith}
use nymph_mqtt.Common.Booleans.{◌==◌, leb, if◌then◌else◌, Bool-cases}

-- How often a number stands in a list.
abbrev pub count : ℕ → List ℕ → ℕ
count k [] = 0
count k (j ∷ js) = (if j == k then 1 else 0) + count k js

pub count-append : (k : ℕ) (xs ys : List ℕ) → count k (xs ++ ys) ≡ count k xs + count k ys
count-append k [] ys = omega arith
count-append k (x ∷ xs) ys = omega (arith, count-append k xs ys)

pub some_injective {ℓ} : {A : Type ℓ} {a b : A} → some a ≡ some b → a ≡ b
some_injective h = cc

pub Option-cases {ℓ} : {A : Type ℓ} (o : Option A) → (o ≡ none) ⊎ ((a : A) × (o ≡ some a))
Option-cases none = inl refl
Option-cases (some a) = inr (a, refl)

module _ {ℓ} {V : Type ℓ} where
  unfoldable pub find : ℕ → List (ℕ × V) → Option V
  find k [] = none
  find k ((j, v) ∷ m) = if j == k then some v else find k m

  abbrev pub keys : List (ℕ × V) → List ℕ
  keys [] = []
  keys ((j, v) ∷ m) = j ∷ keys m

  insert_if : Option V → ℕ → V → List (ℕ × V) → List (ℕ × V)
  insert_if none k v m = (k, v) ∷ m
  insert_if (some w) k v m = m

  unfoldable pub insert : ℕ → V → List (ℕ × V) → List (ℕ × V)
  unfolding insert_if
  insert k v m = insert_if (find k m) k v m

  unfoldable pub erase : ℕ → List (ℕ × V) → List (ℕ × V)
  erase k [] = []
  erase k ((j, v) ∷ m) = if j == k then m else (j, v) ∷ erase k m

  pub find_absent : (k : ℕ) (m : List (ℕ × V)) → count k (keys m) ≡ 0 → find k m ≡ none
  unfolding find
  find_absent k [] h = refl
  find_absent k ((j, v) ∷ m) h = ground (arith, find_absent k m)

  pub count_absent : (k : ℕ) (m : List (ℕ × V)) → find k m ≡ none → count k (keys m) ≡ 0
  unfolding find
  count_absent k [] h = refl
  count_absent k ((j, v) ∷ m) h = ground (arith, count_absent k m)

  pub insert_absent :
      (k : ℕ) (v : V) (m : List (ℕ × V)) → find k m ≡ none → insert k v m ≡ (k, v) ∷ m
  unfolding insert
  insert_absent k v m h = ap (λ o. insert_if o k v m) h

  pub find-erase_ne : (k j : ℕ) (m : List (ℕ × V)) → k ≢ j → find j (erase k m) ≡ find j m
  unfolding find erase
  find-erase_ne k j [] h = refl
  find-erase_ne k j ((i, v) ∷ m) h = ground (arith, find-erase_ne k j m)

  pub count-erase :
      (k j : ℕ) (m : List (ℕ × V)) (v : V)
      → find k m ≡ some v
      → count j (keys (erase k m)) + (if k == j then 1 else 0) ≡ count j (keys m)
  unfolding find erase
  count-erase k j [] v h = ground arith
  count-erase k j ((i, w) ∷ m) v h = ground (arith, count-erase k j m v)

  -- No key stands twice.
  abbrev pub IsMap : List (ℕ × V) → Type 0
  IsMap m = (k : ℕ) → count k (keys m) ≤ 1

  pub insert_there : (k : ℕ) (v w : V) (m : List (ℕ × V)) → find k m ≡ some w → insert k v m ≡ m
  unfolding insert
  insert_there k v w m h = ap (λ o. insert_if o k v m) h

  pub find-insert :
      (k : ℕ) (v : V) (m : List (ℕ × V)) → find k m ≡ none → find k (insert k v m) ≡ some v
  unfolding find
  find-insert k v m h = rw (insert_absent k v m h) (ground arith)

  find-insert_if_ne :
      (o : Option V) (k j : ℕ) (v : V) (m : List (ℕ × V))
      → k ≢ j
      → find j (insert_if o k v m) ≡ find j m
  unfolding find insert_if
  find-insert_if_ne none k j v m h = ground arith
  find-insert_if_ne (some w) k j v m h = refl

  pub find-insert_ne :
      (k j : ℕ) (v : V) (m : List (ℕ × V)) → k ≢ j → find j (insert k v m) ≡ find j m
  unfolding insert
  find-insert_ne k j v m h = find-insert_if_ne (find k m) k j v m h

  insert_if-IsMap :
      (o : Option V) (k : ℕ) (v : V) (m : List (ℕ × V))
      → find k m ≡ o
      → IsMap m
      → IsMap (insert_if o k v m)
  unfolding insert_if
  insert_if-IsMap none k v m h is j =
      let c : count k (keys m) ≡ 0 = count_absent k m h in
      let d : count j (keys m) ≤ 1 = is j in ground arith
  insert_if-IsMap (some w) k v m h is j = is j

  pub insert-IsMap : (k : ℕ) (v : V) (m : List (ℕ × V)) → IsMap m → IsMap (insert k v m)
  unfolding insert
  insert-IsMap k v m is = insert_if-IsMap (find k m) k v m refl is

  count_erased : (k j : ℕ) (m : List (ℕ × V)) → count j (keys (erase k m)) ≤ count j (keys m)
  unfolding erase
  count_erased k j [] = omega arith
  count_erased k j ((i, v) ∷ m) = ground (arith, count_erased k j m)

  pub erase-IsMap : (k : ℕ) (m : List (ℕ × V)) → IsMap m → IsMap (erase k m)
  erase-IsMap k m is j = omega (arith, count_erased k j m, is j)

  pub find-erase : (k : ℕ) (m : List (ℕ × V)) → IsMap m → find k (erase k m) ≡ none
  unfolding find erase
  find-erase k [] is = refl
  find-erase k ((j, v) ∷ m) is = elim (Bool-cases (j == k)) [
    | inl e ↦ rw e (find_absent k m (let c = is k in ground arith))
    | inr d ↦ rw (d, d) (find-erase k m (λ i. let c = is i in ground arith))
  ]

  pub erase-insert :
      (k : ℕ) (v : V) (m : List (ℕ × V)) → find k m ≡ none → erase k (insert k v m) ≡ m
  unfolding erase
  erase-insert k v m h = ap (erase k) (insert_absent k v m h) ∙ ground arith

  -- The entries in the order of their keys, as an iterator meets them.
  abbrev place : ℕ → V → List (ℕ × V) → List (ℕ × V)
  place k v [] = (k, v) ∷ []
  place k v ((j, w) ∷ m) =
      let rest = place k v m in if leb k j then (k, v) ∷ (j, w) ∷ m else (j, w) ∷ rest

  unfoldable pub in_order : List (ℕ × V) → List (ℕ × V)
  in_order [] = []
  in_order ((k, v) ∷ m) = place k v (in_order m)

  find-place : (h k : ℕ) (v : V) (m : List (ℕ × V)) → find h (place k v m) ≡ find h ((k, v) ∷ m)
  unfolding find
  find-place h k v [] = refl
  find-place h k v ((j, w) ∷ m) = ground (arith, find-place h k v m)

  pub find-in_order : (h : ℕ) (m : List (ℕ × V)) → find h (in_order m) ≡ find h m
  unfolding find in_order
  find-in_order h [] = refl
  find-in_order h ((k, v) ∷ m) = find-place h k v (in_order m) ∙ ground (arith, find-in_order h m)
