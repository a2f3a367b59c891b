-- ===== src/Prelude/Sort.antt =====
-- `sort.SliceStable` over a list, as the insertion sort that keeps equal elements in their order,
-- and what it gives for a comparison that is a strict weak order.
use mathlib.Core.Path.{◌≡◌, refl}
use mathlib.Core.Bool.{Bool, true, false}
use mathlib.Core.List.{List, [], ◌∷◌, Permᴰ}
use mathlib.Core.List.Permᴰ
use Prim.Native.Nat.{suc}
use osctf.Prelude.Lists.{length}
use native.Mathlib.Omega.{arith}
use osctf.Prelude.Tests.{if◌then◌else◌, Bool-cases}
use mathlib.Core.Logic.{inl, inr}

module _ {ℓ} {A : Type ℓ} (less : A → A → Bool) where
  abbrev pub sort_in : A → List A → List A
  sort_in x [] = x ∷ []
  sort_in x (y ∷ ys) = let further = sort_in x ys in if less y x then y ∷ further else x ∷ y ∷ ys

  abbrev pub stable_sort : List A → List A
  stable_sort [] = []
  stable_sort (x ∷ xs) = sort_in x (stable_sort xs)

  -- No element of the list comes before `x`.
  abbrev pub NoneBefore : A → List A → Type 0
  NoneBefore x [] = Unit {0}
  NoneBefore x (y ∷ ys) = (less y x ≡ false) × NoneBefore x ys

  -- No element of the list comes before one that stands earlier in it.
  abbrev pub IsSorted : List A → Type 0
  IsSorted [] = Unit {0}
  IsSorted (x ∷ xs) = NoneBefore x xs × IsSorted xs

-- A strict weak order: what Go asks of the function that it sorts by.
pub record WeakOrder {ℓ} {A : Type ℓ} (less : A → A → Bool) : Type ℓ where
  pub asym : (x y : A) → less x y ≡ true → less y x ≡ false
  pub trans : (x y z : A) → less y x ≡ false → less z y ≡ false → less z x ≡ false

module _ {ℓ} {A : Type ℓ} (less : A → A → Bool) where
  pub sort_in-Permᴰ : (x : A) (xs : List A) → Permᴰ (x ∷ xs) (sort_in less x xs)
  sort_in-Permᴰ x [] = Permᴰ.refl _
  sort_in-Permᴰ x (y ∷ ys) = elim (Bool-cases (less y x)) [
    | inl e ↦ rw e (Permᴰ.trans (Permᴰ.swap refl refl) (Permᴰ.cons refl (sort_in-Permᴰ x ys)))
    | inr e ↦ rw e (Permᴰ.refl _)
  ]

  pub stable_sort-Permᴰ : (xs : List A) → Permᴰ xs (stable_sort less xs)
  stable_sort-Permᴰ [] = Permᴰ.refl _
  stable_sort-Permᴰ (x ∷ xs) =
      Permᴰ.trans (Permᴰ.cons refl (stable_sort-Permᴰ xs)) (sort_in-Permᴰ x (stable_sort less xs))

  length-sort_in : (x : A) (xs : List A) → length (sort_in less x xs) ≡ suc (length xs)
  length-sort_in x [] = refl
  length-sort_in x (y ∷ ys) = ground (arith, length-sort_in x ys)

  pub length-stable_sort : (xs : List A) → length (stable_sort less xs) ≡ length xs
  length-stable_sort [] = refl
  length-stable_sort (x ∷ xs) =
      omega (arith, length-sort_in x (stable_sort less xs), length-stable_sort xs)

  module _ (order : WeakOrder less) where
    NoneBefore-mono :
        (x y : A) (ys : List A) → less y x ≡ false → NoneBefore less y ys → NoneBefore less x ys
    NoneBefore-mono x y [] h n = n
    NoneBefore-mono x y (z ∷ zs) h n = (order.trans x y z h n.0, NoneBefore-mono x y zs h n.1)

    NoneBefore-sort_in :
        (z x : A) (xs : List A)
        → less x z ≡ false
        → NoneBefore less z xs
        → NoneBefore less z (sort_in less x xs)
    NoneBefore-sort_in z x [] h n = (h, n)
    NoneBefore-sort_in z x (y ∷ ys) h n = elim (Bool-cases (less y x)) [
      | inl e ↦ rw e (n.0, NoneBefore-sort_in z x ys h n.1)
      | inr e ↦ rw e (h, n)
    ]

    sort_in-IsSorted : (x : A) (xs : List A) → IsSorted less xs → IsSorted less (sort_in less x xs)
    sort_in-IsSorted x [] s = (tt, tt)
    sort_in-IsSorted x (y ∷ ys) s = elim (Bool-cases (less y x)) [
      | inl e ↦ rw e (NoneBefore-sort_in y x ys (order.asym y x e) s.0, sort_in-IsSorted x ys s.1)
      | inr e ↦ rw e ((e, NoneBefore-mono x y ys e s.0), s)
    ]

    pub stable_sort-IsSorted : (xs : List A) → IsSorted less (stable_sort less xs)
    stable_sort-IsSorted [] = tt
    stable_sort-IsSorted (x ∷ xs) =
        sort_in-IsSorted x (stable_sort less xs) (stable_sort-IsSorted xs)
