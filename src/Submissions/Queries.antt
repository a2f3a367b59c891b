-- ===== src/Submissions/Queries.antt =====
-- What a `:one` query returns.
use mathlib.Core.List.{Memᴰ}
use mathlib.Core.List.Memᴰ
use osctf.Prelude.{
  ◌≤◌, ◌≡◌, inl, inr, refl, Bool, true, false, none, some, List, [], ◌∷◌, ◌++◌, arith, tally,
  tally-some, Bool-cases,
}
use osctf.Submissions.Store.{first}

module _ {ℓ} {A : Type ℓ} where
  -- Where at most one element passes, a passing one is the first.
  pub first_unique :
      (p : A → Bool) (xs : List A) (c x : A)
      → tally p xs ≤ 1
      → first p xs ≡ some c
      → Memᴰ x xs
      → p x ≡ true
      → x ≡ c
  first_unique p [] c x u h m t = absurd (Memᴰ.not-nil m)
  first_unique p (y ∷ xs) c x u h (Memᴰ.head e) t = ground (arith, e, u, h, t)
  first_unique p (y ∷ xs) c x u h (Memᴰ.tail m) t = elim (Bool-cases (p y)) [
    | inl e ↦ ground (arith, u, e, tally-some p xs x m t)
    | inr e ↦ first_unique p xs c x (ground (arith, u, e)) (ground (arith, h, e)) m t
  ]

  pub first-none : (p : A → Bool) (xs : List A) → first p xs ≡ none → tally p xs ≡ 0
  first-none p [] h = refl
  first-none p (x ∷ xs) h = ground (arith, h, first-none p xs)

  pub first_found :
      (p : A → Bool) (xs : List A) (x : A) → first p xs ≡ some x → Memᴰ x xs × (p x ≡ true)
  first_found p [] x h = cc
  first_found p (y ∷ ys) x h = elim (Bool-cases (p y)) [
    | inl t ↦ (Memᴰ.head (ground (arith, t, h)), ground (arith, t, h))
    | inr f ↦ let (m, e) = first_found p ys x (ground (arith, f, h)) in (Memᴰ.tail m, e)
  ]

  -- The row that was just appended is found where no earlier one passes.
  pub first-append :
      (p : A → Bool) (xs : List A) (x : A)
      → tally p xs ≡ 0
      → p x ≡ true
      → first p (xs ++ x ∷ []) ≡ some x
  first-append p [] x none_before t = rw t refl
  first-append p (y ∷ ys) x none_before t =
      let n : p y ≡ false = ground (arith, none_before) in
      rw n (first-append p ys x (ground (arith, none_before, n)) t)

  pub first-append_found :
      (p : A → Bool) (xs ys : List A) (x : A) → first p xs ≡ some x → first p (xs ++ ys) ≡ some x
  first-append_found p [] ys x h = cc
  first-append_found p (y ∷ xs) ys x h = ground (arith, h, first-append_found p xs ys x)
