-- ===== src/Prelude/Lists.antt =====
-- Lists measured by native numbers.
use Prim.Native.Nat.{ℕ, suc, ◌+◌, ◌≤◌, ◌<◌}
use mathlib.Core.Path.{sym, ◌≡◌, refl, ap, ◌∙◌}
use mathlib.Core.Bool.{Bool, true, false, not, ◌&&◌}
use mathlib.Core.List.{List, [], ◌∷◌, ◌++◌, map, Permᴰ, Memᴰ}
use native.Mathlib.Omega.{arith}
use mathlib.Core.Logic.{◌⊎◌, inl, inr}
use mathlib.Core.List.Permᴰ
use mathlib.Core.List.Memᴰ
use osctf.Prelude.Tests.{if◌then◌else◌, Bool-cases}

module _ {ℓ} {A : Type ℓ} where
  abbrev pub length : List A → ℕ
  length [] = 0
  length (x ∷ xs) = suc (length xs)

  -- The elements that pass a Boolean test, in their order.
  abbrev pub keep : (A → Bool) → List A → List A
  keep p [] = []
  keep p (x ∷ xs) = if p x then x ∷ keep p xs else keep p xs

  -- How many elements pass a Boolean test.
  abbrev pub tally : (A → Bool) → List A → ℕ
  tally p [] = 0
  tally p (x ∷ xs) = let rest = tally p xs in if p x then suc rest else rest

module _ {ℓ} {A : Type ℓ} where
  -- A Boolean test holds of every element.
  abbrev pub All : (A → Bool) → List A → Type 0
  All p [] = Unit {0}
  All p (x ∷ xs) = (p x ≡ true) × All p xs

  -- A Boolean test holds of each two elements, the earlier one first.
  abbrev pub Pairs : (A → A → Bool) → List A → Type 0
  Pairs p [] = Unit {0}
  Pairs p (x ∷ xs) = All (p x) xs × Pairs p xs

module _ {ℓ} {A : Type ℓ} where
  pub All-append : (p : A → Bool) (xs ys : List A) → All p xs → All p ys → All p (xs ++ ys)
  All-append p [] ys h k = k
  All-append p (x ∷ xs) ys h k = (h.0, All-append p xs ys h.1 k)

  pub All-keep : (p : A → Bool) (xs : List A) → All p (keep p xs)
  All-keep p [] = tt
  All-keep p (x ∷ xs) = elim (Bool-cases (p x)) [
    | inl e ↦ rw e (e, All-keep p xs)
    | inr e ↦ rw e (All-keep p xs)
  ]

  pub All-Permᴰ : (p : A → Bool) {xs ys : List A} → Permᴰ xs ys → All p xs → All p ys
  All-Permᴰ p Permᴰ.nil h = h
  All-Permᴰ p (Permᴰ.cons e d) h = (rw e at h.0, All-Permᴰ p d h.1)
  All-Permᴰ p (Permᴰ.swap e f) h = (rw f at h.1.0, (rw e at h.0, h.1.1))
  All-Permᴰ p (Permᴰ.trans d e) h = All-Permᴰ p e (All-Permᴰ p d h)

  pub length-append : (xs ys : List A) → length (xs ++ ys) ≡ length xs + length ys
  length-append [] ys = omega arith
  length-append (x ∷ xs) ys = omega (arith, length-append xs ys)

  pub length-map {κ} : {B : Type κ} (f : A → B) (xs : List A) → length (map f xs) ≡ length xs
  length-map f [] = refl
  length-map f (x ∷ xs) = ap suc (length-map f xs)

  pub length-keep-le : (p : A → Bool) (xs : List A) → length (keep p xs) ≤ length xs
  length-keep-le p [] = omega arith
  length-keep-le p (x ∷ xs) = ground (arith, length-keep-le p xs)

  pub tally-append : (p : A → Bool) (xs ys : List A) → tally p (xs ++ ys) ≡ tally p xs + tally p ys
  tally-append p [] ys = omega arith
  tally-append p (x ∷ xs) ys = ground (arith, tally-append p xs ys)

  pub tally-le-length : (p : A → Bool) (xs : List A) → tally p xs ≤ length xs
  tally-le-length p [] = omega arith
  tally-le-length p (x ∷ xs) = ground (arith, tally-le-length p xs)

  pub All-tally : (p : A → Bool) (xs : List A) → All p xs → tally p xs ≡ length xs
  All-tally p [] h = refl
  All-tally p (x ∷ xs) h = ground (arith, All-tally p xs h.1, h.0)

  pub keep-Permᴰ : (p : A → Bool) (xs : List A) → Permᴰ (keep p xs ++ keep (λ x. not (p x)) xs) xs
  keep-Permᴰ p [] = Permᴰ.nil
  keep-Permᴰ p (x ∷ xs) = elim (Bool-cases (p x)) [
    | inl e ↦ rw e (Permᴰ.cons refl (keep-Permᴰ p xs))
    | inr e ↦ rw e (
        Permᴰ.trans (Permᴰ.middle x (keep p xs) (keep (λ y. not (p y)) xs))
          (Permᴰ.cons refl (keep-Permᴰ p xs)))
  ]

  pub length-keep : (p : A → Bool) (xs : List A) → length (keep p xs) ≡ tally p xs
  length-keep p [] = refl
  length-keep p (x ∷ xs) = ground (arith, length-keep p xs)

module _ {ℓ} {A : Type ℓ} where
  pub tally-ext : (p q : A → Bool) (xs : List A) → ((x : A) → p x ≡ q x) → tally p xs ≡ tally q xs
  tally-ext p q [] h = refl
  tally-ext p q (x ∷ xs) h = ground (arith, h x, tally-ext p q xs h)

  pub tally-keep : (p q : A → Bool) (xs : List A) → tally p (keep q xs) ≡ tally (λ x. q x && p x) xs
  tally-keep p q [] = refl
  tally-keep p q (x ∷ xs) = ground (arith, tally-keep p q xs)

  pub tally-keep-le : (p q : A → Bool) (xs : List A) → tally p (keep q xs) ≤ tally p xs
  tally-keep-le p q [] = omega arith
  tally-keep-le p q (x ∷ xs) = ground (arith, tally-keep-le p q xs)

  -- A test that another one implies passes no more often.
  pub tally_mono :
      (p q : A → Bool) (xs : List A) → ((x : A) → p x ≡ true → q x ≡ true) → tally p xs ≤ tally q xs
  tally_mono p q [] h = omega arith
  tally_mono p q (x ∷ xs) h = ground (arith, h x, tally_mono p q xs h)

  pub tally-Permᴰ : (p : A → Bool) {xs ys : List A} → Permᴰ xs ys → tally p xs ≡ tally p ys
  tally-Permᴰ p Permᴰ.nil = refl
  tally-Permᴰ p (Permᴰ.cons e d) = ground (arith, e, tally-Permᴰ p d)
  tally-Permᴰ p (Permᴰ.swap e f) = ground (arith, e, f)
  tally-Permᴰ p (Permᴰ.trans d e) = tally-Permᴰ p d ∙ tally-Permᴰ p e

  pub All-elim : (p : A → Bool) (xs : List A) (x : A) → All p xs → Memᴰ x xs → p x ≡ true
  All-elim p [] x h m = absurd (Memᴰ.not-nil m)
  All-elim p (y ∷ ys) x h (Memᴰ.head e) = rw e h.0
  All-elim p (y ∷ ys) x h (Memᴰ.tail m) = All-elim p ys x h.1 m

  pub All-intro : (p : A → Bool) (xs : List A) → ((x : A) → Memᴰ x xs → p x ≡ true) → All p xs
  All-intro p [] h = tt
  All-intro p (x ∷ xs) h = (h x (Memᴰ.head refl), All-intro p xs (λ y m. h y (Memᴰ.tail m)))

  -- A test that never passes fails at each element.
  pub tally-zero : (p : A → Bool) (xs : List A) (x : A) → tally p xs ≡ 0 → Memᴰ x xs → p x ≡ false
  tally-zero p [] x h m = absurd (Memᴰ.not-nil m)
  tally-zero p (y ∷ ys) x h (Memᴰ.head e) = ground (arith, e, h)
  tally-zero p (y ∷ ys) x h (Memᴰ.tail m) = ground (arith, h, tally-zero p ys x)

  pub List-cases : (xs : List A) → (xs ≡ []) ⊎ ((x : A) × (rest : List A) × (xs ≡ x ∷ rest))
  List-cases [] = inl refl
  List-cases (x ∷ xs) = inr (x, xs, refl)

  pub tally-never : (p : A → Bool) (xs : List A) → ((x : A) → p x ≡ false) → tally p xs ≡ 0
  tally-never p [] h = refl
  tally-never p (x ∷ xs) h = ground (arith, h x, tally-never p xs h)

  pub tally-some : (p : A → Bool) (xs : List A) (x : A) → Memᴰ x xs → p x ≡ true → 0 < tally p xs
  tally-some p [] x m h = absurd (Memᴰ.not-nil m)
  tally-some p (y ∷ ys) x (Memᴰ.head e) h = ground (arith, e, h)
  tally-some p (y ∷ ys) x (Memᴰ.tail m) h = ground (arith, tally-some p ys x m h)

  pub keep-ext :
      (p q : A → Bool) (xs : List A) → ((x : A) → Memᴰ x xs → p x ≡ q x) → keep p xs ≡ keep q xs
  keep-ext p q [] same = refl
  keep-ext p q (x ∷ xs) same =
      let rest = keep-ext p q xs (λ y m. same y (Memᴰ.tail m)) in
      elim (Bool-cases (q x)) [
        | inl y ↦ rw (same x (Memᴰ.head refl), y, rest) refl
        | inr n ↦ rw (same x (Memᴰ.head refl), n, rest) refl
      ]

  pub keep-keep : (p q : A → Bool) (xs : List A) → keep p (keep q xs) ≡ keep (λ x. q x && p x) xs
  keep-keep p q [] = refl
  keep-keep p q (x ∷ xs) = ground (arith, keep-keep p q xs)

  pub keep_all : (p : A → Bool) (xs : List A) → ((x : A) → Memᴰ x xs → p x ≡ true) → keep p xs ≡ xs
  keep_all p [] h = refl
  keep_all p (x ∷ xs) h =
      let rest = keep_all p xs (λ y m. h y (Memᴰ.tail m)) in rw (h x (Memᴰ.head refl), rest) refl

  pub tally_absent :
      (p : A → Bool) (xs : List A) → ((x : A) → Memᴰ x xs → p x ≡ false) → tally p xs ≡ 0
  tally_absent p [] h = refl
  tally_absent p (x ∷ xs) h =
      let rest = tally_absent p xs (λ y m. h y (Memᴰ.tail m)) in
      ground (arith, h x (Memᴰ.head refl), rest)

  -- Where at most one element passes, two that do are one.
  pub only_one :
      (p : A → Bool) (xs : List A) (x y : A)
      → tally p xs ≤ 1
      → Memᴰ x xs
      → Memᴰ y xs
      → p x ≡ true
      → p y ≡ true
      → x ≡ y
  only_one p [] x y u m n s t = absurd (Memᴰ.not-nil m)
  only_one p (z ∷ zs) x y u (Memᴰ.head e) (Memᴰ.head f) s t = e ∙ sym f
  only_one p (z ∷ zs) x y u (Memᴰ.head e) (Memᴰ.tail n) s t =
      ground (arith, e, u, s, tally-some p zs y n t)
  only_one p (z ∷ zs) x y u (Memᴰ.tail m) (Memᴰ.head f) s t =
      ground (arith, f, u, t, tally-some p zs x m s)
  only_one p (z ∷ zs) x y u (Memᴰ.tail m) (Memᴰ.tail n) s t =
      only_one p zs x y (ground (arith, u)) m n s t

  pub keep_member :
      (p : A → Bool) (xs : List A) (x : A) → Memᴰ x (keep p xs) → Memᴰ x xs × (p x ≡ true)
  keep_member p [] x m = absurd (Memᴰ.not-nil m)
  keep_member p (y ∷ xs) x m = elim (Bool-cases (p y)) [
    | inl e ↦ kept (keep_member p xs x) (rw e at m) e
    | inr e ↦ let (k, t) = keep_member p xs x (rw e at m) in (Memᴰ.tail k, t)
  ]
    where
      kept :
          (Memᴰ x (keep p xs) → Memᴰ x xs × (p x ≡ true))
          → Memᴰ x (y ∷ keep p xs)
          → p y ≡ true
          → Memᴰ x (y ∷ xs) × (p x ≡ true)
      kept rest (Memᴰ.head e) t = (Memᴰ.head e, ap p e ∙ t)
      kept rest (Memᴰ.tail k) t = let (k', e) = rest k in (Memᴰ.tail k', e)
