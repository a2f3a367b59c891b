-- ===== src/Scoreboard/Order.antt =====
-- The order of the standings: the comparison of internal/scoreboard/compute.go is a strict weak
-- order, so that the standings are sorted, and hold every team once.
use osctf.Prelude.{
  ℕ, suc, ◌≡◌, Bool, true, false, not, Option, none, some, List, [], ◌∷◌, ◌++◌, arith, nat_key, ltb,
  ◌==◌, if◌then◌else◌, ◌&&◌, ◌||◌, All, Pairs, All-append, All-keep, All-Permᴰ, keep-Permᴰ, keep,
  map, refl, ap,
}
use mathlib.Core.List.Permᴰ
use mathlib.Core.List.{Permᴰ, map-append}
use osctf.Prelude.Sort.{
  stable_sort, IsSorted, NoneBefore, WeakOrder, stable_sort-IsSorted, stable_sort-Permᴰ,
}
use osctf.Prelude.Int.{ltb_ℤ, leb_ℤ}
use osctf.Scoreboard.Standings.{
  Standing, text_ltb, ahead, by_name, ranked, is_active, is_banned, standings_of,
}

text_ltb_asym : (s t : List ℕ) → text_ltb s t ≡ true → text_ltb t s ≡ false
unfolding text_ltb
text_ltb_asym [] [] h = refl
text_ltb_asym [] (b ∷ t) h = refl
text_ltb_asym (a ∷ s) [] h = cc
text_ltb_asym (a ∷ s) (b ∷ t) h = ground (arith, text_ltb_asym s t)

text_ltb_trans :
    (s t u : List ℕ) → text_ltb t s ≡ false → text_ltb u t ≡ false → text_ltb u s ≡ false
unfolding text_ltb
text_ltb_trans s t [] h k = ground arith
text_ltb_trans [] t (c ∷ u) h k = ground arith
text_ltb_trans (a ∷ s) [] (c ∷ u) h k = ground arith
text_ltb_trans (a ∷ s) (b ∷ t) (c ∷ u) h k = ground (arith, text_ltb_trans s t u)

ahead_asym : (x y : Standing) → ahead x y ≡ true → ahead y x ≡ false
unfolding ahead
ahead_asym x y h = ground (arith, text_ltb_asym x.name y.name)

ahead_trans : (x y z : Standing) → ahead y x ≡ false → ahead z y ≡ false → ahead z x ≡ false
unfolding ahead
ahead_trans x y z h k = ground (arith, text_ltb_trans x.name y.name z.name)

by_name_asym : (x y : Standing) → by_name x y ≡ true → by_name y x ≡ false
unfolding by_name
by_name_asym x y h = text_ltb_asym x.name y.name h

by_name_trans : (x y z : Standing) → by_name y x ≡ false → by_name z y ≡ false → by_name z x ≡ false
unfolding by_name
by_name_trans x y z h k = text_ltb_trans x.name y.name z.name h k

ahead_order : WeakOrder ahead
ahead_order = record { asym = ahead_asym; trans = ahead_trans }

by_name_order : WeakOrder by_name
by_name_order = record { asym = by_name_asym; trans = by_name_trans }

abbrev rank_ltb : Option ℕ → Option ℕ → Bool
rank_ltb (some m) (some n) = ltb m n
rank_ltb _ _ = false

-- The order of texts by their bytes, a text before those that it begins.
abbrev pub text_leb : List ℕ → List ℕ → Bool
text_leb [] t = true
text_leb (a ∷ s) [] = false
text_leb (a ∷ s) (b ∷ t) = let rest = text_leb s t in ltb a b || (a == b && rest)

-- A team without a solve comes before one with a solve, and an earlier last solve before a later.
abbrev pub solved_before : Option ℕ → Option ℕ → Bool
solved_before none (some b) = true
solved_before (some a) (some b) = ltb a b
solved_before _ none = false

abbrev pub same_time : Option ℕ → Option ℕ → Bool
same_time none none = true
same_time (some a) (some b) = a == b
same_time _ _ = false

-- More points; or as many, and an earlier last solve; or that too the same, and a name that is not
-- later.
abbrev pub outranks : Standing → Standing → Bool
outranks x y =
    ltb_ℤ y.points x.points
    || (leb_ℤ y.points x.points
        && (solved_before x.last_solve_at y.last_solve_at
            || (same_time x.last_solve_at y.last_solve_at && text_leb x.name y.name)))

-- What an entry and a later one may be: banned teams trail, by name; active ones are in the order
-- of their points, last solves and names, with growing ranks.
abbrev pub precedes : Standing → Standing → Bool
precedes x y =
    if x.banned
    then y.banned && text_leb x.name y.name
    else y.banned || (outranks x y && rank_ltb x.rank y.rank)

text_leb_of_ltb : (s t : List ℕ) → text_ltb t s ≡ false → text_leb s t ≡ true
unfolding text_ltb
text_leb_of_ltb [] t h = refl
text_leb_of_ltb (a ∷ s) [] h = cc
text_leb_of_ltb (a ∷ s) (b ∷ t) h = ground (arith, text_leb_of_ltb s t)

outranks_of_ahead : (x y : Standing) → ahead y x ≡ false → outranks x y ≡ true
unfolding ahead
outranks_of_ahead x y h = ground (arith, text_leb_of_ltb x.name y.name)

trails_of_by_name : (x y : Standing) → by_name y x ≡ false → text_leb x.name y.name ≡ true
unfolding by_name
trails_of_by_name x y h = text_leb_of_ltb x.name y.name h

All-ranked :
    (n m : ℕ) (e : Standing) (es : List Standing)
    → ltb n m ≡ true
    → e.banned ≡ false
    → NoneBefore ahead e es
    → All is_active es
    → All (precedes (record e { rank = some n })) (ranked m es)
unfolding ranked
All-ranked n m e [] h b s a = tt
All-ranked n m e (x ∷ xs) h b s a = (
  ground (arith, outranks_of_ahead e x, s.0, a.0),
  All-ranked n (suc m) e xs (ground arith) b s.1 a.1,
)

All-banned :
    (e : Standing) (bs : List Standing) → e.banned ≡ false → All is_banned bs → All (precedes e) bs
All-banned e [] h b = tt
All-banned e (x ∷ xs) h b = (ground (arith, b.0), All-banned e xs h b.1)

All-by_name :
    (e : Standing) (bs : List Standing)
    → e.banned ≡ true
    → NoneBefore by_name e bs
    → All is_banned bs
    → All (precedes e) bs
All-by_name e [] h s b = tt
All-by_name e (x ∷ xs) h s b =
    (ground (arith, trails_of_by_name e x, s.0, b.0), All-by_name e xs h s.1 b.1)

Pairs-banned : (bs : List Standing) → IsSorted by_name bs → All is_banned bs → Pairs precedes bs
Pairs-banned [] s b = tt
Pairs-banned (x ∷ xs) s b = (All-by_name x xs b.0 s.0 b.1, Pairs-banned xs s.1 b.1)

Pairs-ranked :
    (n : ℕ) (es bs : List Standing)
    → IsSorted ahead es
    → All is_active es
    → Pairs precedes bs
    → All is_banned bs
    → Pairs precedes (ranked n es ++ bs)
unfolding ranked
Pairs-ranked n [] bs s a p b = p
Pairs-ranked n (x ∷ xs) bs s a p b = (
  All-append _ (ranked (suc n) xs) bs
      (All-ranked n (suc n) x xs (ground arith) (ground (arith, a.0)) s.0 a.1)
      (All-banned (record x { rank = some n }) bs (ground (arith, a.0)) b),
  Pairs-ranked (suc n) xs bs s.1 a.1 p b,
)

pub standings_of-Pairs : (es : List Standing) → Pairs precedes (standings_of es)
unfolding standings_of
standings_of-Pairs es =
    let banned =
      All-Permᴰ is_banned (stable_sort-Permᴰ by_name (keep is_banned es)) (All-keep is_banned es) in
    Pairs-ranked 1 (stable_sort ahead (keep is_active es)) (stable_sort by_name (keep is_banned es))
      (stable_sort-IsSorted ahead ahead_order (keep is_active es))
      (All-Permᴰ is_active (stable_sort-Permᴰ ahead (keep is_active es)) (All-keep is_active es))
      (Pairs-banned (stable_sort by_name (keep is_banned es))
        (stable_sort-IsSorted by_name by_name_order (keep is_banned es)) banned)
      banned

abbrev pub unranked : Standing → Standing
unranked e = record e { rank = none }

map-ranked : (n : ℕ) (es : List Standing) → map unranked (ranked n es) ≡ map unranked es
unfolding ranked
map-ranked n [] = refl
map-ranked n (e ∷ es) = ap (λ xs. unranked e ∷ xs) (map-ranked (suc n) es)

keep-banned : (es : List Standing) → keep is_banned es ≡ keep (λ e. not (is_active e)) es
keep-banned [] = refl
keep-banned (e ∷ es) = ground (arith, keep-banned es)

-- Every entry is listed once.
pub standings_of-Permᴰ :
    (es : List Standing) → Permᴰ (map unranked (standings_of es)) (map unranked es)
unfolding standings_of
standings_of-Permᴰ es =
    let top = stable_sort ahead (keep is_active es) in
    let rest = stable_sort by_name (keep is_banned es) in
    rw (map-append unranked (ranked 1 top) rest, map-ranked 1 top, ← map-append unranked top rest)
      (Permᴰ.map unranked (
        Permᴰ.trans
          (Permᴰ.append_right rest (Permᴰ.symm (stable_sort-Permᴰ ahead (keep is_active es))))
          (Permᴰ.trans
            (Permᴰ.append_left (keep is_active es)
              (Permᴰ.symm (stable_sort-Permᴰ by_name (keep is_banned es))))
            (rw (keep-banned es) (keep-Permᴰ is_active es)))))
