-- ===== src/Scoreboard/Ranks.antt =====
-- The ranks of the standings of internal/scoreboard/compute.go.
use osctf.Prelude.{
  ℕ, zero, suc, ◌≡◌, Bool, true, false, Option, none, some, List, [], ◌∷◌, ◌++◌, arith, nat_key,
  All, All-Permᴰ, inl, inr, length, length-keep, tally, Bool-cases, keep, map, refl, ap,
}
use mathlib.Core.List.{map-append}
use osctf.Prelude.Sort.{stable_sort, stable_sort-Permᴰ, length-stable_sort}
use osctf.Scoreboard.Standings.{
  Standing, ahead, by_name, ranked, is_active, is_banned, standings_of,
}

-- `k` times `none`.
abbrev pub nones : ℕ → List (Option ℕ)
nones zero = []
nones (suc k) = none ∷ nones k

-- `k` ranks from `n` on.
abbrev pub ranks_from : ℕ → ℕ → List (Option ℕ)
ranks_from n zero = []
ranks_from n (suc k) = some n ∷ ranks_from (suc n) k

abbrev pub is_unranked : Standing → Bool
is_unranked e = elim e.rank [ none ↦ true | some n ↦ false ]

ranks-ranked :
    (n : ℕ) (es : List Standing) → map (λ e. e.rank) (ranked n es) ≡ ranks_from n (length es)
unfolding ranked
ranks-ranked n [] = refl
ranks-ranked n (e ∷ es) = ap (λ rs. some n ∷ rs) (ranks-ranked (suc n) es)

ranks-unranked :
    (es : List Standing) → All is_unranked es → map (λ e. e.rank) es ≡ nones (length es)
ranks-unranked [] h = refl
ranks-unranked (e ∷ es) h = ground (arith, h.0, ranks-unranked es h.1)

All-keep_kept : (p q : Standing → Bool) (es : List Standing) → All p es → All p (keep q es)
All-keep_kept p q [] h = tt
All-keep_kept p q (e ∷ es) h = elim (Bool-cases (q e)) [
  | inl k ↦ rw k (h.0, All-keep_kept p q es h.1)
  | inr k ↦ rw k (All-keep_kept p q es h.1)
]

-- The active entries have the ranks from 1 on, and the banned ones none.
pub standings_of-ranks :
    (es : List Standing)
    → All is_unranked es
    → map (λ e. e.rank) (standings_of es)
      ≡ ranks_from 1 (tally is_active es) ++ nones (tally is_banned es)
unfolding standings_of
standings_of-ranks es h =
    let top = stable_sort ahead (keep is_active es) in
    let rest = stable_sort by_name (keep is_banned es) in
    rw (
      map-append (λ (e : Standing). e.rank) (ranked 1 top) rest,
      ranks-ranked 1 top,
      ranks-unranked rest (
          All-Permᴰ is_unranked (stable_sort-Permᴰ by_name (keep is_banned es))
            (All-keep_kept is_unranked is_banned es h)),
      length-stable_sort ahead (keep is_active es),
      length-stable_sort by_name (keep is_banned es),
      length-keep is_active es,
      length-keep is_banned es,
    )
