-- ===== src/Scoreboard/Values.antt =====
-- The values of the challenges: the maps that the first loops of internal/scoreboard/compute.go
-- fill, against counts over the log.
use osctf.Prelude.{
  ℕ, suc, ◌+◌, ◌≡◌, ◌⊎◌, inl, inr, refl, sym, ap, ◌∙◌, Bool, true, false, ◌&&◌, not, none, some,
  List, [], ◌∷◌, arith, if◌then◌else◌, ◌==◌, nat_key, tally, Dict, lookup, lookup-insert, beq→eq,
  beq_refl, Bool-cases, Option-cases,
}
use mathlib.Core.List.{Memᴰ}
use mathlib.Core.List.Memᴰ
use osctf.Prelude.Int.{ℤ, pos, ◌+ℤ◌}
use osctf.Registry.{Registry}
use osctf.Scoring.Engine.{Engine, is_builtin_mode, value}
use osctf.Scoreboard.Standings.{
  SolveRow, Mode, mode_of, or_else, Counts, first_mode, counted, count_rows, values, row_points,
  later,
}

-- A solve that counts for the value of a challenge.
abbrev counts_for : ℕ → SolveRow → Bool
counts_for challenge r = r.challenge_id == challenge && not r.team_banned

abbrev pub of_team : ℕ → SolveRow → Bool
of_team team r = r.team_id == team

-- What a solve is worth: the challenge's value at its number of solves by teams that are not
-- banned, or what was recorded at the solve.
unfoldable pub worth : Registry Engine → List SolveRow → SolveRow → ℤ
worth engines rows r =
    if is_builtin_mode r.scoring
    then value engines r.scoring (mode_of r).params (pos (tally (counts_for r.challenge_id) rows))
    else or_else (pos 0) r.scored_value

abbrev pub sum_of : (SolveRow → ℤ) → ℕ → List SolveRow → ℤ
sum_of points team [] = pos 0
sum_of points team (r ∷ rows) =
    let rest = sum_of points team rows in if of_team team r then points r +ℤ rest else rest

abbrev pub latest : ℕ → List SolveRow → ℕ
latest team [] = 0
latest team (r ∷ rows) =
    let rest = latest team rows in if of_team team r then later r.solved_at rest else rest

-- The rows of one challenge carry the same scoring.
abbrev pub Joined : List SolveRow → Type 0
Joined rows =
    (a b : SolveRow)
    → Memᴰ a rows
    → Memᴰ b rows
    → a.challenge_id ≡ b.challenge_id
    → mode_of a ≡ mode_of b

-- They do when the query joins it from a table of the challenges.
abbrev pub JoinedFrom : (ℕ → Mode) → List SolveRow → Type 0
JoinedFrom table [] = Unit {0}
JoinedFrom table (r ∷ rows) = (mode_of r ≡ table r.challenge_id) × JoinedFrom table rows

joined_mode :
    (table : ℕ → Mode) (rows : List SolveRow) (r : SolveRow)
    → JoinedFrom table rows
    → Memᴰ r rows
    → mode_of r ≡ table r.challenge_id
joined_mode table [] r j m = absurd (Memᴰ.not-nil m)
joined_mode table (x ∷ rows) r j (Memᴰ.head e) = rw e j.0
joined_mode table (x ∷ rows) r j (Memᴰ.tail m) = joined_mode table rows r j.1 m

pub JoinedFrom→Joined :
    (table : ℕ → Mode) (rows : List SolveRow) → JoinedFrom table rows → Joined rows
JoinedFrom→Joined table rows j a b ma mb e =
    joined_mode table rows a j ma ∙ ap table e ∙ sym (joined_mode table rows b j mb)

count_rows-counts :
    (c : ℕ) (rows : List SolveRow) (cs : Counts)
    → or_else 0 (lookup c (count_rows rows cs).solve_count)
      ≡ or_else 0 (lookup c cs.solve_count) + tally (counts_for c) rows
unfolding count_rows
count_rows-counts c [] cs = omega arith
count_rows-counts c (r ∷ rows) cs = ground (
  arith,
  count_rows-counts c rows (record {
    solve_count = counted r cs.solve_count;
    chal = first_mode r cs.chal (lookup r.challenge_id cs.chal);
  }),
  lookup-insert r.challenge_id c (suc (or_else 0 (lookup r.challenge_id cs.solve_count)))
      cs.solve_count,
  beq→eq r.challenge_id c,
)

lookup-first_mode_kept :
    (c : ℕ) (r : SolveRow) (chal : Dict ℕ Mode) (m : Mode)
    → lookup c chal ≡ some m
    → lookup c (first_mode r chal (lookup r.challenge_id chal)) ≡ some m
lookup-first_mode_kept c r chal m h = elim (Option-cases (lookup r.challenge_id chal)) [
  | inl e ↦ rw e (
      ground
        (arith, h, e, lookup-insert r.challenge_id c (mode_of r) chal, beq→eq r.challenge_id c))
  | inr (x, e) ↦ rw e h
]

count_rows-kept :
    (c : ℕ) (rows : List SolveRow) (cs : Counts) (m : Mode)
    → lookup c cs.chal ≡ some m
    → lookup c (count_rows rows cs).chal ≡ some m
unfolding count_rows
count_rows-kept c [] cs m h = h
count_rows-kept c (r ∷ rows) cs m h =
    count_rows-kept c rows _ m (lookup-first_mode_kept c r cs.chal m h)

-- The challenge of `r` has its scoring, or none yet.
abbrev Known : SolveRow → Dict ℕ Mode → Type 0
Known r chal = (lookup r.challenge_id chal ≡ none) ⊎ (lookup r.challenge_id chal ≡ some (mode_of r))

first_mode-same :
    (x r : SolveRow) (chal : Dict ℕ Mode)
    → x.challenge_id ≡ r.challenge_id
    → mode_of x ≡ mode_of r
    → Known r chal
    → lookup r.challenge_id (first_mode x chal (lookup x.challenge_id chal)) ≡ some (mode_of r)
first_mode-same x r chal id same (inl k) =
    rw (id, k)
      (ground (
        arith,
        same,
        lookup-insert r.challenge_id r.challenge_id (mode_of x) chal,
        beq_refl r.challenge_id,
      ))
first_mode-same x r chal id same (inr k) =
    lookup-first_mode_kept r.challenge_id x chal (mode_of r) k

first_mode-Known :
    (x r : SolveRow) (chal : Dict ℕ Mode)
    → (x.challenge_id == r.challenge_id) ≡ false
    → Known r chal
    → Known r (first_mode x chal (lookup x.challenge_id chal))
first_mode-Known x r chal e (inl k) =
    inl (ground (arith, k, e, lookup-insert x.challenge_id r.challenge_id (mode_of x) chal))
first_mode-Known x r chal e (inr k) =
    inr (lookup-first_mode_kept r.challenge_id x chal (mode_of r) k)

-- After the first loop, a challenge with a row has the scoring of its rows.
count_rows-mode :
    (r : SolveRow) (rows : List SolveRow) (cs : Counts)
    → Memᴰ r rows
    → Joined rows
    → Known r cs.chal
    → lookup r.challenge_id (count_rows rows cs).chal ≡ some (mode_of r)
unfolding count_rows
count_rows-mode r [] cs m j h = absurd (Memᴰ.not-nil m)
count_rows-mode r (x ∷ rows) cs m j h = elim (Bool-cases (x.challenge_id == r.challenge_id)) [
  | inl e ↦
      let id = beq→eq x.challenge_id r.challenge_id e in
      count_rows-kept r.challenge_id rows _ (mode_of r)
        (first_mode-same x r cs.chal id (j x r (Memᴰ.head refl) m id) h)
  | inr e ↦ elim (Memᴰ.cases_cons m) [
    | inl k ↦ absurd (ground (arith, k, e, beq_refl r.challenge_id))
    | inr t ↦
        count_rows-mode r rows _ t (λ a b ma mb. j a b (Memᴰ.tail ma) (Memᴰ.tail mb))
          (first_mode-Known x r cs.chal e h)
  ]
]

lookup-values :
    (engines : Registry Engine) (counts : Dict ℕ ℕ) (chal : Dict ℕ Mode) (c : ℕ) (cp : Mode)
    → lookup c chal ≡ some cp
    → is_builtin_mode cp.mode ≡ true
    → lookup c (values engines counts chal)
      ≡ some (value engines cp.mode cp.params (pos (or_else 0 (lookup c counts))))
unfolding values lookup
lookup-values engines counts [] c cp h b = cc
lookup-values engines counts ((id, m) ∷ chal) c cp h b = ground (
  arith,
  lookup-values engines counts chal c cp,
  beq→eq id c,
  beq_refl c,
  lookup-insert id c (value engines m.mode m.params (pos (or_else 0 (lookup id counts))))
      (values engines counts chal),
)

pub row_points-worth :
    (engines : Registry Engine) (rows : List SolveRow) (r : SolveRow) (c : Counts)
    → Memᴰ r rows
    → Joined rows
    → c ≡ count_rows rows (record { solve_count = []; chal = [] })
    → row_points (values engines c.solve_count c.chal) r ≡ worth engines rows r
unfolding worth lookup
row_points-worth engines rows r c m j e = elim (Bool-cases (is_builtin_mode r.scoring)) [
  | inl b ↦
      let known : lookup r.challenge_id c.chal ≡ some (mode_of r) =
        rw e (count_rows-mode r rows _ m j (inl refl)) in
      let counts : or_else 0 (lookup r.challenge_id c.solve_count)
          ≡ tally (counts_for r.challenge_id) rows =
        rw e (
          omega (
            arith,
            count_rows-counts r.challenge_id rows (record { solve_count = []; chal = [] }),
          )) in
      rw (b, lookup-values engines c.solve_count c.chal r.challenge_id (mode_of r) known b, counts)
  | inr b ↦ rw b
]
