-- ===== src/Limits/Budget.antt =====
-- internal/fdbudget/budget.go: the descriptors of the process, apportioned once. `want` is Go's int;
-- every number here is far below 2 ^ 63.
use Prim.Native.String.{String}
use osctf.Prelude.{
  ℕ, ◌+◌, ◌-◌, ◌/◌, ◌^◌, ◌<◌, ◌≡◌, refl, Bool, true, false, ◌&&◌, ◌||◌, List, [], ◌∷◌, ◌++◌, arith,
  if◌then◌else◌, ◌==◌, nat_key, ltb, leb, All, All-append,
}
use osctf.Prelude.Int.{ℤ, pos, pos_part, ltb_ℤ, leb_ℤ}

pub record Claim : Type 0 where
  pub name : String
  pub want : ℤ
  pub granted : ℤ
  pub clamped : Bool

pub record Budget : Type 0 where
  pub soft : ℕ
  pub reserved : ℕ
  pub remaining : ℕ
  pub unbounded : Bool
  pub claims : List Claim

abbrev unlimited : ℕ
unlimited = 2 ^ 31

abbrev reserve_of : ℕ → ℕ
reserve_of soft = if ltb (soft / 4) 256 then 256 else soft / 4

-- `New`
unfoldable pub new_budget : ℕ → Budget
new_budget soft =
    if soft == 0 || leb unlimited soft
    then (record { soft = 0; reserved = 0; remaining = 0; unbounded = true; claims = [] })
    else record {
      soft = soft;
      reserved = reserve_of soft;
      remaining = if ltb (reserve_of soft) soft then soft - reserve_of soft else 0;
      unbounded = false;
      claims = [];
    }

abbrev is_clamped : ℤ → ℕ → Bool
is_clamped want remaining = leb_ℤ want (pos 0) || ltb_ℤ (pos remaining) want

abbrev grant : ℤ → ℕ → ℤ
grant want remaining = if is_clamped want remaining then pos remaining else want

-- `Budget.Claim`
unfoldable pub claim_fds : String → ℤ → Budget → Budget × ℤ × Bool
claim_fds name want b =
    if b.unbounded
    then (
      record b {
        claims =
            b.claims ++ record { name = name; want = want; granted = want; clamped = false } ∷ [];
      },
      want,
      false,
    )
    else (
      record b {
        remaining = b.remaining - pos_part (grant want b.remaining);
        claims =
            b.claims
            ++ record {
              name = name;
              want = want;
              granted = grant want b.remaining;
              clamped = is_clamped want b.remaining;
            }
              ∷ [];
      },
      grant want b.remaining,
      is_clamped want b.remaining,
    )

-- The claims of the startup, in order.
unfoldable pub claim_all : List (String × ℤ) → Budget → Budget
claim_all [] b = b
claim_all ((name, want) ∷ wants) b = claim_all wants (claim_fds name want b).0

abbrev pub granted_sum : List Claim → ℕ
granted_sum [] = 0
granted_sum (c ∷ cs) = pos_part c.granted + granted_sum cs

-- A grant is not negative, is at most what was wanted if that was a number, and is reported as
-- clamped unless it is what was wanted.
abbrev pub fair : Claim → Bool
fair c =
    leb_ℤ (pos 0) c.granted
    && (leb_ℤ c.want (pos 0) || leb_ℤ c.granted c.want)
    && (c.clamped || (leb_ℤ c.granted c.want && leb_ℤ c.want c.granted))

granted_sum-append :
    (xs : List Claim) (c : Claim) → granted_sum (xs ++ c ∷ []) ≡ granted_sum xs + pos_part c.granted
granted_sum-append [] c = omega arith
granted_sum-append (x ∷ xs) c = omega (arith, granted_sum-append xs c)

-- What holds of a bounded budget whose claimable part is `whole`.
abbrev Apportioned : ℕ → Budget → Type 0
Apportioned whole b =
    (b.unbounded ≡ false) × (granted_sum b.claims + b.remaining ≡ whole) × All fair b.claims

claim_fds-Apportioned :
    (name : String) (want : ℤ) (whole : ℕ) (b : Budget)
    → Apportioned whole b
    → Apportioned whole (claim_fds name want b).0
unfolding claim_fds
claim_fds-Apportioned name want whole b (u, s, f) =
    let c : Claim = record {
      name = name;
      want = want;
      granted = grant want b.remaining;
      clamped = is_clamped want b.remaining;
    } in
    rw u (
      refl,
      ground (arith, s, granted_sum-append b.claims c),
      All-append fair b.claims (c ∷ []) f (ground arith, tt),
    )

claim_all-Apportioned :
    (wants : List (String × ℤ)) (whole : ℕ) (b : Budget)
    → Apportioned whole b
    → Apportioned whole (claim_all wants b)
unfolding claim_all
claim_all-Apportioned [] whole b a = a
claim_all-Apportioned ((name, want) ∷ wants) whole b a =
    claim_all-Apportioned wants whole (claim_fds name want b).0
      (claim_fds-Apportioned name want whole b a)

-- Under a limit that is a constraint, whatever is claimed in whatever order, the grants and what
-- is left add up to the limit less the reserve, and each grant is not negative, at most what was
-- wanted if that was positive, and reported as clamped if it is something else.
pub claim_all-fair :
    (soft : ℕ) (wants : List (String × ℤ))
    → 0 < soft
    → soft < unlimited
    → let b = claim_all wants (new_budget soft) in
      (granted_sum b.claims + b.remaining ≡ soft - reserve_of soft) × All fair b.claims
unfolding new_budget
claim_all-fair soft wants h k =
    let start : Apportioned (soft - reserve_of soft) (new_budget soft) = ground (arith, h, k) in
    let (u, sum, all) =
      claim_all-Apportioned wants (soft - reserve_of soft) (new_budget soft) start in
    (sum, all)
