-- ===== src/Limits/Pagination.antt =====
-- internal/pagination/pagination.go, with the conversions to int32 that Go truncates.
use native.Mathlib.Nat.{mul-le-mul}
use osctf.Prelude.{ℕ, ◌-◌, ◌*◌, ◌^◌, ◌≤◌, ◌<◌, ◌≡◌, Option, none, some, arith, if◌then◌else◌}
use osctf.Prelude.Int.{ℤ, pos, pos_part, ltb_ℤ, leb_ℤ}
use osctf.Submissions.Settlement.{to_int32}

-- `Params`; Normalize makes both positive.
pub record Params : Type 0 where
  pub page : ℕ
  pub per_page : ℕ

abbrev max_page : ℕ
max_page = 1000000

abbrev page_of : Option ℤ → ℕ
page_of none = 1
page_of (some p) =
    if leb_ℤ (pos 1) p then (if ltb_ℤ (pos max_page) p then max_page else pos_part p) else 1

abbrev per_page_of : Option ℤ → ℕ
per_page_of none = 50
per_page_of (some n) = if ltb_ℤ n (pos 1) then 1 else if ltb_ℤ (pos 200) n then 200 else pos_part n

-- `Normalize`
unfoldable pub normalize : Option ℤ → Option ℤ → Params
normalize page per_page = record { page = page_of page; per_page = per_page_of per_page }

-- `Limit`
unfoldable pub limit : Params → ℤ
limit p = to_int32 (pos p.per_page)

-- `Offset`; the page is at least 1.
unfoldable pub offset : Params → ℤ
offset p = to_int32 (pos ((p.page - 1) * p.per_page))

to_int32-small : (n : ℕ) → n < 2 ^ 31 → to_int32 (pos n) ≡ pos n
unfolding to_int32
to_int32-small n h = ground arith

normalize_bounds :
    (page per_page : Option ℤ)
    → (1 ≤ (normalize page per_page).page)
      × ((normalize page per_page).page ≤ max_page)
      × (1 ≤ (normalize page per_page).per_page)
      × ((normalize page per_page).per_page ≤ 200)
unfolding normalize
normalize_bounds page per_page = ground arith

-- Whatever page and size are asked for, the limit is from 1 to 200, and limit and offset are the
-- numbers meant, with nothing lost in the conversion to int32.
pub normalize_exact :
    (page per_page : Option ℤ)
    → let p = normalize page per_page in
      (limit p ≡ pos p.per_page)
      × (1 ≤ p.per_page)
      × (p.per_page ≤ 200)
      × (offset p ≡ pos ((p.page - 1) * p.per_page))
      × (1 ≤ p.page)
      × (p.page ≤ max_page)
unfolding limit offset
normalize_exact page per_page =
    let p = normalize page per_page in
    let (a, b, c, d) = normalize_bounds page per_page in
    (
      to_int32-small p.per_page (omega (arith, d)),
      c,
      d,
      to_int32-small ((p.page - 1) * p.per_page) (
          omega (
            arith,
            mul-le-mul {n₁ = p.page - 1} {m₁ = p.per_page} {n₂ = 1000000} {m₂ = 200}
                (omega (arith, b)) d,
          )),
      a,
      b,
    )
