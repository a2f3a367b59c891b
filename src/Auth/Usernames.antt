-- ===== src/Auth/Usernames.antt =====
-- The names that internal/auth/external.go gives to accounts keep to the rule of registration.
use osctf.Prelude.{
  ℕ, zero, suc, ◌+◌, ◌≤◌, ◌≡◌, ◌⊎◌, inl, inr, refl, [], ◌∷◌, ◌==◌, nat_key, ltb, keep, length, All,
  All-append, All-keep, length-append, arith, Bool-cases,
}
use osctf.Submissions.Store.{Text, bytes_key}
use osctf.Auth.Strings.{take, length-take}
use osctf.Auth.Names.{
  is_word_code, sanitize_username, suffix, candidate_username, or_else, base_username, local_part,
}

-- `^[a-zA-Z0-9_.-]+$`, and the length.
pub record IsUsername (t : Text) : Type 0 where
  pub words : All is_word_code t
  pub long : 3 ≤ length t
  pub short : length t ≤ 32

All-take : (n : ℕ) (t : Text) → All is_word_code t → All is_word_code (take n t)
All-take zero t h = tt
All-take (suc n) [] h = tt
All-take (suc n) (c ∷ t) h = (h.0, All-take n t h.1)

length-take_exact : (n : ℕ) (t : Text) → n ≤ length t → length (take n t) ≡ n
length-take_exact zero t h = refl
length-take_exact (suc n) [] h = absurd (ground (arith, h))
length-take_exact (suc n) (c ∷ t) h = ground (arith, length-take_exact n t, h)

sanitize_username-IsUsername :
    (s : Text) → (sanitize_username s ≡ []) ⊎ IsUsername (sanitize_username s)
unfolding sanitize_username
sanitize_username-IsUsername s =
    let out = take 32 (keep is_word_code s) in
    elim (Bool-cases (ltb (length out) 3)) [
      | inl y ↦ inl (rw y refl)
      | inr n ↦ inr (
          rw n (record {
            words = All-take 32 (keep is_word_code s) (All-keep is_word_code s);
            long = ground (arith, n);
            short = length-take 32 (keep is_word_code s);
          }))
    ]

or_else-IsUsername :
    (s t : Text) → (s ≡ []) ⊎ IsUsername s → IsUsername t → IsUsername (or_else s t)
or_else-IsUsername [] t h u = u
or_else-IsUsername (c ∷ s) t (inl e) u = cc
or_else-IsUsername (c ∷ s) t (inr h) u = h

pub base_username-IsUsername : (suggested email : Text) → IsUsername (base_username suggested email)
base_username-IsUsername suggested email =
    or_else-IsUsername _ _ (sanitize_username-IsUsername suggested) (
      or_else-IsUsername _ _ (sanitize_username-IsUsername (local_part email)) (record {
        words = (refl, (refl, (refl, (refl, tt))));
        long = ground arith;
        short = ground arith;
      }))

suffix_words : (attempt : ℕ) → attempt ≤ 8 → All is_word_code (suffix attempt)
suffix_words attempt h = (refl, (ground (arith, h), tt))

pub candidate_username-IsUsername :
    (base : Text) (attempt : ℕ)
    → attempt ≤ 8
    → IsUsername base
    → IsUsername (candidate_username base attempt)
unfolding candidate_username
candidate_username-IsUsername base attempt small b = elim (Bool-cases (attempt == 0)) [
  | inl z ↦ rw z b
  | inr nz ↦ elim (Bool-cases (ltb 32 (length base + length (suffix attempt)))) [
    | inl y ↦
        rw (nz, y)
          (let cut = length-take_exact 30 base (ground (arith, y)) in
            record {
              words =
                  All-append is_word_code (take 30 base) (suffix attempt) (All-take 30 base b.words)
                    (suffix_words attempt small);
              long = omega (arith, cut, length-append (take 30 base) (suffix attempt));
              short = omega (arith, cut, length-append (take 30 base) (suffix attempt));
            })
    | inr n ↦
        rw (nz, n)
          (record {
            words =
                All-append is_word_code base (suffix attempt) b.words (suffix_words attempt small);
            long = omega (arith, b.long, length-append base (suffix attempt));
            short = ground (arith, n, length-append base (suffix attempt));
          })
  ]
]
