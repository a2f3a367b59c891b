-- ===== src/Teams/Invites.antt =====
-- The invite codes of internal/teams/invite.go.
use osctf.Prelude.{
  ℕ, zero, suc, ◌%◌, ◌<◌, ◌≡◌, refl, ap, Bool, true, false, some, List, [], ◌∷◌, arith, length, All,
  ◌==◌, nat_key, if◌then◌else◌,
}
use osctf.Submissions.Store.{Text}
use osctf.Teams.Admin.{crockford, index, invite_code_of}

abbrev pub in_alphabet : List ℕ → ℕ → Bool
in_alphabet [] c = false
in_alphabet (x ∷ xs) c = if x == c then true else in_alphabet xs c

-- An index within a list finds an element of it.
index-found :
    (xs : List ℕ) (i : ℕ)
    → i < length xs
    → (c : ℕ) × (index xs i ≡ some c) × (in_alphabet xs c ≡ true)
index-found [] i h = absurd (omega (arith, h))
index-found (x ∷ xs) zero h = (x, refl, ground arith)
index-found (x ∷ xs) (suc i) h =
    let (c, e, a) = index-found xs i (omega (arith, h)) in (c, e, ground (arith, a))

-- Whatever the random bytes are, an invite code is produced with no index out of range, has as
-- many characters as there are bytes, and all of them are in the Crockford alphabet.
pub invite_code_total :
    (bytes : List ℕ)
    → (code : Text) × (invite_code_of bytes ≡ some code)
      × (length code ≡ length bytes)
      × (All (in_alphabet crockford) code)
unfolding invite_code_of
invite_code_total [] = ([], refl, refl, tt)
invite_code_total (b ∷ bytes) =
    let (code, e, l, a) = invite_code_total bytes in
    let (c, f, i) = index-found crockford (b % 32) (omega arith) in
    (c ∷ code, ground (arith, e, f), ap suc l, (i, a))
