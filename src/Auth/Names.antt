-- ===== src/Auth/Names.antt =====
-- The names that internal/auth/external.go derives for the accounts that it makes.
use osctf.Prelude.{
  ℕ, ◌+◌, ◌-◌, Bool, ◌||◌, [], ◌∷◌, ◌++◌, if◌then◌else◌, ◌==◌, nat_key, text_key, ltb, keep, length,
}
use osctf.Submissions.Store.{Text, bytes_key}
use osctf.Auth.Strings.{points, is_between, take}

abbrev pub is_word_code : ℕ → Bool
is_word_code c =
    is_between 97 122 c || is_between 65 90 c || is_between 48 57 c || c == 95 || c == 46 || c == 45

-- `sanitizeUsername`
unfoldable pub sanitize_username : Text → Text
sanitize_username s =
    let out = take 32 (keep is_word_code s) in if ltb (length out) 3 then [] else out

-- The suffix of an attempt: a dash and its number, of one digit.
abbrev pub suffix : ℕ → Text
suffix attempt = 45 ∷ (48 + (attempt + 1)) ∷ []

-- `candidateUsername`
unfoldable pub candidate_username : Text → ℕ → Text
candidate_username base attempt =
    if attempt == 0
    then base
    else if ltb 32 (length base + length (suffix attempt))
    then take (32 - length (suffix attempt)) base ++ suffix attempt
    else base ++ suffix attempt

abbrev pub before_at : Text → Text
before_at [] = []
before_at (c ∷ t) = let rest = before_at t in if c == 64 then [] else c ∷ rest

abbrev pub or_else : Text → Text → Text
or_else [] t = t
or_else (c ∷ s) t = c ∷ s

-- The part of the email before its first `@`, where there is one after the first character.
abbrev pub local_part : Text → Text
local_part email = if ltb (length (before_at email)) (length email) then before_at email else []

-- The name that the search starts from.
abbrev pub base_username : Text → Text → Text
base_username suggested email =
    or_else (sanitize_username suggested)
      (or_else (sanitize_username (local_part email)) (points "user"))
