-- ===== src/Auth/Tokens.antt =====
-- internal/auth/token.go: the API tokens. The hash is an argument, and so are the drawn bodies.
use Prim.Native.String.{String}
use osctf.Prelude.{
  ℕ, Bool, true, false, ◌&&◌, ◌||◌, not, Option, none, some, List, [], ◌∷◌, ◌++◌, if◌then◌else◌,
  ◌==◌, nat_key, text_key, ltb, keep, tally, length, Result, ok, err,
}
use osctf.Submissions.Store.{Text, bytes_key}
use osctf.Auth.Strings.{points, take}
use osctf.Auth.Accounts.{User, user_by_id}

-- `TokenPrefix`
abbrev pub token_prefix : Text
token_prefix = points "osctf_pat_"

-- `gen.ApiToken`
pub record ApiToken : Type 0 where
  pub id : ℕ
  pub user_id : ℕ
  pub name : Text
  pub token_hash : Text
  pub prefix : Text
  pub scopes : List String
  pub last_used_at : Option ℕ
  pub expires_at : Option ℕ

pub data Failure : Type 0 where
  invalid_token token_expired user_banned token_scope unknown_scope broken : Failure

pub data Query : Type 0 where
  get_by_prefix get_user insert_token delete_token delete_of_user : Query

-- `hashToken` is `hash`; a token that cannot be drawn has no body.
pub record Env : Type 0 where
  pub hash : Text → Text
  pub faults : Query → Bool
  pub new_id : Option ℕ
  pub new_body : Option Text

abbrev pub is_scope : String → Bool
is_scope s = s == "read" || s == "submit" || s == "admin"

-- `ValidateScopes`
unfoldable pub validate_scopes : List String → Bool
validate_scopes [] = true
validate_scopes (s ∷ scopes) = is_scope s && validate_scopes scopes

-- `strings.CutPrefix`
abbrev pub cut_prefix : Text → Text → Option Text
cut_prefix [] raw = some raw
cut_prefix (p ∷ prefix) [] = none
cut_prefix (p ∷ prefix) (c ∷ raw) =
    let rest = cut_prefix prefix raw in if p == c then rest else none

-- `parsePresented`
abbrev pub probe : (Text → Text) → Text → Option Text → Option (Text × Text)
probe hash raw none = none
probe hash raw (some body) = if ltb (length body) 12 then none else some (take 12 body, hash raw)

unfoldable pub parse_presented : (Text → Text) → Text → Option (Text × Text)
parse_presented hash raw = probe hash raw (cut_prefix token_prefix raw)

-- `GenerateToken`: the plaintext, its hash and its prefix.
abbrev pub generated : (Text → Text) → Text → Text × Text × Text
generated hash body = (token_prefix ++ body, hash (token_prefix ++ body), take 12 body)

abbrev pub has_hash : Text → ApiToken → Bool
has_hash hash t = t.token_hash == hash

-- `CreateAPIToken`, with the unique index on the hash and the primary key.
unfoldable pub insert_row : ApiToken → List ApiToken → Result Failure (List ApiToken)
insert_row t tokens =
    if ltb 0 (tally (λ x. x.id == t.id) tokens) || ltb 0 (tally (has_hash t.token_hash) tokens)
    then err broken
    else ok (tokens ++ t ∷ [])

abbrev pub issued :
    Text → List ApiToken → Result Failure (List ApiToken) → List ApiToken × Result Failure Text
issued plaintext tokens (err e) = (tokens, err e)
issued plaintext tokens (ok tokens') = (tokens', ok plaintext)

abbrev pub drawn :
    Env
    → ℕ
    → ℕ
    → Text
    → List String
    → Option ℕ
    → List ApiToken
    → Option Text
    → List ApiToken × Result Failure Text
drawn env id user name scopes expires tokens none = (tokens, err broken)
drawn env id user name scopes expires tokens (some body) =
    let (plaintext, hash, prefix) = generated env.hash body in
    issued plaintext tokens (
      if env.faults insert_token
      then err broken
      else insert_row
          (record {
            id = id;
            user_id = user;
            name = name;
            token_hash = hash;
            prefix = prefix;
            scopes = scopes;
            last_used_at = none;
            expires_at = expires;
          })
          tokens)

abbrev pub identified :
    Env
    → ℕ
    → Text
    → List String
    → Option ℕ
    → List ApiToken
    → Option ℕ
    → List ApiToken × Result Failure Text
identified env user name scopes expires tokens none = (tokens, err broken)
identified env user name scopes expires tokens (some id) =
    drawn env id user name scopes expires tokens env.new_body

-- `Create`, with the plaintext for its result.
unfoldable pub create :
    Env → ℕ → Text → List String → Option ℕ → List ApiToken → List ApiToken × Result Failure Text
create env user name scopes expires tokens =
    if not (validate_scopes scopes)
    then (tokens, err unknown_scope)
    else identified env user name scopes expires tokens env.new_id

-- `GetAPITokensByPrefix`
unfoldable pub by_prefix : Text → List ApiToken → List ApiToken
by_prefix prefix = keep (λ t. t.prefix == prefix)

-- The loop of `Authenticate`: the last candidate of the hash.
abbrev pub last_match : Text → List ApiToken → Option ApiToken → Option ApiToken
last_match hash [] found = found
last_match hash (t ∷ tokens) found =
    last_match hash tokens (if has_hash hash t then some t else found)

abbrev pub is_expired : ℕ → Option ℕ → Bool
is_expired now none = false
is_expired now (some at) = not (ltb now at)

-- `Identity`
pub record Identity : Type 0 where
  pub user_id : ℕ
  pub role : String
  pub scopes : List String
  pub token_id : ℕ

abbrev pub owned : ApiToken → Option User → Result Failure Identity
owned t none = err invalid_token
owned t (some u) =
    if u.banned
    then err user_banned
    else ok (record { user_id = u.id; role = u.role; scopes = t.scopes; token_id = t.id })

abbrev pub candidate : Env → ℕ → List User → Option ApiToken → Result Failure Identity
candidate env now users none = err invalid_token
candidate env now users (some t) =
    if is_expired now t.expires_at
    then err token_expired
    else if not (validate_scopes t.scopes)
    then err token_scope
    else owned t (if env.faults get_user then none else user_by_id t.user_id users)

abbrev pub presented :
    Env → ℕ → List ApiToken → List User → Option (Text × Text) → Result Failure Identity
presented env now tokens users none = err invalid_token
presented env now tokens users (some probe) =
    if env.faults get_by_prefix
    then err broken
    else candidate env now users (last_match probe.1 (by_prefix probe.0 tokens) none)

-- `Authenticate`
unfoldable pub authenticate : Env → ℕ → Text → List ApiToken → List User → Result Failure Identity
authenticate env now raw tokens users =
    presented env now tokens users (parse_presented env.hash raw)

abbrev pub is_owned_by : ℕ → ℕ → ApiToken → Bool
is_owned_by user id t = t.id == id && t.user_id == user

-- `Revoke`
unfoldable pub revoke : Env → ℕ → ℕ → List ApiToken → List ApiToken × Result Failure Bool
revoke env user id tokens = if env.faults delete_token then (tokens, err broken) else (
  keep (λ t. not (is_owned_by user id t)) tokens,
  ok (ltb 0 (tally (is_owned_by user id) tokens)),
)

-- `RevokeAny`
unfoldable pub revoke_any : Env → ℕ → List ApiToken → List ApiToken × Result Failure Bool
revoke_any env id tokens =
    if env.faults delete_token
    then (tokens, err broken)
    else (keep (λ t. not (t.id == id)) tokens, ok (ltb 0 (tally (λ t. t.id == id) tokens)))

-- `DeleteForUser`
unfoldable pub delete_for_user : Env → ℕ → List ApiToken → List ApiToken × Result Failure (Unit {0})
delete_for_user env user tokens =
    if env.faults delete_of_user
    then (tokens, err broken)
    else (keep (λ t. not (t.user_id == user)) tokens, ok tt)
