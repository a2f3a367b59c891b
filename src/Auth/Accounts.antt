-- ===== src/Auth/Accounts.antt =====
-- The tables of users and of outside identities, and the queries of internal/db/queries on them.
use Prim.Native.String.{String}
use osctf.Prelude.{
  ℕ, Bool, ◌&&◌, ◌||◌, not, Option, List, [], ◌∷◌, ◌++◌, if◌then◌else◌, ◌==◌, nat_key, text_key,
  ltb, leb, tally, length, Result, ok, err,
}
use osctf.Submissions.Store.{Text, bytes_key, first}
use osctf.Auth.Strings.{to_lower}

-- `gen.User`
pub record User : Type 0 where
  pub id : ℕ
  pub username : Text
  pub email : Text
  pub password_hash : Text
  pub role : String
  pub banned : Bool
  pub hidden : Bool

-- `gen.AuthIdentity`
pub record Identity : Type 0 where
  pub provider : Text
  pub subject : Text
  pub user_id : ℕ

pub record Db : Type 0 where
  pub users : List User
  pub identities : List Identity

-- Equality of `citext`.
abbrev pub same_ci : Text → Text → Bool
same_ci a b = to_lower a == to_lower b

-- `GetUserByID`
abbrev pub has_user_id : ℕ → User → Bool
has_user_id id u = u.id == id

unfoldable pub user_by_id : ℕ → List User → Option User
user_by_id id = first (has_user_id id)

-- `GetUserByEmail`
unfoldable pub user_by_email : Text → List User → Option User
user_by_email email = first (λ u. same_ci u.email email)

-- `GetAuthIdentity`
abbrev pub is_identity : Text → Text → Identity → Bool
is_identity provider subject i = i.provider == provider && i.subject == subject

unfoldable pub identity_of : Text → Text → List Identity → Option Identity
identity_of provider subject = first (is_identity provider subject)

pub data Refusal : Type 0 where
  unique_violation other_violation : Refusal

abbrev pub clashes : User → User → Bool
clashes u v = v.id == u.id || same_ci v.username u.username || same_ci v.email u.email

-- `CreateUser`, with the constraints of the table.
unfoldable pub create_user : User → List User → Result Refusal (List User)
create_user u users =
    if not (leb 3 (length u.username) && leb (length u.username) 32)
    then err other_violation
    else if not (u.role == "user" || u.role == "admin")
    then err other_violation
    else if ltb 0 (tally (clashes u) users)
    then err unique_violation
    else ok (users ++ u ∷ [])

-- `CreateAuthIdentity`, with its primary key and its foreign key.
unfoldable pub create_identity : Identity → Db → Result Refusal Db
create_identity i db =
    if ltb 0 (tally (is_identity i.provider i.subject) db.identities)
    then err unique_violation
    else if not (ltb 0 (tally (has_user_id i.user_id) db.users))
    then err other_violation
    else ok (record db { identities = db.identities ++ i ∷ [] })
