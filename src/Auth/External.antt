-- ===== src/Auth/External.antt =====
-- internal/auth/external.go: what the assertion of an auth plugin comes to.
use osctf.Prelude.{
  ℕ, zero, suc, ◌+◌, Bool, true, false, ◌||◌, not, Option, none, some, List, [], ◌∷◌, if◌then◌else◌,
  ◌==◌, nat_key, text_key, ltb, tally, length, Result, ok, err, ◌>>◌, fail_if,
}
use osctf.Submissions.Store.{Text, bytes_key}
use osctf.Auth.Strings.{points, to_lower, trim_space}
use osctf.Auth.Accounts.{
  User, Identity, Db, user_by_id, user_by_email, identity_of, Refusal, unique_violation,
  other_violation, create_user, create_identity,
}
use osctf.Auth.Names.{base_username, candidate_username}

-- `ProvisionPolicy`
pub data ProvisionPolicy : Type 0 where
  provision_open invite_only provision_off : ProvisionPolicy

-- `ParseProvisionPolicy`
unfoldable pub parse_provision_policy : Text → Option ProvisionPolicy
parse_provision_policy s =
    let p = to_lower (trim_space s) in
    if p == points "open"
    then some provision_open
    else if p == points "invite-only"
    then some invite_only
    else if p == points "off"
    then some provision_off
    else none

-- `ExternalIdentity`, with the keys of its claims.
pub record ExternalIdentity : Type 0 where
  pub subject : Text
  pub email : Text
  pub username : Text
  pub email_verified : Bool
  pub claim_keys : List Text

-- Why a login is rejected.
pub data Reason : Type 0 where
  empty_provider no_subject subject_too_long reserved_claim bound_banned unbound_and_off : Reason
  no_email unverified malformed_email matched_banned no_account no_username : Reason

pub data Failure : Type 0 where
  rejected : Reason → Failure
  broken : Failure

pub data Query : Type 0 where
  get_identity get_bound_user get_by_email create_user_row bind_identity get_again : Query

-- The policy, the failures of the database, the identifiers to be drawn, and `mail.ParseAddress`.
pub record Env : Type 0 where
  pub policy : ProvisionPolicy
  pub faults : Query → Bool
  pub new_id : ℕ → Option ℕ
  pub parses_address : Text → Bool

-- `reservedClaimKeys`
unfoldable pub reserved_claim_keys : List Text
reserved_claim_keys =
    points "admin"
    ∷ points "is_admin"
    ∷ points "isadmin"
    ∷ points "role"
    ∷ points "roles"
    ∷ points "user_id"
    ∷ points "userid"
    ∷ points "uid"
    ∷ points "scope"
    ∷ points "scopes"
    ∷ points "banned"
    ∷ points "hidden"
    ∷ []

abbrev pub is_reserved : Text → Bool
is_reserved k = ltb 0 (tally (λ r. r == to_lower (trim_space k)) reserved_claim_keys)

abbrev pub bound_by : Db → Result Refusal Db → Db × Result Failure (Unit {0})
bound_by db (ok db') = (db', ok tt)
bound_by db (err unique_violation) = (db, ok tt)
bound_by db (err other_violation) = (db, err broken)

-- `bind`
unfoldable pub bind : Env → Text → Text → ℕ → Db → Db × Result Failure (Unit {0})
bind env provider subject user db =
    if env.faults bind_identity
    then (db, err broken)
    else bound_by db
        (create_identity (record { provider = provider; subject = subject; user_id = user }) db)

abbrev pub with_user : User → Db × Result Failure (Unit {0}) → Db × Result Failure User
with_user u (db, ok done) = (db, ok u)
with_user u (db, err e) = (db, err e)

-- An account that is there, unless it is banned.
abbrev pub attach : Env → Text → Text → User → Db → Db × Result Failure User
attach env provider subject u db =
    if u.banned
    then (db, err (rejected matched_banned))
    else with_user u (bind env provider subject u.id db)

-- The account that is made: of the lowest role, with no password.
abbrev pub new_user : ℕ → Text → Text → User
new_user id username email = record {
  id = id;
  username = username;
  email = email;
  password_hash = points "!";
  role = "user";
  banned = false;
  hidden = false;
}

abbrev pub after_violation :
    Env
    → Text
    → Text
    → Text
    → Db
    → Db × Result Failure User
    → Option User
    → Db × Result Failure User
after_violation env provider subject email db rest (some u) = attach env provider subject u db
after_violation env provider subject email db rest none = rest

abbrev pub after_create :
    Env
    → Text
    → Text
    → User
    → Db
    → Db × Result Failure User
    → Result Refusal (List User)
    → Db × Result Failure User
after_create env provider subject u db rest (ok users) =
    with_user u (bind env provider subject u.id (record db { users = users }))
after_create env provider subject u db rest (err other_violation) = (db, err broken)
after_create env provider subject u db rest (err unique_violation) =
    if env.faults get_again
    then (db, err broken)
    else after_violation env provider subject u.email db rest (user_by_email u.email db.users)

abbrev pub attempt_user :
    Env
    → Text
    → Text
    → Text
    → Text
    → Db
    → Db × Result Failure User
    → Option ℕ
    → Db × Result Failure User
attempt_user env provider subject email username db rest none = (db, err broken)
attempt_user env provider subject email username db rest (some id) =
    if env.faults create_user_row
    then (db, err broken)
    else after_create env provider subject (new_user id username email) db rest
        (create_user (new_user id username email) db.users)

-- The loop of `provision`, with the attempts that are left.
unfoldable pub provision : Env → Text → Text → Text → Text → ℕ → ℕ → Db → Db × Result Failure User
provision env provider subject email base zero attempt db = (db, err (rejected no_username))
provision env provider subject email base (suc left) attempt db =
    let rest = provision env provider subject email base left (attempt + 1) db in
    attempt_user env provider subject email (candidate_username base attempt) db rest
      (env.new_id attempt)

abbrev pub provision_attempts : ℕ
provision_attempts = 8

-- The claims of an identity are well formed: its subject, trimmed.
unfoldable pub screened : Text → ExternalIdentity → Result Failure Text
screened provider id = do
  fail_if (trim_space provider == []) (rejected empty_provider)
  fail_if (trim_space id.subject == []) (rejected no_subject)
  fail_if (ltb 255 (length (trim_space id.subject))) (rejected subject_too_long)
  fail_if (ltb 0 (tally is_reserved id.claim_keys)) (rejected reserved_claim)
  ok (trim_space id.subject)

abbrev pub is_off : ProvisionPolicy → Bool
is_off provision_off = true
is_off _ = false

abbrev pub is_open : ProvisionPolicy → Bool
is_open provision_open = true
is_open _ = false

abbrev pub is_bracket : ℕ → Bool
is_bracket c = c == 32 || c == 60 || c == 62

-- The email of an identity that is not bound, if it may be used.
unfoldable pub verified_email : Env → ExternalIdentity → Result Failure Text
verified_email env id =
    let email = to_lower (trim_space id.email) in
    do
      fail_if (is_off env.policy) (rejected unbound_and_off)
      fail_if (email == []) (rejected no_email)
      fail_if (not id.email_verified) (rejected unverified)
      fail_if (not (env.parses_address email) || ltb 0 (tally is_bracket email))
          (rejected malformed_email)
      ok email

abbrev pub bound_user : Env → Db → Option User → Db × Result Failure User
bound_user env db none = (db, err broken)
bound_user env db (some u) = if u.banned then (db, err (rejected bound_banned)) else (db, ok u)

abbrev pub matched : Env → Text → Text → Text → Text → Db → Option User → Db × Result Failure User
matched env provider subject email suggested db (some u) = attach env provider subject u db
matched env provider subject email suggested db none =
    if not (is_open env.policy)
    then (db, err (rejected no_account))
    else provision env provider subject email (base_username suggested email) provision_attempts 0
        db

abbrev pub unbound :
    Env → Text → Text → ExternalIdentity → Db → Result Failure Text → Db × Result Failure User
unbound env provider subject id db (err e) = (db, err e)
unbound env provider subject id db (ok email) =
    if env.faults get_by_email
    then (db, err broken)
    else matched env provider subject email id.username db (user_by_email email db.users)

abbrev pub resolve_bound :
    Env → Text → Text → ExternalIdentity → Db → Option Identity → Db × Result Failure User
resolve_bound env provider subject id db none =
    unbound env provider subject id db (verified_email env id)
resolve_bound env provider subject id db (some i) =
    bound_user env db (if env.faults get_bound_user then none else user_by_id i.user_id db.users)

abbrev pub resolve_screened :
    Env → Text → ExternalIdentity → Db → Result Failure Text → Db × Result Failure User
resolve_screened env provider id db (err e) = (db, err e)
resolve_screened env provider id db (ok subject) =
    if env.faults get_identity
    then (db, err broken)
    else resolve_bound env provider subject id db (identity_of provider subject db.identities)

-- `Resolve`, with `resolve`.
unfoldable pub resolve : Env → Text → ExternalIdentity → Db → Db × Result Failure User
resolve env provider id db = resolve_screened env provider id db (screened provider id)
