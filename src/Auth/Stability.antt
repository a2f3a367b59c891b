-- ===== src/Auth/Stability.antt =====
-- A login through an outside provider leads to one account, and makes none but of the lowest role:
-- internal/auth/external.go.
use osctf.Prelude.{
  ℕ, zero, suc, ◌+◌, ◌≤◌, ◌≡◌, ◌⊎◌, inl, inr, refl, ap, ◌∙◌, Bool, false, not, Option, none, some,
  List, [], ◌∷◌, ◌++◌, nat_key, text_key, tally, arith, if_either, Bool-cases, Option-cases,
  beq_refl, Result, ok, err, tally_mono, tally-some, only_one,
}
use osctf.Submissions.Store.{Text, bytes_key, first}
use osctf.Submissions.Queries.{first-none, first_found, first-append}
use osctf.Auth.Strings.{points, trim_space}
use osctf.Auth.Accounts.{
  User, Identity, Db, user_by_id, user_by_email, has_user_id, identity_of, is_identity, clashes,
  Refusal, unique_violation, other_violation, create_user, create_identity,
}
use osctf.Auth.External.{
  ExternalIdentity, Env, Failure, get_identity, get_bound_user, get_by_email, get_again,
  create_user_row, bind, with_user, attach, new_user, after_violation, after_create, provision,
  screened, verified_email, bound_user, matched, unbound, is_open, resolve_bound, resolve_screened,
  resolve, provision_attempts,
}
use osctf.Auth.Names.{candidate_username, base_username}
use osctf.Auth.Resolution.{Granted, known, attached, provisioned, resolve-Granted}
use osctf.Auth.Provisioning.{with_binding}

-- The primary key of the users.
abbrev pub UniqueIds : List User → Type 0
UniqueIds users = (id : ℕ) → tally (has_user_id id) users ≤ 1

user_by_id-found :
    (p : User → Bool) (users : List User) (u : User)
    → UniqueIds users
    → first p users ≡ some u
    → user_by_id u.id users ≡ some u
unfolding user_by_id
user_by_id-found p users u unique h =
    let (m, t) = first_found p users u h in
    elim (Option-cases (first (has_user_id u.id) users)) [
      | inl n ↦ absurd (
          ground (
            arith,
            first-none (has_user_id u.id) users n,
            tally-some (has_user_id u.id) users u m (beq_refl u.id),
          ))
      | inr (v, n) ↦
          let (k, s) = first_found (has_user_id u.id) users v n in
          n
          ∙ ap (λ x. some x)
              (only_one (has_user_id u.id) users v u (unique u.id) k m s (beq_refl u.id))
    ]

identity-bound :
    (provider subject : Text) (u : User) (db : Db)
    → identity_of provider subject db.identities ≡ none
    → identity_of provider subject (with_binding provider subject u db).identities
      ≡ some (record { provider = provider; subject = subject; user_id = u.id })
unfolding identity_of
identity-bound provider subject u db new =
    first-append (is_identity provider subject) db.identities _
      (first-none (is_identity provider subject) db.identities new)
      (ground (arith, beq_refl provider, beq_refl subject))

user-created :
    (u : User) (users : List User)
    → create_user u users ≡ ok (users ++ u ∷ [])
    → user_by_id u.id (users ++ u ∷ []) ≡ some u
unfolding create_user user_by_id
user-created u users h =
    let no_clash : tally (clashes u) users ≡ 0 = ground (arith, h) in
    let fewer = tally_mono (has_user_id u.id) (clashes u) users (λ v t. ground (arith, t)) in
    first-append (has_user_id u.id) users u (omega (arith, no_clash, fewer)) (beq_refl u.id)

-- The account that an identity leads to, by its binding.
abbrev BoundTo : Text → Text → Db → User → Type 0
BoundTo provider subject db u =
    (i : Identity) × (identity_of provider subject db.identities ≡ some i)
    × (user_by_id i.user_id db.users ≡ some u)

Granted-BoundTo :
    (env : Env) (provider subject : Text) (id : ExternalIdentity) (db db' : Db) (u : User)
    → UniqueIds db.users
    → Granted env provider subject id db db' u
    → BoundTo provider subject db' u
unfolding user_by_email
Granted-BoundTo env provider subject id db db' u unique (known i k n same) = rw same (i, k, n)
Granted-BoundTo env provider subject id db db' u unique (attached v n same) =
    rw same (
      _,
      identity-bound provider subject u db v.new_identity,
      user_by_id-found _ db.users u unique n,
    )
Granted-BoundTo env provider subject id db db' u unique
      (provisioned v op n new_id username fit is_it row same) =
    rw same (
      _,
      identity-bound provider subject u (record db { users = db.users ++ u ∷ [] }) v.new_identity,
      user-created u db.users row,
    )

again :
    (env : Env) (provider subject : Text) (id : ExternalIdentity) (db : Db) (u : User)
    → env.faults get_identity ≡ false
    → env.faults get_bound_user ≡ false
    → u.banned ≡ false
    → screened provider id ≡ ok subject
    → BoundTo provider subject db u
    → resolve env provider id db ≡ (db, ok u)
unfolding resolve
again env provider subject id db u f g live s (i, k, n) =
    ap (resolve_screened env provider id db) s
    ∙ rw f (
        ap (resolve_bound env provider subject id db) k
        ∙ rw g (ap (bound_user env db) n ∙ rw live refl))

-- After a login through an outside provider that succeeded, where the identifiers of the users
-- are unique, the same provider and subject resolve to the same account and change no row,
-- whatever policy, email, name and verification come with them, as long as the new claims are
-- well formed and the two reads answer.
pub resolve_again :
    (env env' : Env) (provider : Text) (id id' : ExternalIdentity) (db db' : Db) (u : User)
    → UniqueIds db.users
    → resolve env provider id db ≡ (db', ok u)
    → env'.faults get_identity ≡ false
    → env'.faults get_bound_user ≡ false
    → screened provider id' ≡ ok (trim_space id.subject)
    → resolve env' provider id' db' ≡ (db', ok u)
resolve_again env env' provider id id' db db' u unique h f g s =
    let (clean, live, granted) = resolve-Granted env provider id db db' u h in
    again env' provider (trim_space id.subject) id' db' u f g live s
      (Granted-BoundTo env provider (trim_space id.subject) id db db' u unique granted)

-- The users stay as they are, but for one account of the lowest role at most.
abbrev pub OnlyLowest : Db → Db → Type 0
OnlyLowest db db' =
    (db'.users ≡ db.users)
    ⊎ ((u : User) × (db'.users ≡ db.users ++ u ∷ [])
        × (u.role ≡ "user")
        × (u.password_hash ≡ points "!"))

abbrev LowestOf : Db → Db × Result Failure User → Type 0
LowestOf db res = OnlyLowest db res.0

module _ (env : Env) (provider subject : Text) (db : Db) where
  bind-users : (user : ℕ) (d : Db) → (bind env provider subject user d).0.users ≡ d.users
  unfolding bind create_identity
  bind-users user d = ground arith

  with_user-users : (u : User) (res : Db × Result Failure (Unit {0})) → (with_user u res).0 ≡ res.0
  with_user-users u (d, ok done) = refl
  with_user-users u (d, err e) = refl

  attach-users : (u : User) (d : Db) → (attach env provider subject u d).0.users ≡ d.users
  attach-users u d = elim (Bool-cases u.banned) [
    | inl b ↦ simp b refl
    | inr b ↦ simp b (
        ap (λ x. x.users) (with_user-users u (bind env provider subject u.id d))
        ∙ bind-users u.id d)
  ]

  created-OnlyLowest :
      (id : ℕ) (username email : Text) (rest : Db × Result Failure User)
      → OnlyLowest db rest.0
      → (c : Result Refusal (List User)) → create_user (new_user id username email) db.users ≡ c
      → OnlyLowest db (after_create env provider subject (new_user id username email) db rest c).0
  unfolding create_user
  created-OnlyLowest id username email rest later (err other_violation) k = inl refl
  created-OnlyLowest id username email rest later (err unique_violation) k =
      elim (Bool-cases (env.faults get_again)) [
        | inl f ↦ rw f (inl refl)
        | inr f ↦ rw f (from (user_by_email email db.users))
      ]
    where
      from :
          (o : Option User) → OnlyLowest db (after_violation env provider subject email db rest o).0
      from none = later
      from (some u) = inl (attach-users u db)
  created-OnlyLowest id username email rest later (ok users) k =
      let u : User = new_user id username email in
      let same : users ≡ db.users ++ u ∷ [] = ground (arith, k) in
      inr (
        u,
        ap (λ x. x.users)
              (with_user-users u (bind env provider subject u.id (record db { users = users })))
            ∙ bind-users u.id (record db { users = users })
            ∙ same,
        refl,
        refl,
      )

  provision-OnlyLowest :
      (email base : Text) (left attempt : ℕ)
      → OnlyLowest db (provision env provider subject email base left attempt db).0
  unfolding provision
  provision-OnlyLowest email base zero attempt = inl refl
  provision-OnlyLowest email base (suc left) attempt = elim (Option-cases (env.new_id attempt)) [
    | inl n ↦ rw n (inl refl)
    | inr (id, n) ↦ elim (Bool-cases (env.faults create_user_row)) [
      | inl f ↦ simp (n, f) (inl refl)
      | inr f ↦
          simp (n, f)
            (created-OnlyLowest id (candidate_username base attempt) email _
              (provision-OnlyLowest email base left (attempt + 1)) _ refl)
    ]
  ]

  matched-OnlyLowest :
      (email suggested : Text) (o : Option User)
      → OnlyLowest db (matched env provider subject email suggested db o).0
  matched-OnlyLowest email suggested (some u) = inl (attach-users u db)
  matched-OnlyLowest email suggested none =
      if_either (LowestOf db) (not (is_open env.policy)) (inl refl)
        (provision-OnlyLowest email (base_username suggested email) provision_attempts 0)

  unbound-OnlyLowest :
      (id : ExternalIdentity) (r : Result Failure Text)
      → OnlyLowest db (unbound env provider subject id db r).0
  unbound-OnlyLowest id (err e) = inl refl
  unbound-OnlyLowest id (ok email) =
      if_either (LowestOf db) (env.faults get_by_email) (inl refl)
        (matched-OnlyLowest email id.username (user_by_email email db.users))

  bound-OnlyLowest : (o : Option User) → OnlyLowest db (bound_user env db o).0
  bound-OnlyLowest none = inl refl
  bound-OnlyLowest (some u) = if_either (LowestOf db) u.banned (inl refl) (inl refl)

  resolve_bound-OnlyLowest :
      (id : ExternalIdentity) (o : Option Identity)
      → OnlyLowest db (resolve_bound env provider subject id db o).0
  resolve_bound-OnlyLowest id none = unbound-OnlyLowest id (verified_email env id)
  resolve_bound-OnlyLowest id (some i) = bound-OnlyLowest _

-- Whether a login through an outside provider succeeds or fails, at any policy and any fault, the
-- users stay as they are but for at most one new account, whose role is user and whose password
-- hash is the unusable one.
pub resolve-OnlyLowest :
    (env : Env) (provider : Text) (id : ExternalIdentity) (db : Db)
    → OnlyLowest db (resolve env provider id db).0
unfolding resolve
resolve-OnlyLowest env provider id db = from (screened provider id)
  where
    from : (r : Result Failure Text) → OnlyLowest db (resolve_screened env provider id db r).0
    from (err e) = inl refl
    from (ok subject) = if_either (LowestOf db) (env.faults get_identity) (inl refl) (
        resolve_bound-OnlyLowest env provider subject db id
          (identity_of provider subject db.identities))
