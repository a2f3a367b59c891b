-- ===== src/Auth/Resolution.antt =====
-- What a login through an outside provider is granted: `Resolve` of internal/auth/external.go.
use osctf.Prelude.{
  ℕ, ◌≡◌, inl, inr, refl, sym, ap, ◌∙◌, true, false, Option, none, some, [], ◌∷◌, ◌++◌, ◌==◌,
  nat_key, text_key, tally, arith, Bool-cases, Option-cases, Result, ok, err,
}
use osctf.Submissions.Store.{Text, bytes_key}
use osctf.Auth.Strings.{trim_space, to_lower}
use osctf.Auth.Accounts.{User, Identity, Db, user_by_id, user_by_email, identity_of, create_user}
use osctf.Auth.External.{
  ExternalIdentity, Env, Failure, get_identity, get_bound_user, get_by_email, new_user,
  provision_attempts, screened, verified_email, matched, unbound, resolve_bound, resolve_screened,
  resolve, is_off, is_open, is_reserved,
}
use osctf.Auth.Names.{base_username}
use osctf.Auth.Usernames.{IsUsername, base_username-IsUsername}
use osctf.Auth.Provisioning.{with_binding, attach-ok, provision-Provisioned}

-- A provider vouched for the email of an identity with no binding, and the policy looks at it.
pub record Vouched (env : Env) (provider subject : Text) (id : ExternalIdentity) (db : Db)
    : Type 0 where
  pub new_identity : identity_of provider subject db.identities ≡ none
  pub policy : is_off env.policy ≡ false
  pub email_verified : id.email_verified ≡ true
  pub nonempty : (to_lower (trim_space id.email) == []) ≡ false

-- What a login may be granted.
pub data Granted (env : Env) (provider subject : Text) (id : ExternalIdentity) (db db' : Db)
    (u : User) : Type 0 where
  known :
      (i : Identity)
      → identity_of provider subject db.identities ≡ some i
      → user_by_id i.user_id db.users ≡ some u
      → db' ≡ db
      → Granted env provider subject id db db' u
  attached :
      Vouched env provider subject id db
      → user_by_email (to_lower (trim_space id.email)) db.users ≡ some u
      → db' ≡ with_binding provider subject u db
      → Granted env provider subject id db db' u
  provisioned :
      Vouched env provider subject id db
      → is_open env.policy ≡ true
      → user_by_email (to_lower (trim_space id.email)) db.users ≡ none
      → (new_id : ℕ) (username : Text) → IsUsername username
      → u ≡ new_user new_id username (to_lower (trim_space id.email))
      → create_user u db.users ≡ ok (db.users ++ u ∷ [])
      → db' ≡ with_binding provider subject u (record db { users = db.users ++ u ∷ [] })
      → Granted env provider subject id db db' u

screened-trimmed :
    (provider : Text) (id : ExternalIdentity) (subject : Text)
    → screened provider id ≡ ok subject
    → (subject ≡ trim_space id.subject) × (tally is_reserved id.claim_keys ≡ 0)
unfolding screened
screened-trimmed provider id subject h = ground arith

module _ (env : Env) (provider subject : Text) where
  verified_email-Vouched :
      (id : ExternalIdentity) (db : Db) (email : Text)
      → identity_of provider subject db.identities ≡ none
      → verified_email env id ≡ ok email
      → Vouched env provider subject id db × (email ≡ to_lower (trim_space id.email))
  unfolding verified_email
  verified_email-Vouched id db email new h = (
    record {
      new_identity = new;
      policy = ground (arith, h);
      email_verified = ground (arith, h);
      nonempty = ground (arith, h);
    },
    ground (arith, h),
  )

  matched-Granted :
      (id : ExternalIdentity) (db db' : Db) (v : User) (email : Text) (o : Option User)
      → Vouched env provider subject id db
      → email ≡ to_lower (trim_space id.email)
      → user_by_email email db.users ≡ o
      → matched env provider subject email id.username db o ≡ (db', ok v)
      → Granted env provider subject id db db' v × (v.banned ≡ false)
  matched-Granted id db db' v email (some u) vouched e k h =
      let (same, live, added) = attach-ok env provider subject u v db db' vouched.new_identity h in
      (
        attached vouched
            (ap (λ x. user_by_email x db.users) (sym e) ∙ k ∙ ap (λ x. some x) (sym same))
            (rw same added),
        rw same live,
      )
  matched-Granted id db db' v email none vouched e k h = elim (Bool-cases (is_open env.policy)) [
    | inr n ↦ absurd (ground (arith, n, h))
    | inl y ↦
        let (new_id, username, fit, is_it, row, added) =
          provision-Provisioned env provider subject email (base_username id.username email) db db'
            v vouched.new_identity k (base_username-IsUsername id.username email) provision_attempts
            0 (omega arith) (ground (arith, y, h)) in
        (
          provisioned vouched y (ap (λ x. user_by_email x db.users) (sym e) ∙ k) new_id username fit
              (is_it ∙ ap (new_user new_id username) e) row added,
          ground (arith, is_it),
        )
  ]

  unbound-Granted :
      (id : ExternalIdentity) (db db' : Db) (v : User)
      → identity_of provider subject db.identities ≡ none
      → unbound env provider subject id db (verified_email env id) ≡ (db', ok v)
      → Granted env provider subject id db db' v × (v.banned ≡ false)
  unbound-Granted id db db' v new h = from (verified_email env id) refl h
    where
      from :
          (r : Result Failure Text)
          → verified_email env id ≡ r
          → unbound env provider subject id db r ≡ (db', ok v)
          → Granted env provider subject id db db' v × (v.banned ≡ false)
      from (err e) k g = absurd (ground (arith, g))
      from (ok email) k g = elim (Bool-cases (env.faults get_by_email)) [
        | inl f ↦ absurd (ground (arith, f, g))
        | inr f ↦
            let (vouched, e) = verified_email-Vouched id db email new k in
            matched-Granted id db db' v email (user_by_email email db.users) vouched e refl
              (ground (arith, f, g))
      ]

  bound_user-Granted :
      (id : ExternalIdentity) (db db' : Db) (v : User) (i : Identity)
      → identity_of provider subject db.identities ≡ some i
      → resolve_bound env provider subject id db (some i) ≡ (db', ok v)
      → Granted env provider subject id db db' v × (v.banned ≡ false)
  bound_user-Granted id db db' v i k h = elim (Bool-cases (env.faults get_bound_user)) [
    | inl f ↦ absurd (ground (arith, f, h))
    | inr f ↦ elim (Option-cases (user_by_id i.user_id db.users)) [
      | inl n ↦ absurd (ground (arith, f, n, h))
      | inr (u, n) ↦ elim (Bool-cases u.banned) [
        | inl b ↦ absurd (ground (arith, f, n, b, h))
        | inr b ↦
            let same : u ≡ v = ground (arith, f, n, b, h) in
            (known i k (n ∙ ap (λ x. some x) same) (ground (arith, f, n, b, h)), rw (← same) b)
      ]
    ]
  ]

  resolve_screened-Granted :
      (id : ExternalIdentity) (db db' : Db) (v : User)
      → resolve_screened env provider id db (ok subject) ≡ (db', ok v)
      → Granted env provider subject id db db' v × (v.banned ≡ false)
  resolve_screened-Granted id db db' v h = elim (Bool-cases (env.faults get_identity)) [
    | inl f ↦ absurd (ground (arith, f, h))
    | inr f ↦ elim (Option-cases (identity_of provider subject db.identities)) [
      | inl n ↦ unbound-Granted id db db' v n (ground (arith, f, n, h))
      | inr (i, n) ↦ bound_user-Granted id db db' v i n (ground (arith, f, n, h))
    ]
  ]

-- A login through an outside provider that succeeds is granted by the table of the policy: no
-- claim has a reserved key, the account is not banned, and it is the account that the identity
-- was bound to already (with no row changed), or, where the provider vouched for the email and
-- the policy is not off, the account of that email, now bound, or, where the policy is open and
-- no account has that email, a new account of the lowest role with no password and a name that
-- the rule of registration allows, now bound.
pub resolve-Granted :
    (env : Env) (provider : Text) (id : ExternalIdentity) (db db' : Db) (u : User)
    → resolve env provider id db ≡ (db', ok u)
    → (tally is_reserved id.claim_keys ≡ 0)
      × (u.banned ≡ false)
      × Granted env provider (trim_space id.subject) id db db' u
unfolding resolve
resolve-Granted env provider id db db' u h = from (screened provider id) refl h
  where
    from :
        (r : Result Failure Text)
        → screened provider id ≡ r
        → resolve_screened env provider id db r ≡ (db', ok u)
        → (tally is_reserved id.claim_keys ≡ 0)
          × (u.banned ≡ false)
          × Granted env provider (trim_space id.subject) id db db' u
    from (err e) k g = absurd (ground (arith, g))
    from (ok subject) k g =
        let (trimmed, clean) = screened-trimmed provider id subject k in
        let (granted, live) = resolve_screened-Granted env provider subject id db db' u g in
        (clean, live, rw (← trimmed) granted)
