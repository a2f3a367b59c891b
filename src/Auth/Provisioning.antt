-- ===== src/Auth/Provisioning.antt =====
-- The account that `provision` of internal/auth/external.go ends with, and the binding that is added.
use osctf.Prelude.{
  ℕ, zero, suc, ◌+◌, ◌≤◌, ◌≡◌, inl, inr, refl, false, none, List, [], ◌∷◌, ◌++◌, nat_key, text_key,
  arith, Bool-cases, Option-cases, Result, ok, err,
}
use osctf.Submissions.Store.{Text, bytes_key}
use osctf.Submissions.Queries.{first-none}
use osctf.Auth.Accounts.{
  User, Db, user_by_email, identity_of, is_identity, Refusal, unique_violation, other_violation,
  create_user, create_identity,
}
use osctf.Auth.External.{
  Env, Failure, get_again, create_user_row, bind, with_user, attach, new_user, after_create,
  provision,
}
use osctf.Auth.Names.{candidate_username}
use osctf.Auth.Usernames.{IsUsername, candidate_username-IsUsername}

abbrev pub with_binding : Text → Text → User → Db → Db
with_binding provider subject u db = record db {
  identities =
      db.identities ++ record { provider = provider; subject = subject; user_id = u.id } ∷ [];
}

module _ (env : Env) (provider subject : Text) where
  -- A binding of an identity that has none is the one that is added.
  pub bind-adds :
      (u : User) (db db' : Db) (done : Unit {0})
      → identity_of provider subject db.identities ≡ none
      → bind env provider subject u.id db ≡ (db', ok done)
      → db' ≡ with_binding provider subject u db
  unfolding bind create_identity identity_of
  bind-adds u db db' done new h =
      let absent = first-none (is_identity provider subject) db.identities new in
      ground (arith, absent, h)

  with_user-ok :
      (u v : User) (db' : Db) (res : Db × Result Failure (Unit {0}))
      → with_user u res ≡ (db', ok v)
      → (v ≡ u) × (res ≡ (db', ok tt))
  with_user-ok u v db' (d, ok done) h = ground (arith, h)
  with_user-ok u v db' (d, err e) h = absurd (ground (arith, h))

  pub attach-ok :
      (u v : User) (db db' : Db)
      → identity_of provider subject db.identities ≡ none
      → attach env provider subject u db ≡ (db', ok v)
      → (v ≡ u) × (u.banned ≡ false) × (db' ≡ with_binding provider subject u db)
  attach-ok u v db db' new h = elim (Bool-cases u.banned) [
    | inl b ↦ absurd (ground (arith, b, h))
    | inr b ↦
        let (same, bound) =
          with_user-ok u v db' (bind env provider subject u.id db) (ground (arith, b, h)) in
        (same, b, bind-adds u db db' tt new bound)
  ]

  create_user-ok :
      (u : User) (users users' : List User)
      → create_user u users ≡ ok users'
      → users' ≡ users ++ u ∷ []
  unfolding create_user
  create_user-ok u users users' h = ground (arith, h)

  module _ (email base : Text) (db db' : Db) (v : User)
      (new : identity_of provider subject db.identities ≡ none)
      (free : user_by_email email db.users ≡ none) (fits : IsUsername base) where
    -- The account that the search ends with.
    abbrev Provisioned : Type 0
    Provisioned =
        (id : ℕ) × (username : Text) × IsUsername username
        × (v ≡ new_user id username email)
        × (create_user v db.users ≡ ok (db.users ++ v ∷ []))
        × (db' ≡ with_binding provider subject v (record db { users = db.users ++ v ∷ [] }))

    created-Provisioned :
        (id : ℕ) (username : Text) (rest : Db × Result Failure User)
        → IsUsername username
        → (rest ≡ (db', ok v) → Provisioned)
        → (c : Result Refusal (List User)) → create_user (new_user id username email) db.users ≡ c
        → after_create env provider subject (new_user id username email) db rest c ≡ (db', ok v)
        → Provisioned
    created-Provisioned id username rest fit later (err other_violation) k h =
        absurd (ground (arith, h))
    created-Provisioned id username rest fit later (err unique_violation) k h =
        elim (Bool-cases (env.faults get_again)) [
          | inl f ↦ absurd (ground (arith, f, h))
          | inr f ↦ later (ground (arith, f, free, h))
        ]
    created-Provisioned id username rest fit later (ok users) k h =
        let fresh : User = new_user id username email in
        let same = create_user-ok fresh db.users users k in
        let (is_it, bound) =
          with_user-ok fresh v db'
            (bind env provider subject fresh.id (record db { users = users })) h in
        let added = bind-adds fresh (record db { users = users }) db' tt new bound in
        (
          id,
          username,
          fit,
          is_it,
          ground (arith, is_it, k, same),
          ground (arith, is_it, added, same),
        )

    pub provision-Provisioned :
        (left attempt : ℕ)
        → attempt + left ≤ 9
        → provision env provider subject email base left attempt db ≡ (db', ok v)
        → Provisioned
    unfolding provision
    provision-Provisioned zero attempt small h = absurd (ground (arith, h))
    provision-Provisioned (suc left) attempt small h = elim (Option-cases (env.new_id attempt)) [
      | inl n ↦ absurd (ground (arith, n, h))
      | inr (id, n) ↦ elim (Bool-cases (env.faults create_user_row)) [
        | inl f ↦ absurd (ground (arith, n, f, h))
        | inr f ↦
            created-Provisioned id (candidate_username base attempt) _
              (candidate_username-IsUsername base attempt (omega (arith, small)) fits)
              (λ k. provision-Provisioned left (attempt + 1) (omega (arith, small)) k)
              (create_user (new_user id (candidate_username base attempt) email) db.users) refl
              (ground (arith, n, f, h))
      ]
    ]
