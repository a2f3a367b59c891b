-- ===== src/Auth/Bearer.antt =====
-- Who a token of internal/auth/token.go lets in, from its creation to its revocation.
use mathlib.Core.List.{Memᴰ}
use osctf.Prelude.{
  ℕ, ◌≤◌, ◌≡◌, ◌≢◌, ◌⊎◌, inl, inr, refl, sym, ap, ◌∙◌, Bool, true, false, not, Option, none, some,
  List, [], ◌∷◌, ◌==◌, nat_key, text_key, ltb, keep, tally, length, ok, arith, Bool-cases,
  Option-cases, beq_refl, beq→eq, tally-some, keep_member, only_one,
}
use osctf.Submissions.Store.{Text, bytes_key}
use osctf.Auth.Strings.{take}
use osctf.Auth.Accounts.{User, user_by_id}
use osctf.Auth.Tokens.{
  token_prefix, ApiToken, Env, Identity, get_user, get_by_prefix, delete_token, validate_scopes,
  cut_prefix, probe, parse_presented, has_hash, by_prefix, last_match, is_expired, candidate,
  presented, authenticate, is_owned_by, revoke,
}

-- What the loop finds is a candidate of the hash, or what it had.
last_match-found :
    (hash : Text) (tokens : List ApiToken) (had : Option ApiToken) (t : ApiToken)
    → last_match hash tokens had ≡ some t
    → (Memᴰ t tokens × (t.token_hash ≡ hash)) ⊎ (had ≡ some t)
last_match-found hash [] had t h = inr h
last_match-found hash (x ∷ tokens) had t h = elim (Bool-cases (has_hash hash x)) [
  | inl y ↦ elim (last_match-found hash tokens (some x) t (rw y at h)) [
    | inl (m, e) ↦ inl (Memᴰ.tail m, e)
    | inr e ↦
        let same : x ≡ t = ground (arith, e) in
        inl (Memᴰ.head (sym same), ap (λ z. z.token_hash) (sym same) ∙ beq→eq x.token_hash hash y)
  ]
  | inr n ↦ elim (last_match-found hash tokens had t (rw n at h)) [
    | inl (m, e) ↦ inl (Memᴰ.tail m, e)
    | inr e ↦ inr e
  ]
]

-- A token that lets its bearer in as who they are now.
pub record Lets (env : Env) (now : ℕ) (raw : Text) (tokens : List ApiToken) (users : List User)
    (who : Identity) : Type 0 where
  pub token : ApiToken
  pub user : User
  pub stored : Memᴰ token tokens
  pub hashed : token.token_hash ≡ env.hash raw
  pub in_time : is_expired now token.expires_at ≡ false
  pub scoped : validate_scopes token.scopes ≡ true
  pub owner : user_by_id token.user_id users ≡ some user
  pub live : user.banned ≡ false
  pub is_theirs :
      who
      ≡ record { user_id = user.id; role = user.role; scopes = token.scopes; token_id = token.id }

module _ (env : Env) (now : ℕ) (users : List User) (who : Identity) where
  candidate-ok :
      (t : ApiToken)
      → candidate env now users (some t) ≡ ok who
      → (u : User) × (is_expired now t.expires_at ≡ false)
        × (validate_scopes t.scopes ≡ true)
        × (user_by_id t.user_id users ≡ some u)
        × (u.banned ≡ false)
        × (who ≡ record { user_id = u.id; role = u.role; scopes = t.scopes; token_id = t.id })
  candidate-ok t h = elim (Bool-cases (env.faults get_user)) [
    | inl f ↦ absurd (ground (arith, f, h))
    | inr f ↦ elim (Option-cases (user_by_id t.user_id users)) [
      | inl n ↦ absurd (ground (arith, f, n, h))
      | inr (u, n) ↦ (
        u,
        ground (arith, f, n, h),
        ground (arith, f, n, h),
        n,
        ground (arith, f, n, h),
        ground (arith, f, n, h),
      )
    ]
  ]

  -- A token that is accepted is stored under its hash, has not expired at that time and has known
  -- scopes only, its owner exists and is not banned, and the identity is the owner with the role
  -- of the moment and the scopes of the token.
  pub authenticate-accepted :
      (raw : Text) (tokens : List ApiToken)
      → authenticate env now raw tokens users ≡ ok who
      → Lets env now raw tokens users who
  unfolding authenticate parse_presented by_prefix
  authenticate-accepted raw tokens h = from (cut_prefix token_prefix raw) h
    where
      found :
          (prefix : Text) (o : Option ApiToken)
          → last_match (env.hash raw) (by_prefix prefix tokens) none ≡ o
          → candidate env now users o ≡ ok who
          → Lets env now raw tokens users who
      found prefix none k g = absurd (ground (arith, g))
      found prefix (some t) k g =
          elim (last_match-found (env.hash raw) (by_prefix prefix tokens) none t k) [
            | inr e ↦ absurd (ground (arith, e))
            | inl (m, e) ↦
                let (u, in_time, scoped, owner, live, theirs) = candidate-ok t g in
                record {
                  token = t;
                  user = u;
                  stored = (keep_member (λ x. x.prefix == prefix) tokens t m).0;
                  hashed = e;
                  in_time = in_time;
                  scoped = scoped;
                  owner = owner;
                  live = live;
                  is_theirs = theirs;
                }
          ]

      from :
          (o : Option Text)
          → presented env now tokens users (probe env.hash raw o) ≡ ok who
          → Lets env now raw tokens users who
      from none g = absurd (ground (arith, g))
      from (some body) g = elim (Bool-cases (ltb (length body) 12)) [
        | inl y ↦ absurd (ground (arith, y, g))
        | inr n ↦ elim (Bool-cases (env.faults get_by_prefix)) [
          | inl f ↦ absurd (ground (arith, n, f, g))
          | inr f ↦ found (take 12 body) _ refl (ground (arith, n, f, g))
        ]
      ]

-- The unique index on the hash.
abbrev pub UniqueHashes : List ApiToken → Type 0
UniqueHashes tokens = (hash : Text) → tally (has_hash hash) tokens ≤ 1

-- Where the hashes are unique, when the owner revokes a stored token and the query answers, the
-- reply is true, and from then on no text of that hash is accepted, at any time and for any
-- users.
pub revoke-authenticate :
    (env : Env) (tokens tokens' : List ApiToken) (t : ApiToken) (there : Bool)
    → UniqueHashes tokens
    → Memᴰ t tokens
    → revoke env t.user_id t.id tokens ≡ (tokens', ok there)
    → (there ≡ true)
      × ((env' : Env) (now : ℕ) (raw : Text) (users : List User) (who : Identity)
          → env'.hash raw ≡ t.token_hash
          → authenticate env' now raw tokens' users ≢ ok who)
unfolding revoke
revoke-authenticate env tokens tokens' t there unique m h =
    elim (Bool-cases (env.faults delete_token)) [
      | inl f ↦ absurd (ground (arith, f, h))
      | inr f ↦
          let mine : is_owned_by t.user_id t.id t ≡ true =
            ground (arith, beq_refl t.id, beq_refl t.user_id) in
          let counted = tally-some (is_owned_by t.user_id t.id) tokens t m mine in
          let left : tokens' ≡ keep (λ x. not (is_owned_by t.user_id t.id x)) tokens =
            ground (arith, f, h) in
          (
            ground (arith, f, h, counted),
            λ env' now raw users who same g.
                let lets =
                  authenticate-accepted env' now users who raw
                    (keep (λ x. not (is_owned_by t.user_id t.id x)) tokens) (rw left at g) in
                let (k, other) =
                  keep_member (λ x. not (is_owned_by t.user_id t.id x)) tokens lets.token
                    lets.stored in
                let hashed : has_hash t.token_hash lets.token ≡ true =
                  rw (lets.hashed, same) (beq_refl t.token_hash) in
                let is_it =
                  only_one (has_hash t.token_hash) tokens lets.token t (unique t.token_hash) k m
                    hashed (beq_refl t.token_hash) in
                let mine' : is_owned_by t.user_id t.id lets.token ≡ true = rw is_it mine in
                ground (arith, mine', other),
          )
    ]
