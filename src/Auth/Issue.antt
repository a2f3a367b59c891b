-- ===== src/Auth/Issue.antt =====
-- A token of internal/auth/token.go that was just created lets its owner in.
use Prim.Native.String.{String}
use osctf.Prelude.{
  ℕ, ◌≤◌, ◌≡◌, inl, inr, refl, ap, ◌∙◌, true, false, Option, none, some, List, [], ◌∷◌, ◌++◌,
  nat_key, text_key, ltb, tally, length, ok, arith, Bool-cases, Option-cases, Result-cases,
  beq_refl,
}
use osctf.Submissions.Store.{Text, bytes_key}
use osctf.Auth.Strings.{take}
use osctf.Auth.Accounts.{User, user_by_id}
use osctf.Auth.Tokens.{
  token_prefix, ApiToken, Env, get_user, get_by_prefix, insert_token, validate_scopes, cut_prefix,
  probe, parse_presented, has_hash, insert_row, create, by_prefix, last_match, is_expired, owned,
  candidate, presented, authenticate,
}

cut_prefix-append : (prefix body : Text) → cut_prefix prefix (prefix ++ body) ≡ some body
cut_prefix-append [] body = refl
cut_prefix-append (c ∷ prefix) body = rw (beq_refl c) (cut_prefix-append prefix body)

-- Where one candidate has the hash, it is found.
last_match-append :
    (hash prefix : Text) (tokens : List ApiToken) (t : ApiToken)
    → tally (has_hash hash) tokens ≡ 0
    → t.token_hash ≡ hash
    → t.prefix ≡ prefix
    → last_match hash (by_prefix prefix (tokens ++ t ∷ [])) none ≡ some t
unfolding by_prefix
last_match-append hash prefix [] t new e p = ground (arith, e, p, beq_refl hash, beq_refl prefix)
last_match-append hash prefix (x ∷ tokens) t new e p =
    ground (arith, last_match-append hash prefix tokens t (ground (arith, new)) e p, new)

insert_row-ok :
    (t : ApiToken) (tokens tokens' : List ApiToken)
    → insert_row t tokens ≡ ok tokens'
    → (tokens' ≡ tokens ++ t ∷ []) × (tally (has_hash t.token_hash) tokens ≡ 0)
unfolding insert_row
insert_row-ok t tokens tokens' h = ground (arith, h)

module _ (env : Env) (user : ℕ) (name : Text) (scopes : List String) (expires : Option ℕ)
    (tokens tokens' : List ApiToken) (plaintext : Text) where
  -- The row that a successful creation adds.
  abbrev Created : Type 0
  Created =
      (id : ℕ) × (body : Text) × (env.new_id ≡ some id)
      × (env.new_body ≡ some body)
      × (validate_scopes scopes ≡ true)
      × (plaintext ≡ token_prefix ++ body)
      × (tally (has_hash (env.hash plaintext)) tokens ≡ 0)
      × (tokens'
          ≡ tokens
            ++ record {
              id = id;
              user_id = user;
              name = name;
              token_hash = env.hash plaintext;
              prefix = take 12 body;
              scopes = scopes;
              last_used_at = none;
              expires_at = expires;
            }
              ∷ [])

  create-Created : create env user name scopes expires tokens ≡ (tokens', ok plaintext) → Created
  unfolding create
  create-Created h = elim (Bool-cases (validate_scopes scopes)) [
    | inr n ↦ absurd (ground (arith, n, h))
    | inl v ↦ elim (Option-cases env.new_id) [
      | inl n ↦ absurd (ground (arith, v, n, h))
      | inr (id, i) ↦ elim (Option-cases env.new_body) [
        | inl n ↦ absurd (ground (arith, v, i, n, h))
        | inr (body, b) ↦ elim (Bool-cases (env.faults insert_token)) [
          | inl f ↦ absurd (ground (arith, v, i, b, f, h))
          | inr f ↦
              let row : ApiToken = record {
                id = id;
                user_id = user;
                name = name;
                token_hash = env.hash (token_prefix ++ body);
                prefix = take 12 body;
                scopes = scopes;
                last_used_at = none;
                expires_at = expires;
              } in
              elim (Result-cases (insert_row row tokens)) [
                | inl (e, k) ↦ absurd (ground (arith, v, i, b, f, k, h))
                | inr (all, k) ↦
                    let (added, new) = insert_row-ok row tokens all k in
                    let same : plaintext ≡ token_prefix ++ body =
                      ground (arith, v, i, b, f, k, h) in
                    let rows : tokens' ≡ all = ground (arith, v, i, b, f, k, h) in
                    (id, body, i, b, v, same, rw same new, rw same (rows ∙ added))
              ]
        ]
      ]
    ]
  ]

-- The plaintext that a creation returns, where the drawn body has at least 12 characters, is
-- accepted before its expiry as long as the owner exists and is not banned and the reads answer,
-- with the role of the owner, the scopes asked for and the identifier drawn.
pub create-authenticate :
    (env env' : Env) (now user : ℕ) (name : Text) (scopes : List String) (expires : Option ℕ)
    (tokens tokens' : List ApiToken) (plaintext : Text) (users : List User) (u : User)
    → create env user name scopes expires tokens ≡ (tokens', ok plaintext)
    → ((body : Text) → env.new_body ≡ some body → 12 ≤ length body)
    → env'.hash plaintext ≡ env.hash plaintext
    → env'.faults get_by_prefix ≡ false
    → env'.faults get_user ≡ false
    → is_expired now expires ≡ false
    → user_by_id user users ≡ some u
    → u.banned ≡ false
    → (id : ℕ) × (env.new_id ≡ some id)
      × (authenticate env' now plaintext tokens' users
          ≡ ok (record { user_id = u.id; role = u.role; scopes = scopes; token_id = id }))
unfolding authenticate parse_presented
create-authenticate env env' now user name scopes expires tokens tokens' plaintext users u h long
      same f g fresh owner live =
    let (id, body, i, b, valid, is_it, new, added) =
      create-Created env user name scopes expires tokens tokens' plaintext h in
    let row : ApiToken = record {
      id = id;
      user_id = user;
      name = name;
      token_hash = env.hash plaintext;
      prefix = take 12 body;
      scopes = scopes;
      last_used_at = none;
      expires_at = expires;
    } in
    let cut : cut_prefix token_prefix plaintext ≡ some body =
      ap (cut_prefix token_prefix) is_it ∙ cut_prefix-append token_prefix body in
    let enough : ltb (length body) 12 ≡ false = ground (arith, long body b) in
    let found : last_match (env'.hash plaintext) (by_prefix (take 12 body) tokens') none
        ≡ some row =
      ap (λ x. last_match x (by_prefix (take 12 body) tokens') none) same
      ∙ ap (λ ts. last_match (env.hash plaintext) (by_prefix (take 12 body) ts) none) added
      ∙ last_match-append (env.hash plaintext) (take 12 body) tokens row new refl refl in
    (
      id,
      i,
      ap (λ o. presented env' now tokens' users (probe env'.hash plaintext o)) cut
          ∙ simp (enough, f)
              (ap (candidate env' now users) found
                ∙ rw (fresh, valid, g) (ap (owned row) owner ∙ simp live refl)),
    )
