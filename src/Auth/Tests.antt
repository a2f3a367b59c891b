-- ===== src/Auth/Tests.antt =====
-- Sessions, tokens and logins at concrete inputs.
use mathlib.Core.List.{Memᴰ}
use osctf.Prelude.{
  ℕ, ◌+◌, ◌≤◌, ◌≡◌, ◌≢◌, refl, Bool, true, false, none, some, List, [], ◌∷◌, arith, ok, err, ◌==◌,
  nat_key, tally, insert, lookup, erase,
}
use osctf.Submissions.Store.{Text, bytes_key, text_beq}
use osctf.Auth.Strings.{points, trim_space}
use osctf.Auth.Accounts.{
  User, Db, user_by_id, user_by_email, identity_of, create_user, create_identity,
}
use osctf.Auth.External.{
  ProvisionPolicy, provision_open, invite_only, ExternalIdentity, Env, rejected, unverified, bind,
  provision, screened, verified_email, resolve, reserved_claim_keys, is_reserved, new_user,
}
use osctf.Auth.Names.{sanitize_username, candidate_username}
use osctf.Auth.Resolution.{Granted, resolve-Granted}
use osctf.Auth.Stability.{resolve_again, OnlyLowest, resolve-OnlyLowest}
use osctf.Auth.Sessions
use osctf.Auth.Sessions.{
  Entry, Session, Outage, Store, entry_at, index_token, members, execute, delete_all_for_user,
  drop_all, drop,
}
use osctf.Auth.Logouts.{Reach, creates, gets, perform, delete_all_for_user-Reach}
use osctf.Auth.Tokens
use osctf.Auth.Tokens.{
  ApiToken, validate_scopes, insert_row, authenticate, parse_presented, by_prefix, revoke,
}
use osctf.Auth.Bearer.{revoke-authenticate}
use osctf.Auth.Issue.{create-authenticate}
use osctf.Auth.LoginStates.{LoginState, store, consume}
use osctf.Auth.SingleUse.{Act, stores, consumes, waits, grants, is_store_of, grants_at_most}

abbrev alice : User
alice = record {
  id = 1;
  username = points "alice";
  email = points "alice@ctf.org";
  password_hash = points "x";
  role = "admin";
  banned = false;
  hidden = false;
}

abbrev db : Db
db = record { users = alice ∷ []; identities = [] }

abbrev env_of : ProvisionPolicy → Env
env_of policy = record {
  policy = policy;
  faults = λ q. false;
  new_id = λ n. some (50 + n);
  parses_address = λ t. true;
}

abbrev claims : Bool → ExternalIdentity
claims verified = record {
  subject = points " s1 ";
  email = points "Bob@ctf.org";
  username = points "alice";
  email_verified = verified;
  claim_keys = points "locale" ∷ [];
}

-- The first name is taken, and the second attempt is not.
abbrev bob : User
bob = new_user 51 (points "alice-2") (points "bob@ctf.org")

abbrev after : Db
after = record {
  users = alice ∷ bob ∷ [];
  identities = record { provider = points "idp"; subject = points "s1"; user_id = 51 } ∷ [];
}

provisions : resolve (env_of provision_open) (points "idp") (claims true) db ≡ (after, ok bob)
unfolding resolve screened verified_email identity_of user_by_email provision create_user bind
    create_identity sanitize_username candidate_username reserved_claim_keys text_beq
provisions = refl

needs_verification :
    resolve (env_of provision_open) (points "idp") (claims false) db
    ≡ (db, err (rejected unverified))
unfolding resolve screened verified_email identity_of reserved_claim_keys text_beq
needs_verification = refl

resolve-Granted_example :
    (tally is_reserved (claims true).claim_keys ≡ 0)
    × (bob.banned ≡ false)
    × Granted
        (env_of provision_open)
        (points "idp")
        (trim_space (points " s1 "))
        (claims true)
        db
        after
        bob
resolve-Granted_example =
    resolve-Granted (env_of provision_open) (points "idp") (claims true) db after bob provisions

resolve_again_example :
    resolve (env_of invite_only) (points "idp") (claims false) after ≡ (after, ok bob)
unfolding screened reserved_claim_keys text_beq
resolve_again_example =
    resolve_again (env_of provision_open) (env_of invite_only) (points "idp") (claims true)
      (claims false) db after bob (λ id. ground arith) provisions refl refl refl

resolve-OnlyLowest_example :
    OnlyLowest db (resolve (env_of provision_open) (points "idp") (claims true) db).0
resolve-OnlyLowest_example =
    resolve-OnlyLowest (env_of provision_open) (points "idp") (claims true) db

abbrev calm : Outage
calm = record { read = false; ttl = false; exec = false }

abbrev nothing : Store
nothing = record { sessions = []; indexes = [] }

-- Two sessions of user 1, one of which was refreshed.
abbrev two_sessions : Store
two_sessions = perform 100 60 (gets calm (8 ∷ [])) (
    perform 100 0 (creates calm (some (9 ∷ [])) 1 "user" [] [])
      (perform 100 0 (creates calm (some (8 ∷ [])) 1 "user" [] []) nothing))

reached : Reach 100 60 two_sessions
reached = Reach.next (gets calm (8 ∷ [])) (
    Reach.wait 60 (
      Reach.next (creates calm (some (9 ∷ [])) 1 "user" [] [])
        (Reach.next (creates calm (some (8 ∷ [])) 1 "user" [] []) (Reach.start 0))))

-- The session that is kept is live after the other one was revoked.
abbrev kept_entry : Entry
kept_entry = record {
  session = record { user_id = 1; role = "user"; created_at = 0; ip = []; ua = [] };
  expires = 160;
}

abbrev kept_token : Text
kept_token = 8 ∷ []

delete_all_for_user-Reach_example : kept_token ≡ kept_token
unfolding Sessions.create Sessions.get index_token members delete_all_for_user execute drop_all drop
    entry_at insert lookup erase text_beq
delete_all_for_user-Reach_example =
    delete_all_for_user-Reach 100 60 two_sessions (omega arith) reached calm 1 kept_token _ refl 130
      (omega arith) kept_token kept_entry refl refl

abbrev body : Text
body = points "ABCDEFGHIJKLMNOP"

abbrev token_env : Tokens.Env
token_env = record { hash = λ t. 0 ∷ t; faults = λ q. false; new_id = some 4; new_body = some body }

abbrev plaintext : Text
plaintext = points "osctf_pat_ABCDEFGHIJKLMNOP"

abbrev token : ApiToken
token = record {
  id = 4;
  user_id = 1;
  name = [];
  token_hash = 0 ∷ plaintext;
  prefix = points "ABCDEFGHIJKL";
  scopes = "read" ∷ [];
  last_used_at = none;
  expires_at = some 50;
}

abbrev who : Tokens.Identity
who = record { user_id = 1; role = "admin"; scopes = "read" ∷ []; token_id = 4 }

revoke-authenticate_example :
    (true ≡ true)
    × ((env' : Tokens.Env) (now : ℕ) (raw : Text) (users : List User) (x : Tokens.Identity)
        → env'.hash raw ≡ token.token_hash
        → authenticate env' now raw [] users ≢ ok x)
unfolding revoke
revoke-authenticate_example =
    revoke-authenticate token_env (token ∷ []) [] token true (λ hash. ground arith) (Memᴰ.head refl)
      refl

create-authenticate_example :
    (id : ℕ) × (some 4 ≡ some id)
    × (authenticate token_env 20 plaintext (token ∷ []) (alice ∷ [])
        ≡ ok (record { user_id = 1; role = "admin"; scopes = "read" ∷ []; token_id = id }))
unfolding Tokens.create validate_scopes insert_row user_by_id
create-authenticate_example =
    create-authenticate token_env token_env 20 1 [] ("read" ∷ []) (some 50) [] (token ∷ [])
      plaintext (alice ∷ []) alice refl (λ b e. ground (arith, e)) refl refl refl refl refl refl

abbrev state : LoginState
state = record { provider = points "idp"; provider_state = [] }

-- The second consumption of a state is refused.
abbrev replay : List Act
replay =
    stores false (3 ∷ []) state ∷ waits 5 ∷ consumes false (3 ∷ []) ∷ consumes false (3 ∷ []) ∷ []

one_grant : grants 600 0 replay [] ≡ (3 ∷ [], state) ∷ []
unfolding store consume insert lookup erase text_beq
one_grant = refl

grants_at_most_example :
    tally (λ g. g.0 == 3 ∷ []) (grants 600 0 replay []) ≤ tally (is_store_of (3 ∷ [])) replay
grants_at_most_example = grants_at_most 600 0 (3 ∷ []) replay
