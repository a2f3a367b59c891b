-- ===== src/Auth/Sessions.antt =====
-- internal/auth/session.go over what it keeps in Redis. Instants and durations are whole seconds; a
-- key is gone from the instant of its expiry on.
use Prim.Native.String.{String}
use osctf.Prelude.{
  ℕ, ◌+◌, ◌-◌, ◌*◌, Bool, ◌&&◌, not, Option, none, some, List, [], ◌∷◌, if◌then◌else◌, ◌==◌,
  nat_key, ltb, keep, tally, Dict, lookup, insert, erase, Result, ok, err,
}
use osctf.Submissions.Store.{Text, bytes_key}

pub record Session : Type 0 where
  pub user_id : ℕ
  pub role : String
  pub created_at : ℕ
  pub ip : Text
  pub ua : Text

-- What is under `sess:{token}`.
pub record Entry : Type 0 where
  pub session : Session
  pub expires : ℕ

-- What is under `sess:user:{id}`.
pub record Index : Type 0 where
  pub tokens : List Text
  pub expires : ℕ

pub record Store : Type 0 where
  pub sessions : Dict Text Entry
  pub indexes : Dict ℕ Index

-- Which commands fail: a read, the read of a TTL, a transaction.
pub record Outage : Type 0 where
  pub read : Bool
  pub ttl : Bool
  pub exec : Bool

pub data Failure : Type 0 where
  no_session unavailable no_randomness : Failure

abbrev pub live_entry : ℕ → Option Entry → Option Entry
live_entry now none = none
live_entry now (some e) = if ltb now e.expires then some e else none

-- `HGetAll`
unfoldable pub entry_at : ℕ → Text → Store → Option Entry
entry_at now token s = live_entry now (lookup token s.sessions)

abbrev pub live_members : ℕ → Option Index → List Text
live_members now none = []
live_members now (some i) = if ltb now i.expires then i.tokens else []

-- `SMembers`
unfoldable pub members : ℕ → ℕ → Store → List Text
members now user s = live_members now (lookup user s.indexes)

abbrev pub has_token : Text → List Text → Bool
has_token t tokens = ltb 0 (tally (λ x. x == t) tokens)

abbrev pub with_token : Text → List Text → List Text
with_token t tokens = if has_token t tokens then tokens else t ∷ tokens

-- `SAdd` and `Expire` of a user's set.
unfoldable pub index_token : ℕ → ℕ → ℕ → Text → Store → Store
index_token ttl now user token s = record s {
  indexes =
      insert user
        (record { tokens = with_token token (members now user s); expires = now + ttl * 2 })
        s.indexes;
}

-- `Create`, with the token that was drawn.
unfoldable pub create :
    Outage
    → ℕ
    → ℕ
    → Option Text
    → ℕ
    → String
    → Text
    → Text
    → Store
    → Store × Result Failure (Text × Session)
create outage ttl now none user role ip ua s = (s, err no_randomness)
create outage ttl now (some token) user role ip ua s =
    let session : Session = record {
      user_id = user;
      role = role;
      created_at = now;
      ip = ip;
      ua = ua;
    } in
    if outage.exec then (s, err unavailable) else (
      index_token ttl now user token (record s {
        sessions = insert token (record { session = session; expires = now + ttl }) s.sessions;
      }),
      ok (token, session),
    )

-- The refresh: the session and its place in the index.
abbrev pub refresh : ℕ → ℕ → Text → Entry → Store → Store
refresh ttl now token e s =
    index_token ttl now e.session.user_id token
      (record s { sessions = insert token (record e { expires = now + ttl }) s.sessions })

-- Less than half of the TTL remains.
abbrev pub is_due : ℕ → ℕ → Entry → Bool
is_due ttl now e = ltb (2 * (e.expires - now)) ttl

abbrev pub get_entry : Outage → ℕ → ℕ → Text → Store → Option Entry → Store × Result Failure Session
get_entry outage ttl now token s none = (s, err no_session)
get_entry outage ttl now token s (some e) = (
  (if not outage.ttl && is_due ttl now e && not outage.exec then refresh ttl now token e s else s),
  ok e.session,
)

-- `Get`
unfoldable pub get : Outage → ℕ → ℕ → Text → Store → Store × Result Failure Session
get outage ttl now token s =
    if token == []
    then (s, err no_session)
    else if outage.read
    then (s, err unavailable)
    else get_entry outage ttl now token s (entry_at now token s)

abbrev pub without_token : Text → List Text → List Text
without_token t = keep (λ x. not (x == t))

abbrev pub unlisted : Text → ℕ → Option Index → Dict ℕ Index → Dict ℕ Index
unlisted token user none indexes = indexes
unlisted token user (some i) indexes =
    insert user (record i { tokens = without_token token i.tokens }) indexes

-- `Del` and `SRem`
unfoldable pub drop : ℕ → Text → Store → Store
drop user token s = record {
  sessions = erase token s.sessions;
  indexes = unlisted token user (lookup user s.indexes) s.indexes;
}

abbrev pub deleted :
    Outage → Text → Store × Result Failure Session → Store × Result Failure (Unit {0})
deleted outage token (s, err no_session) = (s, ok tt)
deleted outage token (s, err e) = (s, err e)
deleted outage token (s, ok session) =
    if outage.exec then (s, err unavailable) else (drop session.user_id token s, ok tt)

-- `Delete`
unfoldable pub delete : Outage → ℕ → ℕ → Text → Store → Store × Result Failure (Unit {0})
delete outage ttl now token s = deleted outage token (get outage ttl now token s)

-- The loop of `DeleteAllForUser` over the tokens listed.
unfoldable pub drop_all : ℕ → Text → List Text → Store → Store
drop_all user kept [] s = s
drop_all user kept (t ∷ tokens) s =
    drop_all user kept tokens (if t == kept then s else drop user t s)

-- The transaction of `DeleteAllForUser`, on the tokens listed before it.
unfoldable pub execute : Outage → ℕ → Text → List Text → Store → Store × Result Failure (Unit {0})
execute outage user kept tokens s =
    if outage.exec then (s, err unavailable) else (drop_all user kept tokens s, ok tt)

-- `DeleteAllForUser` with no other command between its listing and its transaction; the empty text
-- keeps no session.
unfoldable pub delete_all_for_user :
    Outage → ℕ → ℕ → Text → Store → Store × Result Failure (Unit {0})
delete_all_for_user outage now user kept s =
    if outage.read then (s, err unavailable) else execute outage user kept (members now user s) s
