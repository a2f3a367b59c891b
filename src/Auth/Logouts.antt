-- ===== src/Auth/Logouts.antt =====
-- Revocation of internal/auth/session.go after any history of sessions.
use Prim.Native.String.{String}
use osctf.Prelude.{
  ℕ, ◌+◌, ◌≤◌, ◌<◌, ◌≡◌, inl, inr, refl, sym, ap, ◌∙◌, true, ◌&&◌, ◌||◌, not, Option, none, some,
  List, [], ◌∷◌, if◌then◌else◌, ◌==◌, nat_key, arith, Bool-cases, lookup, lookup-erase, beq_refl,
  beq→eq, Result, ok, err,
}
use osctf.Submissions.Store.{Text, bytes_key}
use osctf.Auth.Sessions.{
  Session, Entry, Store, Outage, Failure, no_session, unavailable, no_randomness, live_entry,
  live_members, members, has_token, create, get, entry_at, drop, deleted, delete, drop_all, execute,
  delete_all_for_user,
}
use osctf.Auth.Revocation.{
  Indexed, live_members-Covered, waited-Indexed, create-Indexed, get-Indexed, drop-Indexed,
}

delete-Indexed :
    (outage : Outage) (ttl now : ℕ) (token : Text) (s : Store)
    → 0 < ttl
    → Indexed ttl now s
    → Indexed ttl now (delete outage ttl now token s).0
unfolding delete
delete-Indexed outage ttl now token s pos w =
    from (get outage ttl now token s) (get-Indexed outage ttl now token s pos w)
  where
    from :
        (res : Store × Result Failure Session)
        → Indexed ttl now res.0
        → Indexed ttl now (deleted outage token res).0
    from (s', err no_session) v = v
    from (s', err unavailable) v = v
    from (s', err no_randomness) v = v
    from (s', ok session) v = elim (Bool-cases outage.exec) [
      | inl f ↦ rw f v
      | inr f ↦ rw f (drop-Indexed ttl now session.user_id token s' v)
    ]

drop_all-Indexed :
    (ttl now user : ℕ) (kept : Text) (tokens : List Text) (s : Store)
    → Indexed ttl now s
    → Indexed ttl now (drop_all user kept tokens s)
unfolding drop_all
drop_all-Indexed ttl now user kept [] s w = w
drop_all-Indexed ttl now user kept (t ∷ tokens) s w = elim (Bool-cases (t == kept)) [
  | inl y ↦ rw y (drop_all-Indexed ttl now user kept tokens s w)
  | inr n ↦
      rw n (
        drop_all-Indexed ttl now user kept tokens (drop user t s) (drop-Indexed ttl now user t s w))
]

-- Exactly the tokens listed lose their sessions, but for the one that is kept.
drop_all-lookup :
    (user : ℕ) (kept t : Text) (tokens : List Text) (s : Store)
    → lookup t (drop_all user kept tokens s).sessions
      ≡ (if has_token t tokens && not (t == kept) then none else lookup t s.sessions)
unfolding drop_all drop
drop_all-lookup user kept t [] s = refl
drop_all-lookup user kept t (x ∷ tokens) s = elim (Bool-cases (x == kept)) [
  | inl y ↦ ground (arith, y, drop_all-lookup user kept t tokens s, beq→eq x t)
  | inr n ↦ ground (
    arith,
    n,
    drop_all-lookup user kept t tokens (drop user x s),
    lookup-erase x t s.sessions,
    beq→eq x t,
  )
]

-- One command of the store, or the passing of time. `executes` is the transaction of a
-- DeleteAllForUser whose SMEMBERS answered with `tokens` at any time before, so that other commands
-- came between the two.
pub data Command : Type 0 where
  creates :
      (outage : Outage) (token : Option Text) (user : ℕ) (role : String) (ip ua : Text) → Command
  gets deletes : (outage : Outage) (token : Text) → Command
  revokes : (outage : Outage) (user : ℕ) (kept : Text) → Command
  executes : (outage : Outage) (user : ℕ) (kept : Text) (tokens : List Text) → Command

abbrev pub perform : ℕ → ℕ → Command → Store → Store
perform ttl now (creates outage token user role ip ua) s =
    (create outage ttl now token user role ip ua s).0
perform ttl now (gets outage token) s = (get outage ttl now token s).0
perform ttl now (deletes outage token) s = (delete outage ttl now token s).0
perform ttl now (revokes outage user kept) s = (delete_all_for_user outage now user kept s).0
perform ttl now (executes outage user kept tokens) s = (execute outage user kept tokens s).0

pub data Reach (ttl : ℕ) : ℕ → Store → Type 0 where
  start : (now : ℕ) → Reach ttl now (record { sessions = []; indexes = [] })
  wait : {now : ℕ} {s : Store} (seconds : ℕ) → Reach ttl now s → Reach ttl (now + seconds) s
  next : {now : ℕ} {s : Store} (c : Command) → Reach ttl now s → Reach ttl now (perform ttl now c s)

execute-Indexed :
    (outage : Outage) (ttl now user : ℕ) (kept : Text) (tokens : List Text) (s : Store)
    → Indexed ttl now s
    → Indexed ttl now (execute outage user kept tokens s).0
unfolding execute
execute-Indexed outage ttl now user kept tokens s w = elim (Bool-cases outage.exec) [
  | inl f ↦ rw f w
  | inr f ↦ rw f (drop_all-Indexed ttl now user kept tokens s w)
]

revoke-Indexed :
    (outage : Outage) (ttl now user : ℕ) (kept : Text) (s : Store)
    → Indexed ttl now s
    → Indexed ttl now (delete_all_for_user outage now user kept s).0
unfolding delete_all_for_user execute
revoke-Indexed outage ttl now user kept s w = elim (Bool-cases outage.read) [
  | inl f ↦ rw f w
  | inr f ↦ rw f (execute-Indexed outage ttl now user kept (members now user s) s w)
]

reached-Indexed : (ttl now : ℕ) (s : Store) → 0 < ttl → Reach ttl now s → Indexed ttl now s
unfolding lookup
reached-Indexed ttl _ _ pos (start now) = record { covers = λ t e h alive. cc }
reached-Indexed ttl _ _ pos (wait {now = now} {s = s} seconds r) =
    waited-Indexed ttl now (now + seconds) s (omega arith) (reached-Indexed ttl now s pos r)
reached-Indexed ttl _ _ pos (next {now = now} {s = s} c r) =
    from c (reached-Indexed ttl now s pos r)
  where
    from : (c : Command) → Indexed ttl now s → Indexed ttl now (perform ttl now c s)
    from (creates outage token user role ip ua) w =
        create-Indexed outage ttl now token user role ip ua s pos w
    from (gets outage token) w = get-Indexed outage ttl now token s pos w
    from (deletes outage token) w = delete-Indexed outage ttl now token s pos w
    from (revokes outage user kept) w = revoke-Indexed outage ttl now user kept s w
    from (executes outage user kept tokens) w = execute-Indexed outage ttl now user kept tokens s w

live_entry-some :
    (now : ℕ) (o : Option Entry) (e : Entry)
    → live_entry now o ≡ some e
    → (o ≡ some e) × (now < e.expires)
live_entry-some now none e h = cc
live_entry-some now (some x) e h = ground (arith, h)

-- Of the sessions of the user that were live at the listing, only the one that is kept survives the
-- transaction, whatever the store is by then.
left_kept :
    (ttl now user : ℕ) (kept token : Text) (e e' : Entry) (s by_then : Store)
    → Indexed ttl now s
    → lookup token s.sessions ≡ some e
    → now < e.expires
    → e.session.user_id ≡ user
    → lookup token (drop_all user kept (members now user s) by_then).sessions ≡ some e'
    → token ≡ kept
unfolding members
left_kept ttl now user kept token e e' s by_then w before alive owner h =
    let tokens = live_members now (lookup user s.indexes) in
    let found = sym (drop_all-lookup user kept token tokens by_then) ∙ h in
    elim (Bool-cases (token == kept)) [
      | inl y ↦ beq→eq token kept y
      | inr n ↦
          let c = w.covers token e before alive in
          let same : (user == e.session.user_id) ≡ true = rw owner (beq_refl user) in
          let all = live_members-Covered ttl now user s.indexes token e c alive same in
          let there : has_token token tokens ≡ true = rw all c.listed in
          absurd (ground (arith, there, found, n))
    ]

-- No session survives the loop that was not there before.
there_before :
    (user : ℕ) (kept token : Text) (tokens : List Text) (e : Entry) (s : Store)
    → lookup token (drop_all user kept tokens s).sessions ≡ some e
    → lookup token s.sessions ≡ some e
there_before user kept token tokens e s h =
    let found = sym (drop_all-lookup user kept token tokens s) ∙ h in ground (arith, found)

-- After any history of sessions that were created, read (and so refreshed or not), deleted and
-- revoked, where the transaction of a revocation may come any time after its listing, with other
-- commands between, under any failing commands and with time passing between them, where the TTL
-- is positive: when a revocation of a user succeeds with no command between its own listing and
-- transaction, the only session of that user that is live then or, with no command in between,
-- later is the one that was to be kept.
pub delete_all_for_user-Reach :
    (ttl now : ℕ) (s : Store)
    → 0 < ttl
    → Reach ttl now s
    → (outage : Outage) (user : ℕ) (kept : Text) (s' : Store)
    → delete_all_for_user outage now user kept s ≡ (s', ok tt)
    → (later : ℕ) → now ≤ later
    → (token : Text) (e : Entry) → entry_at later token s' ≡ some e
    → e.session.user_id ≡ user
    → token ≡ kept
unfolding delete_all_for_user execute entry_at
delete_all_for_user-Reach ttl now s pos r outage user kept s' h later le token e live owner =
    elim (Bool-cases (outage.read || outage.exec)) [
      | inl f ↦ absurd (ground (arith, f, h))
      | inr f ↦
          let same : s' ≡ drop_all user kept (members now user s) s = ground (arith, f, h) in
          let (there, alive) = live_entry-some later (lookup token s'.sessions) e live in
          let left = ap (λ x. lookup token x.sessions) (sym same) ∙ there in
          left_kept ttl now user kept token e e s s (reached-Indexed ttl now s pos r)
            (there_before user kept token (members now user s) e s left) (omega (arith, le, alive))
            owner left
    ]
