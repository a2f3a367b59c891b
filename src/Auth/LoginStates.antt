-- ===== src/Auth/LoginStates.antt =====
-- internal/auth/loginstate.go over what it keeps in Redis. The JSON of a state is the state; instants
-- are whole seconds, and a key is gone from the instant of its expiry on.
use osctf.Prelude.{
  ℕ, ◌+◌, Bool, Option, none, some, [], if◌then◌else◌, ◌==◌, nat_key, ltb, Dict, lookup, insert,
  erase, Result, ok, err,
}
use osctf.Submissions.Store.{Text, bytes_key}

pub record LoginState : Type 0 where
  pub provider : Text
  pub provider_state : Text

pub record Kept : Type 0 where
  pub state : LoginState
  pub expires : ℕ

pub data Failure : Type 0 where
  no_login_state unavailable : Failure

-- `Store`
unfoldable pub store :
    Bool → ℕ → ℕ → Text → LoginState → Dict Text Kept → Dict Text Kept × Result Failure (Unit {0})
store fails ttl now token state s =
    if fails
    then (s, err unavailable)
    else (insert token (record { state = state; expires = now + ttl }) s, ok tt)

abbrev pub taken : ℕ → Option Kept → Result Failure LoginState
taken now none = err no_login_state
taken now (some k) = if ltb now k.expires then ok k.state else err no_login_state

-- `Consume`: the state is deleted as it is read.
unfoldable pub consume :
    Bool → ℕ → Text → Dict Text Kept → Dict Text Kept × Result Failure LoginState
consume fails now token s =
    if token == []
    then (s, err no_login_state)
    else if fails
    then (s, err unavailable)
    else (erase token s, taken now (lookup token s))
