-- ===== src/Auth/SingleUse.antt =====
-- A login state of internal/auth/loginstate.go is used once at most.
use osctf.Prelude.{
  ℕ, ◌+◌, ◌≤◌, ◌≡◌, inl, inr, refl, ◌∙◌, Bool, true, false, ◌&&◌, not, Option, none, some, List, [],
  ◌∷◌, if◌then◌else◌, ◌==◌, nat_key, ltb, tally, arith, Bool-cases, Dict, lookup, erase,
  lookup-insert, lookup-erase, beq_refl, beq→eq, Result, ok, err,
}
use osctf.Submissions.Store.{Text, bytes_key}
use osctf.Auth.LoginStates.{LoginState, Kept, Failure, store, taken, consume}

-- One call, or the passing of time.
pub data Act : Type 0 where
  stores : (fails : Bool) (token : Text) (state : LoginState) → Act
  consumes : (fails : Bool) (token : Text) → Act
  waits : (seconds : ℕ) → Act

abbrev granted :
    Text → Result Failure LoginState → List (Text × LoginState) → List (Text × LoginState)
granted token (ok state) rest = (token, state) ∷ rest
granted token (err e) rest = rest

-- The logins that a history lets through.
abbrev pub grants : ℕ → ℕ → List Act → Dict Text Kept → List (Text × LoginState)
grants ttl now [] s = []
grants ttl now (stores fails token state ∷ acts) s =
    grants ttl now acts (store fails ttl now token state s).0
grants ttl now (consumes fails token ∷ acts) s =
    let rest = grants ttl now acts (consume fails now token s).0 in
    granted token (consume fails now token s).1 rest
grants ttl now (waits seconds ∷ acts) s = grants ttl (now + seconds) acts s

abbrev pub is_store_of : Text → Act → Bool
is_store_of t (stores fails token state) = token == t && not fails
is_store_of t _ = false

abbrev waiting : Option Kept → ℕ
waiting none = 0
waiting (some k) = 1

waiting-store :
    (fails : Bool) (ttl now : ℕ) (t token : Text) (state : LoginState) (s : Dict Text Kept)
    → waiting (lookup t (store fails ttl now token state s).0)
      ≤ (if token == t && not fails then 1 else 0) + waiting (lookup t s)
unfolding store
waiting-store true ttl now t token state s = omega arith
waiting-store false ttl now t token state s = elim (Bool-cases (token == t)) [
  | inl y ↦
      rw (lookup-insert token t (record { state = state; expires = now + ttl }) s, y) (omega arith)
  | inr n ↦
      rw (lookup-insert token t (record { state = state; expires = now + ttl }) s, n) (omega arith)
]

taken_bound :
    (now : ℕ) (t : Text) (o : Option Kept) (rest : List (Text × LoginState))
    → tally (λ g. g.0 == t) (granted t (taken now o) rest) ≤ tally (λ g. g.0 == t) rest + waiting o
taken_bound now t none rest = omega arith
taken_bound now t (some k) rest = elim (Bool-cases (ltb now k.expires)) [
  | inl y ↦ rw (y, beq_refl t) (omega arith)
  | inr n ↦ rw n (omega arith)
]

granted_other :
    (t token : Text) (r : Result Failure LoginState) (rest : List (Text × LoginState))
    → (token == t) ≡ false
    → tally (λ g. g.0 == t) (granted token r rest) ≡ tally (λ g. g.0 == t) rest
granted_other t token (ok state) rest n = rw n refl
granted_other t token (err e) rest n = refl

-- A login that is let through takes the state that was waiting.
waiting-consume :
    (fails : Bool) (now : ℕ) (t token : Text) (s : Dict Text Kept) (rest : List (Text × LoginState))
    → tally (λ g. g.0 == t) (granted token (consume fails now token s).1 rest)
        + waiting (lookup t (consume fails now token s).0)
      ≤ tally (λ g. g.0 == t) rest + waiting (lookup t s)
unfolding consume
waiting-consume fails now t token s rest = elim (Bool-cases (token == [])) [
  | inl b ↦ rw b (omega arith)
  | inr b ↦ elim (Bool-cases fails) [
    | inl f ↦ rw (b, f) (omega arith)
    | inr f ↦ elim (Bool-cases (token == t)) [
      | inl y ↦
          let same = beq→eq token t y in
          let gone : lookup t (erase token s) ≡ none = lookup-erase token t s ∙ rw y refl in
          rw (b, f, gone) (rw same (omega (arith, taken_bound now t (lookup t s) rest)))
      | inr n ↦
          let stays : lookup t (erase token s) ≡ lookup t s = lookup-erase token t s ∙ rw n refl in
          rw (b, f, stays)
            (omega (arith, granted_other t token (taken now (lookup token s)) rest n))
    ]
  ]
]

grants_bound :
    (ttl now : ℕ) (t : Text) (acts : List Act) (s : Dict Text Kept)
    → tally (λ g. g.0 == t) (grants ttl now acts s)
      ≤ tally (is_store_of t) acts + waiting (lookup t s)
grants_bound ttl now t [] s = omega arith
grants_bound ttl now t (waits seconds ∷ acts) s = grants_bound ttl (now + seconds) t acts s
grants_bound ttl now t (stores fails token state ∷ acts) s = ground (
  arith,
  grants_bound ttl now t acts (store fails ttl now token state s).0,
  waiting-store fails ttl now t token state s,
)
grants_bound ttl now t (consumes fails token ∷ acts) s = omega (
  arith,
  grants_bound ttl now t acts (consume fails now token s).0,
  waiting-consume fails now t token s (grants ttl now acts (consume fails now token s).0),
)

-- Over any history of login states that are stored and consumed, with failing commands and time
-- passing, from an empty store, at most as many consumptions of a token succeed as there were
-- successful stores of it: a state that was stored once lets one login through.
pub grants_at_most :
    (ttl now : ℕ) (t : Text) (acts : List Act)
    → tally (λ g. g.0 == t) (grants ttl now acts []) ≤ tally (is_store_of t) acts
unfolding lookup
grants_at_most ttl now t acts = omega (arith, grants_bound ttl now t acts [])
