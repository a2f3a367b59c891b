-- ===== src/Limits/Admissions.antt =====
-- internal/ws/limits.go: the admission of WebSocket connections. Each operation runs under the mutex,
-- so that it is a function of the state. A limit of 0 is none, as for a negative one.
use osctf.Prelude.{
  ℕ, suc, ◌+◌, ◌-◌, ◌*◌, ◌/◌, ◌&&◌, not, Option, none, some, List, [], ◌∷◌, ◌++◌, if◌then◌else◌,
  ◌==◌, nat_key, ltb, leb, length, keep, Dict, lookup, insert, erase,
}
use osctf.Submissions.Store.{Text, bytes_key}

pub record Limits : Type 0 where
  pub max_conns : ℕ
  pub max_conns_per_key : ℕ
  pub handshake_burst : ℕ
  pub handshake_window : ℕ

-- `admissions`
pub record Admissions : Type 0 where
  pub total : ℕ
  pub per_key : Dict Text ℕ
  pub hs_hits : Dict Text (List ℕ)
  pub forgive : Dict Text ℕ

-- `DefaultLimits`
abbrev pub default_limits : Limits
default_limits = record {
  max_conns = 20000;
  max_conns_per_key = 256;
  handshake_burst = 600;
  handshake_window = 60 * 1000000000;
}

-- `newAdmissions`
abbrev pub new_admissions : Admissions
new_admissions = record { total = 0; per_key = []; hs_hits = []; forgive = [] }

-- What `admit` returns: "", or the limit that fired.
pub data Verdict : Type 0 where
  admitted handshake_rate global_cap per_key_cap : Verdict

abbrev pub or_zero : Option ℕ → ℕ
or_zero none = 0
or_zero (some n) = n

abbrev or_none : Option (List ℕ) → List ℕ
or_none none = []
or_none (some ts) = ts

abbrev pub live_of : Text → Admissions → ℕ
live_of key a = or_zero (lookup key a.per_key)

abbrev pub hits_of : Text → Admissions → List ℕ
hits_of key a = or_none (lookup key a.hs_hits)

-- `m[key]--`, with the entry deleted at 0.
abbrev pub count_down : Text → ℕ → Dict Text ℕ → Dict Text ℕ
count_down key n m = if n == 1 then erase key m else insert key (n - 1) m

-- `forgiveHandshake`
unfoldable pub forgive_handshake : Text → Admissions → Admissions
forgive_handshake key a =
    let n = or_zero (lookup key a.forgive) in
    if ltb n 4 then record a { forgive = insert key (suc n) a.forgive } else a

-- The hits that lie within the window before `now`.
abbrev pub recent : ℕ → ℕ → List ℕ → List ℕ
recent window now = keep (λ t. ltb now (t + window))

-- The caps, and the reservation.
unfoldable pub reserve : Limits → Text → Admissions → Admissions × Verdict
reserve l key a =
    if not (l.max_conns == 0) && leb l.max_conns a.total
    then (a, global_cap)
    else if not (l.max_conns_per_key == 0) && leb l.max_conns_per_key (live_of key a)
    then (a, per_key_cap)
    else (
      record a { total = suc a.total; per_key = insert key (suc (live_of key a)) a.per_key },
      admitted,
    )

-- The handshake rate, for a key that is owed nothing.
unfoldable pub rate_limited : Limits → ℕ → Text → Admissions → Admissions × Verdict
rate_limited l now key a =
    let hits = recent l.handshake_window now (hits_of key a) in
    if l.handshake_burst == 0
    then reserve l key a
    else if leb l.handshake_burst (length hits)
    then (record a { hs_hits = insert key hits a.hs_hits }, handshake_rate)
    else reserve l key (record a { hs_hits = insert key (hits ++ now ∷ []) a.hs_hits })

-- `admit`
unfoldable pub admit_key : Limits → ℕ → Text → Admissions → Admissions × Verdict
admit_key l now key a =
    let owed = or_zero (lookup key a.forgive) in
    if ltb 0 owed
    then reserve l key (record a { forgive = count_down key owed a.forgive })
    else rate_limited l now key a

-- `release`
unfoldable pub release : Text → Admissions → Admissions
release key a =
    let n = live_of key a in
    record a {
      total = a.total - 1;
      per_key = if ltb 0 n then count_down key n a.per_key else a.per_key;
    }

-- `retryAfterSeconds`
unfoldable pub retry_after_seconds : Limits → Verdict → ℕ
retry_after_seconds l handshake_rate =
    if ltb 0 l.handshake_window then l.handshake_window / 1000000000 else 5
retry_after_seconds l _ = 5
