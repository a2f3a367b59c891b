-- ===== src/Limits/Tests.antt =====
-- The bounds at concrete inputs.
use Prim.Native.String.{String}
use osctf.Prelude.{◌≡◌, refl, List, [], ◌∷◌, arith, lookup}
use osctf.Prelude.Int.{ℤ, pos}
use osctf.Submissions.Store.{Text, text_beq}
use osctf.Limits.Admissions.{
  Limits, Admissions, admitted, handshake_rate, admit_key, reserve, rate_limited, release,
  default_limits, new_admissions, retry_after_seconds,
}
use osctf.Limits.Connections.{Counts, Within, Life, begins, shakes, closes, Life-Counts}
use osctf.Limits.Budget.{claim_all, new_budget, claim_fds}

abbrev two_conns : Limits
two_conns = record {
  max_conns = 2;
  max_conns_per_key = 1;
  handshake_burst = 3;
  handshake_window = 60;
}

abbrev ann : Text
ann = 1 ∷ []

abbrev ann_in : Admissions
ann_in = (admit_key two_conns 5 ann new_admissions).0

ann_is_in : (admit_key two_conns 5 ann new_admissions).1 ≡ admitted
unfolding admit_key rate_limited reserve lookup
ann_is_in = refl

new_admissions-Counts : Counts [] new_admissions
unfolding lookup
new_admissions-Counts = record { total_held = refl; key_held = λ k. refl }

empty-Within : Within two_conns []
empty-Within = record { global_bound = refl; key_bound = λ k. refl }

one-Life : Life two_conns new_admissions [] (release ann ann_in) []
unfolding admit_key rate_limited reserve lookup text_beq
one-Life = closes ann (shakes 5 ann (begins new_admissions [])) (omega arith)

Life-Counts_example : Counts [] (release ann ann_in) × Within two_conns []
Life-Counts_example = Life-Counts one-Life new_admissions-Counts empty-Within

-- A client that shook hands too often is told to wait for the window.
waits_a_minute : retry_after_seconds default_limits handshake_rate ≡ 60
unfolding retry_after_seconds
waits_a_minute = refl

-- 1024 descriptors: 256 are kept back, the plugins get 512, and the connections the rest.
abbrev startup : List (String × ℤ)
startup = ("plugin-inflight", pos 512) ∷ ("websocket-conns", pos 20000) ∷ []

apportioned : (claim_all startup (new_budget 1024)).remaining ≡ 0
unfolding claim_all claim_fds new_budget
apportioned = refl
