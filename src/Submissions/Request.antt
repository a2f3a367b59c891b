-- ===== src/Submissions/Request.antt =====
-- What a submission of internal/submissions/service.go meets: its input, its errors, and an
-- environment. Each database call may fail for a reason of its own: `faults` says which do.
use Prim.Native.String.{String}
use osctf.Prelude.{ℕ, Bool, Option, List, nat_key, text_key}
use osctf.Prelude.Int.{ℤ}
use osctf.Registry.{Registry}
use osctf.Scoring.Engine.{ChallengeScoring, Engine}
use osctf.Events.{Event}
use osctf.Submissions.Store.{Text, bytes_key}

pub data DbCall : Type 0 where
  get_event get_challenge early_solved begin lock solved_check count_attempts get_instance : DbCall
  find_flag insert_row commit count_solves write_score : DbCall

pub data Error : Type 0 where
  team_banned not_running not_found unavailable already_solved no_attempts start_first : Error
  internal : Error

-- `ChallengeTypes.Resolve`: the checker of a plugin type sees the guess and the author's
-- configuration, and `none` is its error.
pub data Resolution : Type 0 where
  unregistered builtin : Resolution
  plugin : (Text → List (Text × Text) → Option Bool) → Resolution

-- What `Scorer.Score` returns.
pub record Scored : Type 0 where
  pub points : ℤ
  pub by : String
  pub has_value : Bool

-- What a request meets: the clock, the event row, the failing calls, the plugins, a fresh id.
pub record Env : Type 0 where
  pub now : ℕ
  pub event : Option Event
  pub faults : DbCall → Bool
  pub checkers : Option (String → Resolution)
  pub scorer : Option (String → ChallengeScoring → ℤ → Scored)
  pub engines : Registry Engine
  pub new_id : Option ℕ
  pub has_bus : Bool
  pub to_lower : Text → Text  -- strings.ToLower

pub record Input : Type 0 where
  pub user_id : ℕ
  pub team_id : ℕ
  pub slug : Text
  pub flag : Text
  pub is_team_banned : Bool
  pub bypass_window : Bool
