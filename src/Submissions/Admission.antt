-- ===== src/Submissions/Admission.antt =====
-- Submit of internal/submissions/service.go, up to its transaction.
use Prim.Native.String.{String}
use osctf.Prelude.{
  Result, err, fail_if, ok, or_fail, ◌>>=◌, ◌>>◌, Bool, true, false, ◌&&◌, not, Option, none, some,
  if◌then◌else◌, nat_key, text_key,
}
use osctf.Events.{Phase, running, phase}
use osctf.Submissions.Store.{bytes_key, Challenge, Db, challenge_by_slug, has_solved}
use osctf.Submissions.Request.{
  Env, Input, Resolution, already_solved, builtin, early_solved, get_challenge, get_event, internal,
  not_found, not_running, plugin, team_banned, unavailable, unregistered, Error,
}

abbrev pub is_running : Phase → Bool
is_running running = true
is_running _ = false

abbrev check_window : Env → Input → Result Error (Unit {0})
check_window env inp = if inp.bypass_window then ok tt else (do
  fail_if (env.faults get_event) internal
  e ← or_fail env.event not_found
  fail_if (not (is_running (phase env.now e))) not_running)

abbrev resolved_verdict : Env → Challenge → Input → Db → Resolution → Result Error (Option Bool)
resolved_verdict env ch inp db unregistered = err unavailable
resolved_verdict env ch inp db builtin = ok none
resolved_verdict env ch inp db (plugin check) = do
  fail_if (not (env.faults early_solved) && has_solved ch.id inp.team_id db.submissions)
      already_solved
  verdict ← or_fail (check inp.flag ch.type_config) unavailable
  ok (some verdict)

abbrev verdict_by :
    Env → Challenge → Input → Db → Option (String → Resolution) → Result Error (Option Bool)
verdict_by env ch inp db none = ok none
verdict_by env ch inp db (some resolve) = resolved_verdict env ch inp db (resolve ch.kind_type)

-- `pluginVerdict`
unfoldable pub plugin_verdict : Env → Challenge → Input → Db → Result Error (Option Bool)
plugin_verdict env ch inp db = verdict_by env ch inp db env.checkers

-- What Submit does before the transaction: the challenge as it read it, and a plugin's verdict.
unfoldable pub admit : Env → Input → Db → Result Error (Challenge × Option Bool)
admit env inp db = do
  fail_if inp.is_team_banned team_banned
  check_window env inp
  fail_if (env.faults get_challenge) internal
  ch ← or_fail (challenge_by_slug inp.slug db) not_found
  fail_if (not ch.visible && not inp.bypass_window) not_found
  verdict ← plugin_verdict env ch inp db
  ok (ch, verdict)
