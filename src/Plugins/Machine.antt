-- ===== src/Plugins/Machine.antt =====
-- internal/plugin/state.go: the states of a plugin and the transitions that the specification permits.
use osctf.Prelude.{Bool, true, false, if◌then◌else◌}

pub data State : Type 0 where
  discovered launching ready unhealthy restarting failed draining stopped : State

-- `legalTransitions`
abbrev pub is_legal : State → State → Bool
is_legal discovered launching = true
is_legal discovered failed = true
is_legal launching ready = true
is_legal launching restarting = true
is_legal launching failed = true
is_legal ready unhealthy = true
is_legal ready draining = true
is_legal unhealthy ready = true
is_legal unhealthy restarting = true
is_legal unhealthy draining = true
is_legal restarting launching = true
is_legal restarting failed = true
is_legal failed launching = true
is_legal draining stopped = true
is_legal _ _ = false

-- `machine.to`: the state after it, and whether the transition was permitted.
unfoldable pub to : State → State → State × Bool
to from next = if is_legal from next then (next, true) else (from, false)

-- `machine.servesNew`
abbrev pub serves_new : State → Bool
serves_new ready = true
serves_new _ = false
