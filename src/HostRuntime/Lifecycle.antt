-- ===== src/HostRuntime/Lifecycle.antt =====
-- `simulateLifecycleTransition`, and its histories.
use easy_mc_server.Prelude.{Bool, true, false, Option, none, some, is_some, get_or, List, [], ◌∷◌}
use easy_mc_server.HostRuntime.Input.{
  RuntimeState, stopped, ready, starting, running, stopping, restarting, FailureReason,
  room_crashed,
}
use easy_mc_server.HostRuntime.Plan.{is_crashed}

pub data RuntimeAction : Type 0 where
  prepare : RuntimeAction
  start : RuntimeAction
  stop : RuntimeAction
  restart : RuntimeAction

-- `transitions[action]?.[current]`, where an action may be unknown.
unfoldable pub transition_to : Option RuntimeAction → RuntimeState → Option RuntimeState
transition_to (some prepare) stopped = some ready
transition_to (some start) ready = some starting
transition_to (some start) stopped = some starting
transition_to (some start) starting = some running
transition_to (some stop) running = some stopping
transition_to (some stop) starting = some stopping
transition_to (some stop) stopping = some stopped
transition_to (some restart) running = some restarting
transition_to (some restart) restarting = some starting
transition_to _ _ = none

pub record Transition : Type 0 where
  pub current : RuntimeState
  pub next : RuntimeState
  pub allowed : Bool
  pub reason : Option FailureReason
  pub action : Option RuntimeAction

-- The states that are handed in: `state.current ?? state.state ?? "stopped"`.
abbrev pub current_of : Option RuntimeState → Option RuntimeState → RuntimeState
current_of (some c) state = c
current_of none state = get_or state stopped

unfoldable pub simulate_lifecycle_transition :
    Option RuntimeState → Option RuntimeState → Option RuntimeAction → Transition
unfolding transition_to
simulate_lifecycle_transition given state action =
    let current = current_of given state in
    elim (is_crashed current) [
      | true ↦ record {
        current = current;
        next = current;
        allowed = false;
        reason = some room_crashed;
        action = none;
      }
      | false ↦ record {
        current = current;
        next = get_or (transition_to action current) current;
        allowed = is_some (transition_to action current);
        reason = none;
        action = action;
      }
    ]

-- The state after a list of actions, each on the state that the one before leads to.
unfoldable pub after_actions : RuntimeState → List RuntimeAction → RuntimeState
unfolding simulate_lifecycle_transition
after_actions s [] = s
after_actions s (a ∷ more) =
    after_actions (simulate_lifecycle_transition (some s) none (some a)).next more
