-- ===== src/App/Tests.antt =====
-- The application state machine at concrete inputs.
use min_demo.Base.{
  ◌≡◌, refl, true, String, Option, none, some, List, [], ◌∷◌, arith, replicate, map, ◌++◌, length,
}
use min_demo.Types.{home, flow, compliance, meeting, WorkflowContext}
use min_demo.Stats.{HomeStats, SfTask, SfHousehold}
use min_demo.App.{AppState, AppAction, navigate, go_back, set_screen, initial_state, dispatch_all}
use min_demo.App.Hook.{Client, missing, load_last_session, go_to}
use min_demo.App.Loading.{refused, load_stats, Settled, load_stats-Settled}
use min_demo.App.Navigation.{Visit, visit, unwind}
use min_demo.App.Session.{load_last_session-go_to}

abbrev smith : WorkflowContext
smith = record {
  household_id = "001000000000001";
  family_name = "Smith";
  primary_contact_id = none;
}

abbrev in_flow : AppState
in_flow = record initial_state { screen = flow; wf_ctx = some smith }

abbrev tour : List Visit
tour = (compliance, none) ∷ (meeting, some smith) ∷ (home, none) ∷ []

unwind_example : dispatch_all in_flow (map visit tour ++ replicate (length tour) go_back) ≡ in_flow
unwind_example = unwind in_flow tour refl (refl, (refl, tt))

abbrev deep : AppState
deep = record in_flow { nav_stack = record { screen = compliance; ctx = none } ∷ [] }

abbrev wander : List AppAction
wander = navigate flow (some smith) ∷ set_screen home ∷ navigate meeting none ∷ go_back ∷ []

abbrev fresh : Client
fresh = record { state = initial_state; last_nav_time = 0; session = missing; toast_timer = none }

load_last_session-go_to_example :
    load_last_session true 7000 (go_to 5000 true flow none fresh).session
    ≡ some (record { screen = flow; ctx = none; ts = 5000 })
load_last_session-go_to_example =
    load_last_session-go_to 5000 7000 flow none fresh (omega arith) refl

abbrev no_figures : List SfTask → List SfHousehold → String → Option String → Option HomeStats
no_figures tasks households url advisor = none

load_stats-Settled_example :
    Settled no_figures in_flow none refused in_flow
      (dispatch_all in_flow (load_stats no_figures in_flow none refused))
load_stats-Settled_example = load_stats-Settled no_figures in_flow in_flow none refused

-- The debounced second navigation is dropped.
quick_second :
    (go_to 5100 true home none (go_to 5000 true flow none fresh)).state
    ≡ (go_to 5000 true flow none fresh).state
unfolding go_to
quick_second = refl
