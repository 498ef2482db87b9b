-- ===== src/App.antt =====
-- The application state machine of frontend/src/lib/app-state.ts: `AppState`, `AppAction`,
-- `initialState` and `appReducer`. The hook's handlers are in App/Hook, proofs in the other
-- children.
pub mod Hook
pub mod Loading
pub mod Navigation
pub mod Session
mod Tests
use min_demo.Base.{
  ℕ, String, Bool, true, false, Option, none, some, List, [], ◌∷◌, ◌++◌, if◌then◌else◌, last?, init,
  get_or_else,
}
use min_demo.Types.{Screen, home, dashboard, ClientInfo, WorkflowContext, UserRole, principal}
use min_demo.Stats.{HomeStats, SfTask, SfHousehold}

pub data SetupStep : Type 0 where
  choose_role choose_name choose_crm connect discovering ready : SetupStep

pub data TourType : Type 0 where
  quick demo guided : TourType

-- An entry of the navigation stack.
pub record NavEntry : Type 0 where
  pub screen : Screen
  pub ctx : Option WorkflowContext

pub record Handoff : Type 0 where
  pub p1 : ClientInfo
  pub p2 : ClientInfo
  pub has_p2 : Bool

pub record AppState : Type 0 where
  pub setup_step : SetupStep
  pub role : Option UserRole
  pub advisor_name : String
  pub screen : Screen
  pub nav_stack : List NavEntry
  pub wf_ctx : Option WorkflowContext
  pub handoff : Option Handoff
  pub sf_connected : Option Bool
  pub sf_instance : String
  pub stats : Option HomeStats
  pub stats_loading : Bool
  pub raw_tasks : List SfTask
  pub raw_households : List SfHousehold
  pub raw_instance_url : String
  pub principal_advisor : String
  pub active_firm_id : String
  pub toast : Option String
  pub tour_active : Bool
  pub tour_type : TourType

pub data AppAction : Type 0 where
  set_role : UserRole → AppAction
  set_advisor_name : String → AppAction
  set_setup_step : SetupStep → AppAction
  navigate : Screen → Option WorkflowContext → AppAction
  go_back : AppAction
  go_home : AppAction
  set_handoff : Option Handoff → AppAction
  set_screen : Screen → AppAction
  sf_status : Bool → String → AppAction
  stats_loading : AppAction
  stats_loaded : HomeStats → List SfTask → List SfHousehold → String → AppAction
  stats_recomputed : HomeStats → AppAction
  stats_failed : AppAction
  set_principal_advisor : String → AppAction
  show_toast : String → AppAction
  clear_toast : AppAction
  set_tour : Bool → AppAction
  set_tour_type : TourType → AppAction
  set_role_inline : UserRole → AppAction

abbrev pub initial_state : AppState
initial_state = record {
  setup_step = choose_role;
  role = none;
  advisor_name = "";
  screen = home;
  nav_stack = [];
  wf_ctx = none;
  handoff = none;
  sf_connected = none;
  sf_instance = "";
  stats = none;
  stats_loading = true;
  raw_tasks = [];
  raw_households = [];
  raw_instance_url = "";
  principal_advisor = "all";
  active_firm_id = "all";
  toast = none;
  tour_active = false;
  tour_type = quick;
}

abbrev pub is_home : Screen → Bool
is_home home = true
is_home _ = false

-- `step === "ready" && role === "principal"`.
abbrev principal_ready : SetupStep → Option UserRole → Bool
principal_ready ready (some principal) = true
principal_ready _ _ = false

-- "NAVIGATE" pushes the outgoing screen with its own context, but never "home".
abbrev pub push_outgoing : AppState → List NavEntry
push_outgoing s =
    if is_home s.screen
    then s.nav_stack
    else s.nav_stack ++ record { screen = s.screen; ctx = s.wf_ctx } ∷ []

abbrev pub to_home : AppState → AppState
to_home s = record s { screen = home; wf_ctx = none; handoff = none; nav_stack = [] }

-- "GO_BACK": the last entry of the stack, or home.
pop_entry : Option NavEntry → AppState → AppState
pop_entry none s = to_home s
pop_entry (some prev) s = record s {
  screen = prev.screen;
  wf_ctx = prev.ctx;
  nav_stack = init s.nav_stack;
}

unfoldable pub app_reducer : AppState → AppAction → AppState
unfolding pop_entry
app_reducer s (set_role r) = record s { role = some r }
app_reducer s (set_advisor_name n) = record s { advisor_name = n }
app_reducer s (set_setup_step step) =
    if principal_ready step s.role
    then record s { setup_step = step; screen = dashboard }
    else record s { setup_step = step }
app_reducer s (navigate screen none) = record s { screen = screen; nav_stack = push_outgoing s }
app_reducer s (navigate screen (some ctx)) = record s {
  screen = screen;
  wf_ctx = some ctx;
  nav_stack = push_outgoing s;
}
app_reducer s go_back = pop_entry (last? s.nav_stack) s
app_reducer s go_home = to_home s
app_reducer s (set_handoff h) = record s { handoff = h }
app_reducer s (set_screen screen) = record s { screen = screen }
app_reducer s (sf_status connected instance_name) = record s {
  sf_connected = some connected;
  sf_instance = instance_name;
}
app_reducer s stats_loading = record s { stats_loading = true }
app_reducer s (stats_loaded stats tasks households url) = record s {
  stats = some stats;
  raw_tasks = tasks;
  raw_households = households;
  raw_instance_url = url;
  stats_loading = false;
}
app_reducer s (stats_recomputed stats) = record s { stats = some stats; stats_loading = false }
app_reducer s stats_failed = record s { stats_loading = false }
app_reducer s (set_principal_advisor a) = record s { principal_advisor = a }
app_reducer s (show_toast m) = record s { toast = some m }
app_reducer s clear_toast = record s { toast = none }
app_reducer s (set_tour active) = record s { tour_active = active }
app_reducer s (set_tour_type t) = record s { tour_type = t }
app_reducer s (set_role_inline r) = record s { role = some r }

-- `useReducer` folds the dispatched actions, in order.
pub dispatch_all : AppState → List AppAction → AppState
dispatch_all s [] = s
dispatch_all s (a ∷ as') = dispatch_all (app_reducer s a) as'
