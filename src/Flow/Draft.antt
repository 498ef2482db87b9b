-- ===== src/Flow/Draft.antt =====
-- The saved draft of frontend/src/app/flow/useFlowState.ts: `stripPII`, `saveDraft`, `loadDraft`,
-- `clearDraft`, the effect that persists the state, and the state the hook starts with.
use min_demo.Base.{
  ◌≡◌, Bool, true, false, ◌||◌, String, Option, none, some, List, [], ◌∷◌, arith, if◌then◌else◌,
}
use min_demo.Types.{FlowStep, context, generating, complete, select_accounts_p1, ClientInfo}
use min_demo.Flow.{FlowState, FlowAction, new_client, reset, initial_flow, reducer}

-- What session storage holds under the draft's key: nothing, text that does not parse, or a draft.
-- `JSON.stringify` and `JSON.parse` give the draft back.
pub data Stored : Type 0 where
  absent unreadable : Stored
  draft : FlowState → Stored

unfoldable pub strip_pii : ClientInfo → ClientInfo
strip_pii client = record client { ssn = ""; id_number = ""; dob = "" }

unfoldable pub redacted : FlowState → FlowState
redacted s = record s { p1 = strip_pii s.p1; p2 = strip_pii s.p2 }

abbrev is_context : FlowStep → Bool
is_context context = true
is_context _ = false

abbrev is_complete : FlowStep → Bool
is_complete complete = true
is_complete _ = false

abbrev is_generating : FlowStep → Bool
is_generating generating = true
is_generating _ = false

-- `writable` is false where `setItem` throws, its quota exceeded: the draft is not written.
unfoldable pub save_draft : Bool → FlowState → Stored → Stored
save_draft writable s stored =
    if is_context s.step || (is_complete s.step || is_generating s.step)
    then stored
    else if writable
    then draft (redacted s)
    else stored

unfoldable pub load_draft : Stored → Option FlowState
load_draft absent = none
load_draft unreadable = none
load_draft (draft s) = some s

abbrev pub clear_draft : Stored → Stored
clear_draft stored = absent

pub record InitialClient : Type 0 where
  pub p1 : ClientInfo
  pub p2 : ClientInfo
  pub has_p2 : Bool

-- The state that the hook starts with, from the client given or from the draft.
unfoldable pub initial_state : Option InitialClient → Stored → FlowState
initial_state (some client) stored = record initial_flow {
  step = select_accounts_p1;
  p1 = client.p1;
  p2 = client.p2;
  has_p2 = client.has_p2;
  client_type = some new_client;
}
initial_state none stored = elim (load_draft stored) [ none ↦ initial_flow | some s ↦ s ]

-- The effect on a change of the state.
unfoldable pub persist : Bool → FlowState → Stored → Stored
persist writable s stored =
    if is_complete s.step || is_context s.step
    then clear_draft stored
    else save_draft writable s stored

-- The page: the state of the hook and session storage.
pub record Page : Type 0 where
  pub flow : FlowState
  pub stored : Stored

-- `RESET` clears the draft within the reducer; no other action touches storage.
abbrev clear_on_reset : FlowAction → Stored → Stored
clear_on_reset reset stored = clear_draft stored
clear_on_reset _ stored = stored

module _ (lower : String → String) where
  unfoldable pub dispatch : FlowAction → Page → Page
  dispatch act page = record {
    flow = reducer lower page.flow act;
    stored = clear_on_reset act page.stored;
  }

-- What happens to a page: an action, the effect that follows some of them, a reload.
pub data Event : Type 0 where
  action : FlowAction → Event
  effect : (writable : Bool) → Event
  mount : Option InitialClient → Event

module _ (lower : String → String) where
  unfoldable pub happen : Event → Page → Page
  happen (action act) page = dispatch lower act page
  happen (effect writable) page = record page { stored = persist writable page.flow page.stored }
  happen (mount client) page = record page { flow = initial_state client page.stored }

  pub happen_all : List Event → Page → Page
  happen_all [] page = page
  happen_all (e ∷ es) page = happen_all es (happen e page)

-- A client without social security number, identity document number and date of birth.
abbrev pub WithoutPii : ClientInfo → Type 0
WithoutPii client = (client.ssn ≡ "") × ((client.id_number ≡ "") × (client.dob ≡ ""))

-- Storage holds no such field of either client.
abbrev pub HoldsNoPii : Stored → Type 0
HoldsNoPii absent = Unit
HoldsNoPii unreadable = Unit
HoldsNoPii (draft s) = WithoutPii s.p1 × WithoutPii s.p2

persist-HoldsNoPii :
    (writable : Bool) (s : FlowState) (stored : Stored)
    → HoldsNoPii stored
    → HoldsNoPii (persist writable s stored)
unfolding persist save_draft redacted strip_pii
persist-HoldsNoPii writable s stored h = ground arith

clear_on_reset-HoldsNoPii :
    (act : FlowAction) (stored : Stored)
    → HoldsNoPii stored
    → HoldsNoPii (clear_on_reset act stored)
clear_on_reset-HoldsNoPii reset stored h = tt
clear_on_reset-HoldsNoPii _ stored h = h

happen-HoldsNoPii :
    (lower : String → String) (e : Event) (page : Page)
    → HoldsNoPii page.stored
    → HoldsNoPii (happen lower e page).stored
unfolding happen dispatch
happen-HoldsNoPii lower (action act) page h = clear_on_reset-HoldsNoPii act page.stored h
happen-HoldsNoPii lower (effect writable) page h =
    persist-HoldsNoPii writable page.flow page.stored h
happen-HoldsNoPii lower (mount client) page h = h

-- On a page whose saved draft has no social security number, no identity document number and no date
-- of birth, the draft never has one after any actions, effects and reloads, in any order, whatever
-- the clients' data.
pub draft-HoldsNoPii :
    (lower : String → String) (es : List Event) (page : Page)
    → HoldsNoPii page.stored
    → HoldsNoPii (happen_all lower es page).stored
unfolding happen_all
draft-HoldsNoPii lower [] page h = h
draft-HoldsNoPii lower (e ∷ es) page h =
    draft-HoldsNoPii lower es (happen lower e page) (happen-HoldsNoPii lower e page h)

abbrev pub is_saved : FlowStep → Bool
is_saved context = false
is_saved generating = false
is_saved complete = false
is_saved _ = true

-- Where storage can be written, a reload after the effect gives the state back with the social
-- security number, the identity document number and the date of birth of both clients empty and all
-- else kept, on every step but three. While documents are generated it gives what a reload before
-- the effect would have given; on the first and on the last step it gives the initial state.
pub reload :
    (lower : String → String) (page : Page)
    → (happen lower (mount none) (happen lower (effect true) page)).flow ≡ (
        if is_saved page.flow.step
        then redacted page.flow
        else if is_generating page.flow.step
        then (happen lower (mount none) page).flow
        else initial_flow)
unfolding happen persist save_draft load_draft initial_state
reload lower page = ground arith
