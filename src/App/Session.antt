-- ===== src/App/Session.antt =====
-- Navigation through the hook: the debounce, the saved session and the toast timer.
use min_demo.Base.{
  ℕ, ◌+◌, ◌≤◌, ◌<◌, ◌≡◌, refl, Bool, true, String, Option, none, some, List, [], ◌∷◌, arith, ltb,
  if◌then◌else◌, ◌⊎◌, All,
}
use min_demo.Types.{Screen, WorkflowContext}
use min_demo.App.{navigate, app_reducer}
use min_demo.App.Hook.{Client, load_last_session, go_to, raise_toast, elapse}
use min_demo.App.Navigation.{NotHome}

-- A navigation away from home that the debounce lets through, on storage that can be written, is
-- resumed on any reload in the 24 hours that follow, with its screen and its context, and on none
-- later.
pub load_last_session-go_to :
    (now later : ℕ) (screen : Screen) (ctx : Option WorkflowContext) (c : Client)
    → c.last_nav_time + 200 ≤ now
    → NotHome screen
    → load_last_session true later (go_to now true screen ctx c).session ≡ (
        if ltb later (now + 86400000)
        then some (record { screen = screen; ctx = ctx; ts = now })
        else none)
unfolding load_last_session go_to
load_last_session-go_to now later screen ctx c h k = ground arith

-- A navigation within 200 ms of the last one that took effect changes nothing; a later one
-- dispatches it and starts the next 200 ms.
pub go_to_debounce :
    (now : ℕ) (writable : Bool) (screen : Screen) (ctx : Option WorkflowContext) (c : Client)
    → ((now < c.last_nav_time + 200) × (go_to now writable screen ctx c ≡ c))
      ⊎ ((c.last_nav_time + 200 ≤ now)
          × ((go_to now writable screen ctx c).state ≡ app_reducer c.state (navigate screen ctx))
          × ((go_to now writable screen ctx c).last_nav_time ≡ now))
unfolding go_to
go_to_debounce now writable screen ctx c = ground arith

-- The event loop at each of the given times, in order.
pub elapse_all : List ℕ → Client → Client
elapse_all [] c = c
elapse_all (t ∷ ts) c = elapse_all ts (elapse t c)

elapse_early : (t due : ℕ) (c : Client) → c.toast_timer ≡ some due → t < due → elapse t c ≡ c
unfolding elapse
elapse_early t due c e h = ground arith

elapse_all_early :
    (ts : List ℕ) (due : ℕ) (c : Client)
    → c.toast_timer ≡ some due
    → All (λ t. t < due) ts
    → elapse_all ts c ≡ c
unfolding elapse_all
elapse_all_early [] due c e h = refl
elapse_all_early (t ∷ ts) due c e h =
    rw (elapse_early t due c e h.0) (elapse_all_early ts due c e h.1)

abbrev pub ShowsUntil : String → Client → ℕ → Type 0
ShowsUntil message c t =
    (c.state.toast ≡ some message)
    × ((elapse t c).state.toast ≡ none)
    × ((elapse t c).toast_timer ≡ none)

raise_toast-elapse :
    (now t : ℕ) (message : String) (c : Client)
    → now + 3000 ≤ t
    → ShowsUntil message (raise_toast now message c) t
unfolding raise_toast elapse app_reducer
raise_toast-elapse now t message c h = ground arith

raise_toast-timer :
    (now : ℕ) (message : String) (c : Client)
    → (raise_toast now message c).toast_timer ≡ some (now + 3000)
unfolding raise_toast
raise_toast-timer now message c = refl

-- A toast is shown for the whole 3 seconds after it is raised, also where an earlier toast's timer
-- would have expired in between, and the first event after them takes it away.
pub toast_lifetime :
    (now t : ℕ) (ts : List ℕ) (message : String) (c : Client)
    → All (λ u. u < now + 3000) ts
    → now + 3000 ≤ t
    → ShowsUntil message (elapse_all ts (raise_toast now message c)) t
toast_lifetime now t ts message c early late =
    rw
      (elapse_all_early ts (now + 3000) (raise_toast now message c)
        (raise_toast-timer now message c) early)
      (raise_toast-elapse now t message c late)
