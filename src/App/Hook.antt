-- ===== src/App/Hook.antt =====
-- The handlers of `useAppState` (frontend/src/lib/app-state.ts) that keep state beside the
-- reducer: `goTo` with its debounce, the session in `localStorage`, and the toast timer.
-- A clock reading is a number of milliseconds; `setTimeout` is a deadline that `elapse` looks at.
use min_demo.Base.{
  ℕ, ◌+◌, Bool, true, not, ◌&&◌, Option, none, some, String, ltb, leb, if◌then◌else◌,
}
use min_demo.Types.{Screen, WorkflowContext}
use min_demo.App.{
  AppState, navigate, go_back, go_home, show_toast, clear_toast, app_reducer, is_home,
}

pub record LastSession : Type 0 where
  pub screen : Screen
  pub ctx : Option WorkflowContext
  pub ts : ℕ

-- What `localStorage` holds under the session key: nothing, a text that does not parse, or what
-- `goTo` wrote.
pub data Stored : Type 0 where
  missing : Stored
  corrupted : Stored
  saved : LastSession → Stored

-- The refs of the hook beside the reducer's state. `toast_timer` is the deadline of the timer.
pub record Client : Type 0 where
  pub state : AppState
  pub last_nav_time : ℕ
  pub session : Stored
  pub toast_timer : Option ℕ

-- `windowed` is false on the server, where `window` is undefined.
unfoldable pub load_last_session : Bool → ℕ → Stored → Option LastSession
load_last_session windowed now missing = none
load_last_session windowed now corrupted = none
load_last_session windowed now (saved s) =
    if windowed && (not (is_home s.screen) && ltb now (s.ts + 86400000)) then some s else none

unfoldable pub clear_last_session : Bool → Stored → Stored
clear_last_session windowed stored = if windowed then missing else stored

-- `now - last < 200` over the integers is `now < last + 200`. `writable` is false where `setItem`
-- throws, which the code swallows.
unfoldable pub go_to : ℕ → Bool → Screen → Option WorkflowContext → Client → Client
go_to now writable screen ctx c = if ltb now (c.last_nav_time + 200) then c else record c {
  state = app_reducer c.state (navigate screen ctx);
  last_nav_time = now;
  session =
      if not (is_home screen) && writable
      then saved (record { screen = screen; ctx = ctx; ts = now })
      else c.session;
}

unfoldable pub back : Client → Client
back c = record c { state = app_reducer c.state go_back }

unfoldable pub go_to_home : Client → Client
unfolding clear_last_session
go_to_home c = record c {
  state = app_reducer c.state go_home;
  session = clear_last_session true c.session;
}

-- The old timer is cleared by being replaced.
unfoldable pub raise_toast : ℕ → String → Client → Client
raise_toast now message c = record c {
  state = app_reducer c.state (show_toast message);
  toast_timer = some (now + 3000);
}

expire : Option ℕ → ℕ → Client → Client
expire none now c = c
expire (some due) now c =
    if leb due now
    then record c { state = app_reducer c.state clear_toast; toast_timer = none }
    else c

-- The event loop at time `now`: a timer that is due fires once.
unfoldable pub elapse : ℕ → Client → Client
unfolding expire
elapse now c = expire c.toast_timer now c
