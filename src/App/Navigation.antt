-- ===== src/App/Navigation.antt =====
-- The navigation stack of `appReducer`.
use min_demo.Base.{
  ℕ, zero, suc, ◌≡◌, refl, ap, false, Option, none, some, List, [], ◌∷◌, ◌++◌, map, arith, length,
  replicate, last?, init, last?-snoc, init-snoc, length-init, All, All-append, All-init, Bool-cases,
  Option-cases, inl, inr, ◌-◌, append_assoc, eq-nil_of_length, eq-nil_of_last?,
}
use min_demo.Types.{Screen, home, WorkflowContext}
use min_demo.App.{
  AppState, AppAction, NavEntry, navigate, go_back, go_home, set_setup_step, app_reducer,
  dispatch_all, is_home, initial_state, principal_ready,
}

abbrev pub NotHome : Screen → Type 0
NotHome s = is_home s ≡ false

-- A visit of a screen, with or without a context of its own.
abbrev pub Visit : Type 0
Visit = Screen × Option WorkflowContext

abbrev pub visit : Visit → AppAction
visit v = navigate v.0 v.1

-- No entry of the stack is the home screen.
abbrev pub NavOk : AppState → Type 0
NavOk s = All (λ (e : NavEntry). NotHome e.screen) s.nav_stack

dispatch_all-append :
    (s : AppState) (xs ys : List AppAction)
    → dispatch_all s (xs ++ ys) ≡ dispatch_all (dispatch_all s xs) ys
unfolding dispatch_all
dispatch_all-append s [] ys = refl
dispatch_all-append s (x ∷ xs) ys = dispatch_all-append (app_reducer s x) xs ys

replicate-snoc {ℓ} : {A : Type ℓ} (n : ℕ) (a : A) → replicate (suc n) a ≡ replicate n a ++ a ∷ []
replicate-snoc zero a = refl
replicate-snoc (suc n) a = ap (λ xs. a ∷ xs) (replicate-snoc n a)

go_back-navigate :
    (s : AppState) (v : Visit)
    → NotHome s.screen
    → app_reducer (app_reducer s (visit v)) go_back ≡ s
unfolding app_reducer
go_back-navigate s (screen, none) h = rw h (rw (last?-snoc, init-snoc) refl)
go_back-navigate s (screen, some ctx) h = rw h (rw (last?-snoc, init-snoc) refl)

-- What one visit leaves on the screen.
screen-visit : (s : AppState) (v : Visit) → (app_reducer s (visit v)).screen ≡ v.0
unfolding app_reducer
screen-visit s (screen, none) = refl
screen-visit s (screen, some ctx) = refl

dispatch_all-one : (s : AppState) (a : AppAction) → dispatch_all s (a ∷ []) ≡ app_reducer s a
unfolding dispatch_all
dispatch_all-one s a = refl

-- One more "GO_BACK" at the end undoes one more visit at the start.
unwind_cons :
    (s : AppState) (v : Visit) (acts : List AppAction) (n : ℕ)
    → NotHome s.screen
    → dispatch_all (app_reducer s (visit v)) (acts ++ replicate n go_back) ≡ app_reducer s (visit v)
    → dispatch_all (app_reducer s (visit v)) (acts ++ replicate (suc n) go_back) ≡ s
unwind_cons s v acts n h ih = rw (replicate-snoc n go_back) (
    rw (← append_assoc)
      (rw (dispatch_all-append) (rw ih (rw dispatch_all-one (go_back-navigate s v h)))))

-- From a screen that is not home, visiting any screens of which all but the last are not home,
-- with or without contexts, and going back as many times restores the whole state.
pub unwind :
    (s : AppState) (vs : List Visit)
    → NotHome s.screen
    → All (λ (v : Visit). NotHome v.0) (init vs)
    → dispatch_all s (map visit vs ++ replicate (length vs) go_back) ≡ s
unfolding dispatch_all
unwind s [] h k = refl
unwind s (v ∷ []) h k = go_back-navigate s v h
unwind s (v ∷ w ∷ vs) h k =
    unwind_cons s v (map visit (w ∷ vs)) (length (w ∷ vs)) h
      (unwind (app_reducer s (visit v)) (w ∷ vs) (rw (screen-visit s v) k.0) k.1)

length-go_back : (s : AppState) → length (app_reducer s go_back).nav_stack ≡ length s.nav_stack - 1
unfolding app_reducer
length-go_back s = elim (Option-cases (last? s.nav_stack)) [
  | inl e ↦ rw e (rw (eq-nil_of_last? s.nav_stack e) (omega arith))
  | inr (prev, e) ↦ rw e (length-init s.nav_stack)
]

abbrev pub IsHomeReset : AppState → Type 0
IsHomeReset s = (s.screen ≡ home) × (s.nav_stack ≡ []) × (s.wf_ctx ≡ none) × (s.handoff ≡ none)

go_back_empty : (s : AppState) → last? s.nav_stack ≡ none → IsHomeReset (app_reducer s go_back)
unfolding app_reducer
go_back_empty s e = rw e (refl, refl, refl, refl)

-- Whatever the stack holds, going back once more often than it has entries ends on the home
-- screen with an empty stack, no context and no handoff.
pub go_back_drains :
    (s : AppState) (n : ℕ)
    → length s.nav_stack ≡ n
    → IsHomeReset (dispatch_all s (replicate (suc n) go_back))
unfolding dispatch_all
go_back_drains s zero h =
    let e = eq-nil_of_length s.nav_stack h in
    let top : last? s.nav_stack ≡ none = rw e refl in go_back_empty s top
go_back_drains s (suc n) h =
    go_back_drains (app_reducer s go_back) n (omega (arith, length-go_back s))

app_reducer-NavOk : (s : AppState) (a : AppAction) → NavOk s → NavOk (app_reducer s a)
unfolding app_reducer
app_reducer-NavOk s (navigate screen none) h = elim (Bool-cases (is_home s.screen)) [
  | inl e ↦ rw e h
  | inr e ↦ rw e (All-append _ s.nav_stack _ h (e, tt))
]
app_reducer-NavOk s (navigate screen (some ctx)) h = elim (Bool-cases (is_home s.screen)) [
  | inl e ↦ rw e h
  | inr e ↦ rw e (All-append _ s.nav_stack _ h (e, tt))
]
app_reducer-NavOk s go_back h = elim (Option-cases (last? s.nav_stack)) [
  | inl e ↦ rw e tt
  | inr (prev, e) ↦ rw e (All-init _ s.nav_stack h)
]
app_reducer-NavOk s go_home h = tt
app_reducer-NavOk s (set_setup_step step) h = elim (Bool-cases (principal_ready step s.role)) [
  | inl e ↦ rw e h
  | inr e ↦ rw e h
]
app_reducer-NavOk s _ h = h

dispatch_all-NavOk_from :
    (s : AppState) (acts : List AppAction) → NavOk s → NavOk (dispatch_all s acts)
unfolding dispatch_all
dispatch_all-NavOk_from s [] h = h
dispatch_all-NavOk_from s (a ∷ acts) h =
    dispatch_all-NavOk_from (app_reducer s a) acts (app_reducer-NavOk s a h)

-- Whatever is dispatched from the initial state, in any order, the stack never holds the home
-- screen.
pub dispatch_all-NavOk : (acts : List AppAction) → NavOk (dispatch_all initial_state acts)
dispatch_all-NavOk acts = dispatch_all-NavOk_from initial_state acts tt
