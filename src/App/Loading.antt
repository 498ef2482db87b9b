-- ===== src/App/Loading.antt =====
-- `loadStats` of `useAppState` (frontend/src/lib/app-state.ts): what it dispatches. The figures
-- are computed by `buildHomeStats` of frontend/src/lib/home-stats.ts, the section's parameter:
-- `none` where it throws. The snapshot that is sent to the analytics route is left out.
use min_demo.Base.{
  ◌≡◌, refl, Bool, false, ◌&&◌, String, Option, none, some, List, [], ◌∷◌, str_eq, if◌then◌else◌,
  ltb, length, is_some, inl, inr, Option-cases, Bool-cases,
}
use min_demo.Stats.{HomeStats, SfTask, SfHousehold}
use min_demo.App.{
  AppState, AppAction, stats_loading, stats_loaded, stats_recomputed, stats_failed, app_reducer,
  dispatch_all,
}

-- What `callSF("queryTasks")` gives back: the records, a reply without success, or an exception.
pub data Reply : Type 0 where
  records : List SfTask → List SfHousehold → String → Reply
  refused : Reply
  threw : Reply

-- `filterAdv === "all" ? undefined : filterAdv`.
pub advisor_filter : Option String → Option String
advisor_filter none = none
advisor_filter (some a) = if str_eq a "all" then none else some a

module _ (build : List SfTask → List SfHousehold → String → Option String → Option HomeStats) where
  recompute : AppState → Option HomeStats → AppAction
  recompute s none = stats_failed
  recompute s (some stats) = stats_recomputed stats

  loaded : List SfTask → List SfHousehold → String → Option HomeStats → AppAction
  loaded tasks households url none = stats_failed
  loaded tasks households url (some stats) = stats_loaded stats tasks households url

  fetched : Option String → Reply → AppAction
  fetched f (records tasks households url) =
      loaded tasks households url (build tasks households url (advisor_filter f))
  fetched f refused = stats_failed
  fetched f threw = stats_failed

  -- The raw records at hand are filtered again without a call where a filter is given.
  has_raw : AppState → Option String → Bool
  has_raw s f = ltb 0 (length s.raw_tasks) && (ltb 0 (length s.raw_households) && is_some f)

  -- The actions that one call dispatches, in order; `s` is the state that the callback captured.
  pub load_stats : AppState → Option String → Reply → List AppAction
  unfolding fetched has_raw recompute loaded
  load_stats s f reply =
      stats_loading
      ∷ (if has_raw s f
          then recompute s
              (build s.raw_tasks s.raw_households s.raw_instance_url (advisor_filter f))
          else fetched f reply)
      ∷ []

  -- The state `t` that a call leaves where it found `s`: figures from the records at hand,
  -- figures from the reply's records, or nothing but the flag.
  pub data Settled (captured : AppState) (f : Option String) (reply : Reply) (s t : AppState)
      : Type 0 where
    unchanged : t ≡ record s { stats_loading = false } → Settled captured f reply s t
    refiltered :
        (stats : HomeStats)
        → build captured.raw_tasks captured.raw_households captured.raw_instance_url
            (advisor_filter f)
          ≡ some stats
        → t ≡ record s { stats = some stats; stats_loading = false }
        → Settled captured f reply s t
    refreshed :
        (tasks : List SfTask) (households : List SfHousehold) (url : String) (stats : HomeStats)
        → reply ≡ records tasks households url
        → build tasks households url (advisor_filter f) ≡ some stats
        → t ≡ record s {
          stats = some stats;
          raw_tasks = tasks;
          raw_households = households;
          raw_instance_url = url;
          stats_loading = false;
        }
        → Settled captured f reply s t

  load_stats_recompute :
      (captured s : AppState) (f : Option String) (reply : Reply)
      → Settled captured f reply s (
          dispatch_all s (
            stats_loading
            ∷ recompute captured (
                build captured.raw_tasks captured.raw_households captured.raw_instance_url
                  (advisor_filter f))
            ∷ []))
  unfolding recompute dispatch_all app_reducer
  load_stats_recompute captured s f reply =
      elim (Option-cases (
        build captured.raw_tasks captured.raw_households captured.raw_instance_url
          (advisor_filter f))) [
            | inl e ↦ rw e (unchanged refl)
            | inr (stats, e) ↦ rw e (refiltered stats e refl)
          ]

  load_stats_fetched :
      (captured s : AppState) (f : Option String) (reply : Reply)
      → Settled captured f reply s (dispatch_all s (stats_loading ∷ fetched f reply ∷ []))
  unfolding fetched loaded dispatch_all app_reducer
  load_stats_fetched captured s f (records tasks households url) =
      elim (Option-cases (build tasks households url (advisor_filter f))) [
        | inl e ↦ rw e (unchanged refl)
        | inr (stats, e) ↦ rw e (refreshed tasks households url stats refl e refl)
      ]
  load_stats_fetched captured s f refused = unchanged refl
  load_stats_fetched captured s f threw = unchanged refl

  -- Whatever the CRM replies, an exception included, and whatever else changed the state since the
  -- callback captured it, a call of `loadStats` ends with the loading flag down and changes nothing
  -- else, but for the figures built from the records at hand, or for the figures built from the
  -- reply's records together with these records.
  pub load_stats-Settled :
      (captured s : AppState) (f : Option String) (reply : Reply)
      → Settled captured f reply s (dispatch_all s (load_stats captured f reply))
  unfolding load_stats
  load_stats-Settled captured s f reply = elim (Bool-cases (has_raw captured f)) [
    | inl e ↦ rw e (load_stats_recompute captured s f reply)
    | inr e ↦ rw e (load_stats_fetched captured s f reply)
  ]
