-- ===== src/Home/InsightScope.antt =====
-- Whose households the insights of frontend/src/lib/home-stats.ts name where they are filtered by an
-- advisor.
use min_demo.Base.{
  if◌then◌else◌, ℕ, refl, String, Bool, true, false, Option, none, some, List, [], ◌∷◌, str_eq,
  truthy, ltb, ◌&&◌, ◌-◌, ◌/◌, Bool-cases, inl, inr, All, All-filter, All-take, All-append,
  All-sort_by,
}
use min_demo.Stats.{SfTask, SfHousehold, Insight}
use min_demo.Home.Config.{TriageThresholdConfig}
use min_demo.Home.Wording.{Env, ms_day}
use min_demo.Home.Selection.{Book, unsigned_tasks, high_overdue, overdue_tasks, open_tasks}
use min_demo.Home.Belongs.{Belongs, TaskOf, HouseholdOf, BelongsIfAny}
use min_demo.Home.Insights.{
  Activity, set_activity, activity_of, reduce_worst, earlier, unsigned_insight, unsigned_insights,
  coverage_insights, created_activity, note_task, task_activity, staler, stalest_from, stalest,
  stale_insights, overdue_insight, overdue_insights, all_insights, top_insights, severity_order,
}

-- What holds of a list holds of the element that `reduce` ends with.
reduce_worst-All {ℓ κ} :
    {A : Type ℓ} (P : A → Type κ) (better : A → A → Bool) (a : A) (bs : List A)
    → P a
    → All P bs
    → P (reduce_worst better a bs)
unfolding reduce_worst
reduce_worst-All P better a [] h hs = h
reduce_worst-All P better a (b ∷ bs) h hs = elim (Bool-cases (better a b)) [
  | inl e ↦ rw e (reduce_worst-All P better a bs h hs.1)
  | inr e ↦ rw e (reduce_worst-All P better b bs hs.0 hs.1)
]

module _ (advisor : String) (households : List SfHousehold) where
  abbrev EntryMine : String × Option ℕ → Type 0
  EntryMine e = Belongs advisor households (some e.0)

  abbrev InsightMine : Insight → Type 0
  InsightMine i = BelongsIfAny advisor households i.household_id

  set_activity-Mine :
      (id : String) (t : Option ℕ) (m : Activity)
      → Belongs advisor households (some id)
      → All EntryMine m
      → All EntryMine (set_activity id t m)
  unfolding set_activity
  set_activity-Mine id t [] h hs = (h, tt)
  set_activity-Mine id t ((k, u) ∷ m) h hs = elim (Bool-cases (str_eq k id)) [
    | inl e ↦ rw e (hs.0, hs.1)
    | inr e ↦ rw e (hs.0, set_activity-Mine id t m h hs.1)
  ]

  -- The household found so far, or none yet.
  abbrev FoundMine : String × ℕ → Type 0
  FoundMine found = BelongsIfAny advisor households (some found.0)

  module _ (v : Env) (cfg : TriageThresholdConfig) (url : String) (b : Book)
      (ht : All (TaskOf advisor households) b.tasks)
      (hh : All (HouseholdOf advisor households) b.households) where
    created_activity-Mine :
        (m : Activity) (hs : List SfHousehold)
        → All EntryMine m
        → All (HouseholdOf advisor households) hs
        → All EntryMine (created_activity v cfg url b m hs)
    unfolding created_activity
    created_activity-Mine m [] h k = h
    created_activity-Mine m (x ∷ hs) h k =
        created_activity-Mine (set_activity x.id (v.time_of x.created_at) m) hs
          (set_activity-Mine x.id (v.time_of x.created_at) m k.0 h) k.1

    note_task-Mine :
        (t : SfTask) (m : Activity)
        → TaskOf advisor households t
        → All EntryMine m
        → All EntryMine (note_task v cfg url b t m)
    note_task-Mine t m h hs = by_household t.household_id h.0
      where
        by_household :
            (o : Option String)
            → Belongs advisor households o
            → All EntryMine (elim o [
              | none ↦ m
              | some id ↦
                  if truthy id && earlier (some (activity_of id m)) (v.time_of t.created_at)
                  then set_activity id (v.time_of t.created_at) m
                  else m
            ])
        by_household none mine = hs
        by_household (some id) mine =
            elim (Bool-cases
              (truthy id && earlier (some (activity_of id m)) (v.time_of t.created_at))) [
                | inl e ↦ rw e (set_activity-Mine id (v.time_of t.created_at) m mine hs)
                | inr e ↦ rw e hs
              ]

    task_activity-Mine :
        (m : Activity) (ts : List SfTask)
        → All EntryMine m
        → All (TaskOf advisor households) ts
        → All EntryMine (task_activity v cfg url b m ts)
    unfolding task_activity
    task_activity-Mine m [] h k = h
    task_activity-Mine m (t ∷ ts) h k =
        task_activity-Mine (note_task v cfg url b t m) ts (note_task-Mine t m k.0 h) k.1

    staler-Mine :
        (e : String × Option ℕ) (found : String × ℕ)
        → EntryMine e
        → FoundMine found
        → FoundMine (staler v cfg url b e found)
    staler-Mine (id, none) found h k = k
    staler-Mine (id, some t) (old, days) h k = elim (Bool-cases (ltb days ((v.now - t) / ms_day))) [
      | inl e ↦ rw e (inr h)
      | inr e ↦ rw e k
    ]

    stalest_from-Mine :
        (found : String × ℕ) (m : Activity)
        → FoundMine found
        → All EntryMine m
        → FoundMine (stalest_from v cfg url b found m)
    unfolding stalest_from
    stalest_from-Mine found [] h k = h
    stalest_from-Mine found (e ∷ m) h k =
        stalest_from-Mine (staler v cfg url b e found) m (staler-Mine e found k.0 h) k.1

    stalest-Mine : FoundMine (stalest v cfg url b)
    unfolding stalest
    stalest-Mine =
        stalest_from-Mine ("", 0) _ (inl refl)
          (task_activity-Mine _ b.tasks (created_activity-Mine [] b.households tt hh) ht)

    optional_insight :
        (given : Bool) (i : Insight)
        → InsightMine i
        → All InsightMine (if given then i ∷ [] else [])
    optional_insight true i h = (h, tt)
    optional_insight false i h = tt

    unsigned_insights-Mine :
        (ts : List SfTask)
        → All (TaskOf advisor households) ts
        → All InsightMine (unsigned_insights v cfg url b ts)
    unfolding unsigned_insights unsigned_insight
    unsigned_insights-Mine [] h = tt
    unsigned_insights-Mine (t ∷ ts) h =
        optional_insight _ _ (inr (reduce_worst-All (TaskOf advisor households) _ t ts h.0 h.1).0)

    overdue_insights-Mine :
        (ts : List SfTask)
        → All (TaskOf advisor households) ts
        → All InsightMine (overdue_insights v cfg url b ts)
    unfolding overdue_insights overdue_insight
    overdue_insights-Mine [] h = tt
    overdue_insights-Mine (t ∷ ts) h =
        (inr (reduce_worst-All (TaskOf advisor households) _ t ts h.0 h.1).0, tt)

    coverage_insights-Mine : All InsightMine (coverage_insights v cfg url b)
    unfolding coverage_insights
    coverage_insights-Mine = optional_insight _ _ (inl refl)

    stale_insights-Mine : All InsightMine (stale_insights v cfg url b)
    unfolding stale_insights
    stale_insights-Mine = optional_insight _ _ stalest-Mine

    unsigned_tasks-Mine : All (TaskOf advisor households) (unsigned_tasks v b)
    unfolding unsigned_tasks
    unsigned_tasks-Mine = All-filter (TaskOf advisor households) _ b.tasks ht

    high_overdue-Mine : All (TaskOf advisor households) (high_overdue v b)
    unfolding high_overdue overdue_tasks open_tasks
    high_overdue-Mine =
        let P = TaskOf advisor households in
        All-filter P _ (overdue_tasks v b)
          (All-filter P _ (open_tasks v b) (All-filter P _ b.tasks ht))

    all_insights-Mine : All InsightMine (all_insights v cfg url b)
    unfolding all_insights
    all_insights-Mine =
        All-append InsightMine _ _ (unsigned_insights-Mine (unsigned_tasks v b) unsigned_tasks-Mine)
          (All-append InsightMine _ _ coverage_insights-Mine (
            All-append InsightMine _ _ stale_insights-Mine
              (overdue_insights-Mine (high_overdue v b) high_overdue-Mine)))

    -- The household that each insight shown names is of the book.
    pub top_insights-Mine : All InsightMine (top_insights v cfg url b)
    unfolding top_insights
    top_insights-Mine = All-take InsightMine 3 _ (
        All-sort_by (λ (i : Insight). severity_order i.severity) InsightMine
          (all_insights v cfg url b) all_insights-Mine)
