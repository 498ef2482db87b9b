-- ===== src/Home/Insights.antt =====
-- The insights of `buildHomeStats`, frontend/src/lib/home-stats.ts.
use min_demo.Base.{
  ℕ, ◌-◌, ◌*◌, ◌/◌, String, Bool, false, ◌&&◌, Option, none, some, List, [], ◌∷◌, ◌++◌, str_eq, ltb,
  leb, length, take, sort_by, if◌then◌else◌, truthy, ◌<>◌, show_ℕ,
}
use min_demo.Stats.{SfTask, SfHousehold, Insight, Severity, critical, high, medium}
use min_demo.Home.Config.{TriageThresholdConfig}
use min_demo.Home.Wording.{
  Env, days_since, show_days, at_least, more_than, hh_short, when, humanize_subject, epoch, ms_day,
}
use min_demo.Home.Selection.{Book, unsigned_tasks, unreviewed, reviewed_names, high_overdue}

abbrev pub severity_order : Severity → ℕ
severity_order critical = 0
severity_order high = 1
severity_order medium = 2

-- `a > b` of two day counts, false at NaN.
abbrev pub longer : Option ℕ → Option ℕ → Bool
longer none b = false
longer (some a) none = false
longer (some a) (some b) = ltb b a

-- `time(a) < time(b)`.
abbrev pub earlier : Option ℕ → Option ℕ → Bool
earlier none b = false
earlier (some a) none = false
earlier (some a) (some b) = ltb a b

-- `list.reduce((a, b) => better(a, b) ? a : b)` behind the first element.
unfoldable pub reduce_worst {ℓ} : {A : Type ℓ} → (A → A → Bool) → A → List A → A
reduce_worst better a [] = a
reduce_worst better a (b ∷ bs) = reduce_worst better (if better a b then a else b) bs

abbrev pub or_text : String → String → String
or_text s t = if truthy s then s else t

-- The last activity of each household, in the order of insertion; a time may be NaN.
abbrev pub Activity : Type 0
Activity = List (String × Option ℕ)

unfoldable pub set_activity : String → Option ℕ → Activity → Activity
set_activity id t [] = (id, t) ∷ []
set_activity id t ((k, u) ∷ m) = if str_eq k id then (k, t) ∷ m else (k, u) ∷ set_activity id t m

-- `lastActivityByHH.get(id) || 0`.
unfoldable pub activity_of : String → Activity → ℕ
activity_of id [] = epoch
activity_of id ((k, u) ∷ m) =
    if str_eq k id then (elim u [ none ↦ epoch | some t ↦ t ]) else activity_of id m

module _ (v : Env) (cfg : TriageThresholdConfig) (url : String) (b : Book) where
  abbrev pub graded : Bool → Severity → Severity
  graded is_critical other = if is_critical then critical else other

  unfoldable pub unsigned_insight : SfTask → List Insight
  unsigned_insight worst =
      let days = days_since v worst.created_at in
      if at_least days cfg.unsigned_docusign_days
      then record {
        severity = graded (more_than days cfg.unsigned_critical_days) high;
        headline =
            or_text (hh_short worst.household_name) "DocuSign"
            <> (": unsigned for " <> (show_days days <> " days"));
        detail =
            humanize_subject worst.subject worst.household_name
            <> (" has been waiting for a signature since "
                <> (v.format_date worst.created_at <> "."));
        household_id = worst.household_id;
        url = some (url <> ("/" <> worst.id));
        action = some "View envelope";
      }
        ∷ []
      else []

  unfoldable pub unsigned_insights : List SfTask → List Insight
  unsigned_insights [] = []
  unsigned_insights (t ∷ ts) = unsigned_insight (
      reduce_worst
        (λ (x y : SfTask). longer (days_since v x.created_at) (days_since v y.created_at)) t ts)

  unfoldable pub coverage_insights : List Insight
  coverage_insights =
      let all = length b.households in
      let pct = v.percent (length (reviewed_names v b)) all in
      if ltb 0 all && ltb pct cfg.compliance_high_pct
      then record {
        severity = graded (ltb pct cfg.compliance_critical_pct) high;
        headline = "Compliance: " <> (show_ℕ pct <> "% of households reviewed");
        detail =
            show_ℕ (length (unreviewed v b))
            <> (" of "
                <> (show_ℕ all <> " households have never had a compliance review on file."));
        household_id = none;
        url = none;
        action = some "Run reviews";
      }
        ∷ []
      else []

  unfoldable pub created_activity : Activity → List SfHousehold → Activity
  created_activity m [] = m
  created_activity m (h ∷ hs) = created_activity (set_activity h.id (v.time_of h.created_at) m) hs

  -- `if (tTime > prev) lastActivityByHH.set(t.householdId, tTime)`.
  abbrev pub note_task : SfTask → Activity → Activity
  note_task t m = elim (t.household_id) [
    | none ↦ m
    | some id ↦
        if truthy id && earlier (some (activity_of id m)) (v.time_of t.created_at)
        then set_activity id (v.time_of t.created_at) m
        else m
  ]

  unfoldable pub task_activity : Activity → List SfTask → Activity
  task_activity m [] = m
  task_activity m (t ∷ ts) = task_activity (note_task t m) ts

  -- `Math.floor((now - lastMs) / msDay)` where it is more than the days found so far.
  abbrev pub staler : String × Option ℕ → String × ℕ → String × ℕ
  staler (id, none) found = found
  staler (id, some t) (old, days) =
      if ltb days ((v.now - t) / ms_day) then (id, (v.now - t) / ms_day) else (old, days)

  unfoldable pub stalest_from : String × ℕ → Activity → String × ℕ
  stalest_from found [] = found
  stalest_from found (e ∷ m) = stalest_from (staler e found) m

  unfoldable pub stalest : String × ℕ
  stalest = stalest_from ("", 0) (task_activity (created_activity [] b.households) b.tasks)

  unfoldable pub name_of : String → List SfHousehold → Option String
  name_of id [] = none
  name_of id (h ∷ hs) = if str_eq h.id id then some h.name else name_of id hs

  unfoldable pub stale_insights : List Insight
  stale_insights =
      let id = stalest.0 in
      let days = stalest.1 in
      if ltb 0 (length b.households) && leb cfg.stale_household_days days
      then record {
        severity = graded (ltb cfg.stale_critical_days days) medium;
        headline =
            or_text (hh_short (name_of id b.households)) "Household"
            <> (": no activity in " <> (show_ℕ days <> " days"));
        detail =
            "This household hasn't had any task, meeting, or review logged since "
            <> (v.format_date (v.iso (v.now - days * ms_day)) <> ".");
        household_id = some id;
        url = some (url <> ("/" <> id));
        action = some "View family";
      }
        ∷ []
      else []

  unfoldable pub overdue_insight : SfTask → Insight
  overdue_insight worst =
      let days = days_since v worst.due_date in
      let hh = hh_short worst.household_name in
      record {
        severity = graded (more_than days cfg.high_pri_overdue_critical_days) high;
        headline =
            when hh (hh <> ": ") <> ("High-priority task " <> (show_days days <> " days overdue"));
        detail = humanize_subject worst.subject worst.household_name;
        household_id = worst.household_id;
        url = some (url <> ("/" <> worst.id));
        action = some "View task";
      }

  unfoldable pub overdue_insights : List SfTask → List Insight
  overdue_insights [] = []
  overdue_insights (t ∷ ts) =
      overdue_insight (
        reduce_worst (λ (x y : SfTask). earlier (v.time_of x.due_date) (v.time_of y.due_date)) t ts)
      ∷ []

  -- The insights in the order in which they are pushed, and those that are shown.
  unfoldable pub all_insights : List Insight
  all_insights =
      unsigned_insights (unsigned_tasks v b)
      ++ (coverage_insights ++ (stale_insights ++ overdue_insights (high_overdue v b)))

  unfoldable pub top_insights : List Insight
  top_insights = take 3 (sort_by (λ (i : Insight). severity_order i.severity) all_insights)
