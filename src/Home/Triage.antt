-- ===== src/Home/Triage.antt =====
-- The triage queue of `buildHomeStats`, frontend/src/lib/home-stats.ts.
use min_demo.Base.{
  ℕ, ◌+◌, ◌-◌, ◌*◌, ◌/◌, String, Bool, true, false, ◌&&◌, Option, none, some, List, [], ◌∷◌, ◌++◌,
  map, filter, str_eq, ltb, leb, take, sort_by, if◌then◌else◌, truthy, present, ◌<>◌, show_ℕ,
  contains,
}
use min_demo.Stats.{
  SfTask, SfHousehold, TriageItem, TriageSnoozeOption, TriageSource, Urgency, urgent_now, today,
  this_week, TriageCategory, overdue, unsigned, compliance, followup, stale,
}
use min_demo.Home.Config.{TriageThresholdConfig}
use min_demo.Home.Wording.{Env, days_since, show_days, at_least, hh_short, humanize_subject, ms_day}
use min_demo.Home.Selection.{
  Book, open_tasks, unsigned_tasks, unreviewed, high_overdue, normal_overdue, is_due_soon,
}

abbrev pub urgency_order : Urgency → ℕ
urgency_order urgent_now = 0
urgency_order today = 1
urgency_order this_week = 2

abbrev pub is_unsigned_category : TriageCategory → Bool
is_unsigned_category unsigned = true
is_unsigned_category overdue = false
is_unsigned_category compliance = false
is_unsigned_category followup = false
is_unsigned_category stale = false

abbrev pub later : String → TriageSnoozeOption
later label = record { label = label; date = none }

abbrev pub later_on : String → String → TriageSnoozeOption
later_on label date = record { label = label; date = some date }

abbrev pub default_snooze : List TriageSnoozeOption
default_snooze = later "Tomorrow" ∷ later "Next Monday" ∷ later "In 2 weeks" ∷ []

-- `t.householdId === id`.
abbrev pub is_id : Option String → String → Bool
is_id none id = false
is_id (some a) id = str_eq a id

-- A time as a key to sort by. The creation dates of the households are taken to be readable: the
-- order of a sort whose comparison gives NaN is left to the engine.
abbrev pub or_zero : Option ℕ → ℕ
or_zero none = 0
or_zero (some n) = n

module _ (v : Env) (cfg : TriageThresholdConfig) (url : String) (b : Book) where
  -- `computeSnooze` at a due date.
  unfoldable pub snooze_at : Option ℕ → List TriageSnoozeOption
  snooze_at none = default_snooze
  snooze_at (some due) =
      let two_weeks = due - 14 * ms_day in
      let three_days = due - 3 * ms_day in
      if ltb v.now two_weeks
      then later_on ("2 weeks before (" <> (v.short_date two_weeks <> ")")) (v.iso two_weeks)
        ∷ later_on ("3 days before (" <> (v.short_date three_days <> ")")) (v.iso three_days)
        ∷ later "Tomorrow"
        ∷ []
      else default_snooze

  unfoldable pub compute_snooze : SfTask → TriageCategory → List TriageSnoozeOption
  compute_snooze t category =
      if is_id t.household_id "hh-patel" && is_unsigned_category category
      then later "Tomorrow"
        ∷ later_on "Before account submission (Feb 21)" "2026-02-21"
        ∷ later "End of week"
        ∷ []
      else if is_id t.household_id "hh-chen" && contains t.subject "RMD"
      then later_on "2 weeks before deadline (Mar 1)" "2026-03-01"
        ∷ later_on "3 days before deadline (Mar 10)" "2026-03-10"
        ∷ later "Tomorrow"
        ∷ []
      else if truthy t.due_date
      then snooze_at (v.time_of t.due_date)
      else default_snooze

  -- `createdDays <= n`, false at NaN.
  abbrev at_most : Option ℕ → ℕ → Bool
  at_most none n = false
  at_most (some d) n = leb d n

  unfoldable pub make_sources : SfTask → List TriageSource
  make_sources t =
      let days = days_since v t.created_at in
      let created =
        if at_most days 1
        then "today"
        else if at_most days 2
        then "yesterday"
        else v.format_date t.created_at in
      (if contains t.subject "DOCU"
        then record { system = "DocuSign"; timestamp = created; fresh = some (at_most days 3) }
        else record { system = "Salesforce"; timestamp = created; fresh = some (at_most days 7) })
      ∷ (if present t.household_name
          then record {
            system = "CRM (Salesforce)";
            timestamp = hh_short t.household_name;
            fresh = some true;
          }
            ∷ []
          else [])

  -- A triage item of a task; its id is set by its place in the queue.
  unfoldable pub task_item :
      Urgency → TriageCategory → String → String → String → SfTask → TriageItem
  task_item urgency category label reason action t = record {
    id = "";
    urgency = urgency;
    label = label;
    reason = reason;
    url = url <> ("/" <> t.id);
    household_id = t.household_id;
    household_name = t.household_name;
    action = action;
    category = category;
    snooze_options = some (compute_snooze t category);
    sources = some (make_sources t);
  }

  unfoldable pub high_item : SfTask → TriageItem
  high_item t =
      task_item urgent_now overdue (humanize_subject t.subject t.household_name)
        ("High priority · " <> (show_days (days_since v t.due_date) <> "d overdue")) "Complete task"
        t

  unfoldable pub unsigned_item : SfTask → TriageItem
  unsigned_item t =
      task_item urgent_now unsigned (hh_short t.household_name <> ": DocuSign awaiting signature")
        ("Unsigned " <> (show_days (days_since v t.created_at) <> " days")) "Follow up" t

  unfoldable pub normal_item : SfTask → TriageItem
  normal_item t =
      task_item today overdue (humanize_subject t.subject t.household_name)
        (show_days (days_since v t.due_date) <> ("d overdue · " <> hh_short t.household_name))
        "Complete task" t

  unfoldable pub soon_item : SfTask → TriageItem
  soon_item t =
      task_item today followup (humanize_subject t.subject t.household_name)
        ((if v.same_day t.due_date then "Due today · " else "Due tomorrow · ")
          <> hh_short t.household_name)
        "Complete task" t

  -- `Math.floor((now - time) / msDay)`; `none` where it is NaN or negative, which no threshold is
  -- at most.
  abbrev age_days : SfHousehold → Option ℕ
  age_days h = elim (v.time_of h.created_at) [
    | none ↦ none
    | some t ↦ if leb t v.now then some ((v.now - t) / ms_day) else none
  ]

  unfoldable pub review_item : SfHousehold → TriageItem
  review_item h =
      let days = show_days (age_days h) in
      record {
        id = "";
        urgency = this_week;
        label = hh_short (some h.name) <> ": no compliance review";
        reason = "Client for " <> (days <> "d · never reviewed");
        url = url <> ("/" <> h.id);
        household_id = some h.id;
        household_name = some h.name;
        action = "Run review";
        category = compliance;
        snooze_options = some default_snooze;
        sources = some (
            record {
              system = "CRM (Salesforce)";
              timestamp = "client for " <> (days <> "d");
              fresh = some false;
            }
            ∷ []);
      }

  unfoldable pub stale_signatures : List SfTask
  stale_signatures = take 2 (
      filter (λ (t : SfTask). at_least (days_since v t.created_at) cfg.unsigned_docusign_days)
        (unsigned_tasks v b))

  unfoldable pub due_soon : List SfTask
  due_soon = take 2 (filter (is_due_soon v cfg.due_soon_days) (open_tasks v b))

  -- The two households that were created first of those without a review.
  unfoldable pub oldest_unreviewed : List SfHousehold
  oldest_unreviewed =
      filter (λ (h : SfHousehold). at_least (age_days h) cfg.compliance_unreviewed_days)
        (take 2 (sort_by (λ (h : SfHousehold). or_zero (v.time_of h.created_at)) (unreviewed v b)))

  -- The items in the order in which they are pushed.
  unfoldable pub pushed : List TriageItem
  pushed =
      map high_item (take 3 (high_overdue v b))
      ++ (map unsigned_item stale_signatures
          ++ (map normal_item (take 3 (normal_overdue v b))
              ++ (map soon_item due_soon ++ map review_item oldest_unreviewed)))

-- `id: \`triage-${triageIdx++}\``.
unfoldable pub number_from : ℕ → List TriageItem → List TriageItem
number_from n [] = []
number_from n (i ∷ is) = record i { id = "triage-" <> show_ℕ n } ∷ number_from (n + 1) is

module _ (v : Env) (cfg : TriageThresholdConfig) (url : String) (b : Book) where
  unfoldable pub triage_queue : List TriageItem
  triage_queue = number_from 0 (pushed v cfg url b)

  unfoldable pub top_triage : List TriageItem
  top_triage =
      take cfg.triage_cap (sort_by (λ (i : TriageItem). urgency_order i.urgency) triage_queue)
