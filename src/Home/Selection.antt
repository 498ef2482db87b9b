-- ===== src/Home/Selection.antt =====
-- The lists that `buildHomeStats` of frontend/src/lib/home-stats.ts filters out of the tasks and
-- households before it words anything.
use min_demo.Base.{
  ℕ, ◌+◌, ◌*◌, String, Bool, false, not, ◌&&◌, Option, none, some, List, [], ◌∷◌, ◌++◌, map, filter,
  any, str_eq, ltb, leb, if◌then◌else◌, truthy,
}
use min_demo.Stats.{SfTask, SfHousehold}
use min_demo.Home.Subjects.{is_compliance_review, is_meeting_note, is_docusign_send}
use min_demo.Home.Wording.{Env, get_household_advisor, ms_day}

abbrev pub member : String → List String → Bool
member x xs = any (str_eq x) xs

-- `getHouseholdAdvisor(h.description) === filterAdvisor`.
unfoldable pub advised_by : String → SfHousehold → Bool
advised_by advisor h = elim (get_household_advisor h.description) [
  | none ↦ false
  | some a ↦ str_eq a advisor
]

-- The ids of an advisor's households.
unfoldable pub advisor_ids : String → List SfHousehold → List String
advisor_ids advisor households =
    map (λ (h : SfHousehold). h.id) (filter (advised_by advisor) households)

-- `t.householdId && advisorHHIds.has(t.householdId)`.
abbrev pub in_book : List String → Option String → Bool
in_book ids none = false
in_book ids (some id) = truthy id && member id ids

unfoldable pub filtered_households : Option String → List SfHousehold → List SfHousehold
filtered_households none households = households
filtered_households (some advisor) households =
    if truthy advisor
    then filter (λ (h : SfHousehold). member h.id (advisor_ids advisor households)) households
    else households

unfoldable pub filtered_tasks : Option String → List SfHousehold → List SfTask → List SfTask
filtered_tasks none households tasks = tasks
filtered_tasks (some advisor) households tasks =
    if truthy advisor
    then filter (λ (t : SfTask). in_book (advisor_ids advisor households) t.household_id) tasks
    else tasks

abbrev pub is_completed : SfTask → Bool
is_completed t = str_eq t.status "Completed"

abbrev pub is_high : SfTask → Bool
is_high t = str_eq t.priority "High"

-- A comparison with NaN is false.
abbrev pub before : Option ℕ → ℕ → Bool
before none n = false
before (some t) n = ltb t n

unfoldable pub is_overdue : Env → SfTask → Bool
is_overdue v t = truthy t.due_date && before (v.time_of t.due_date) v.now

-- `daysUntil >= 0 && daysUntil <= cfg.dueSoonDays`, multiplied out.
abbrev pub within_days : ℕ → ℕ → Option ℕ → Bool
within_days now days none = false
within_days now days (some t) = leb now t && leb t (now + days * ms_day)

unfoldable pub is_due_soon : Env → ℕ → SfTask → Bool
is_due_soon v days t = truthy t.due_date && within_days v.now days (v.time_of t.due_date)

-- `(now - t) / msDay <= 7`.
abbrev pub not_older : ℕ → Option ℕ → Bool
not_older now none = false
not_older now (some t) = leb now (t + 7 * ms_day)

unfoldable pub this_week : Env → SfTask → Bool
this_week v t = not_older v.now (v.time_of t.created_at)

unfoldable pub is_unsigned : SfTask → Bool
is_unsigned t = str_eq t.status "Not Started" && is_docusign_send t.subject

-- `reviewed.add(name)` of a set in the order of insertion.
abbrev pub add_name : Option String → List String → List String
add_name none names = names
add_name (some n) names =
    if truthy n then (if member n names then names else names ++ n ∷ []) else names

unfoldable pub reviewed_from : List String → List SfTask → List String
reviewed_from names [] = names
reviewed_from names (t ∷ ts) = reviewed_from (add_name t.household_name names) ts

-- What the filters select, all of one scope.
pub record Book : Type 0 where
  pub households : List SfHousehold
  pub tasks : List SfTask

unfoldable pub book_of : Option String → List SfHousehold → List SfTask → Book
book_of advisor households tasks = record {
  households = filtered_households advisor households;
  tasks = filtered_tasks advisor households tasks;
}

module _ (v : Env) (b : Book) where
  unfoldable pub open_tasks : List SfTask
  open_tasks = filter (λ (t : SfTask). not (is_completed t)) b.tasks

  unfoldable pub completed_tasks : List SfTask
  completed_tasks = filter is_completed b.tasks

  unfoldable pub overdue_tasks : List SfTask
  overdue_tasks = filter (is_overdue v) open_tasks

  unfoldable pub unsigned_tasks : List SfTask
  unsigned_tasks = filter is_unsigned b.tasks

  unfoldable pub recent_meetings : List SfTask
  recent_meetings =
      filter (this_week v) (filter (λ (t : SfTask). is_meeting_note t.subject) b.tasks)

  unfoldable pub reviewed_names : List String
  reviewed_names =
      reviewed_from [] (filter (λ (t : SfTask). is_compliance_review t.subject) b.tasks)

  unfoldable pub unreviewed : List SfHousehold
  unreviewed = filter (λ (h : SfHousehold). not (member h.name reviewed_names)) b.households

  unfoldable pub high_overdue : List SfTask
  high_overdue = filter is_high overdue_tasks

  unfoldable pub normal_overdue : List SfTask
  normal_overdue = filter (λ (t : SfTask). not (is_high t)) overdue_tasks
