-- ===== src/Home/Tests.antt =====
-- Concrete inputs for `buildHomeStats` and its helpers.
use min_demo.Base.{
  ℕ, ◌≡◌, refl, ◌+◌, ◌/◌, ◌*◌, String, false, Option, none, some, List, [], ◌∷◌, length, map, trim,
  behind, replace_first, IsTop, sort_by, show_ℕ, str_eq, if◌then◌else◌,
}
use min_demo.Stats.{SfTask, SfHousehold, TriageItem}
use min_demo.Home.Subjects.{classify_task, compliance, is_docusign_send, is_compliance_review}
use min_demo.Home.Config.{default_triage_config}
use min_demo.Home.Wording.{
  Env, epoch, ms_day, humanize_subject, describe_activity, hh_short, docusign_rest,
  get_household_advisor, find_advisor, advisor_behind, take_line, behind_label, days_since,
}
use min_demo.Home.Selection.{
  book_of, completed_tasks, high_overdue, normal_overdue, overdue_tasks, open_tasks, unsigned_tasks,
  unreviewed, reviewed_names, reviewed_from, is_unsigned, is_overdue, is_due_soon, advisor_ids,
  advised_by, filtered_tasks, filtered_households,
}
use min_demo.Home.Insights.{all_insights}
use min_demo.Home.Triage.{
  triage_queue, top_triage, number_from, pushed, stale_signatures, due_soon, oldest_unreviewed,
  high_item, unsigned_item, normal_item, soon_item, review_item, task_item,
}
use min_demo.Home.Build.{build_home_stats, stats_of}
use min_demo.Home.Order.{urgency_rank, severity_rank, build_home_stats-IsTop}
use min_demo.Home.Counts.{IsConsistent, build_home_stats-IsConsistent}

classified : classify_task (λ s. s) "COMPLIANCE REVIEW PASSED — Smith" ≡ compliance
unfolding classify_task
classified = refl

humanized :
    humanize_subject "SEND DOCU — Smith IRA" (some "Smith Household") ≡ "DocuSign: Smith Smith IRA"
unfolding humanize_subject hh_short docusign_rest trim behind replace_first
humanized = refl

described :
    describe_activity (λ s. s) "MEETING NOTE — Jones" (some "Jones Household")
    ≡ "Jones: Meeting notes recorded"
unfolding describe_activity humanize_subject hh_short docusign_rest trim behind replace_first
described = refl

advisor_found :
    get_household_advisor (some "Intro\nassigned advisor:  Ann Lee \nmore") ≡ some "Ann Lee"
unfolding get_household_advisor find_advisor advisor_behind take_line behind_label trim
advisor_found = refl

-- Day 100 since 1970; a date is the number of its day, of one digit, in tens.
abbrev day : String → Option ℕ
day d =
    if str_eq d "D99"
    then some (epoch + 99 * ms_day)
    else if str_eq d "D50"
    then some (epoch + 50 * ms_day)
    else none

abbrev world : Env
world = record {
  now = epoch + 100 * ms_day;
  time_of = day;
  format_date = λ d. d;
  iso = λ t. "";
  short_date = λ t. "";
  same_day = λ d. false;
  percent = λ a b. a * 100 / b;
  upper = λ s. s;
}

abbrev smith : SfHousehold
smith = record {
  id = "h1";
  name = "Smith Household";
  created_at = "D50";
  description = some "Assigned Advisor: Ann Lee";
}

abbrev jones : SfHousehold
jones = record { id = "h2"; name = "Jones Household"; created_at = "D50"; description = none }

abbrev task_for : String → String → String → String → SfTask
task_for id subject priority household = record {
  id = id;
  subject = subject;
  status = "Not Started";
  priority = priority;
  created_at = "D50";
  due_date = "D99";
  household_name = none;
  household_id = some household;
  description = none;
}

abbrev some_tasks : List SfTask
some_tasks =
    task_for "t1" "Call" "Normal" "h1"
    ∷ task_for "t2" "RMD" "High" "h1"
    ∷ task_for "t3" "SEND DOCU — IRA" "Normal" "h1"
    ∷ task_for "t4" "Call" "High" "h2"
    ∷ []

abbrev homes : List SfHousehold
homes = smith ∷ jones ∷ []

anns_queue : List String
unfolding build_home_stats stats_of book_of top_triage triage_queue number_from pushed
    stale_signatures due_soon oldest_unreviewed high_overdue normal_overdue overdue_tasks open_tasks
    unsigned_tasks unreviewed reviewed_names reviewed_from is_unsigned is_docusign_send is_overdue
    is_due_soon advisor_ids advised_by filtered_tasks filtered_households get_household_advisor
    find_advisor advisor_behind take_line behind_label trim high_item unsigned_item normal_item
    soon_item review_item task_item humanize_subject hh_short docusign_rest replace_first behind
    show_ℕ days_since sort_by is_compliance_review
anns_queue =
    map (λ (i : TriageItem). i.label)
      (build_home_stats world some_tasks homes "https://sf" (some "Ann Lee") none).triage_items

queue_shown :
    anns_queue
    ≡ "RMD" ∷ ": DocuSign awaiting signature" ∷ "Call" ∷ "DocuSign: IRA"
      ∷ "Smith: no compliance review" ∷ []
unfolding anns_queue
queue_shown = refl

build_home_stats-IsTop_example :
    IsTop urgency_rank 7
      (triage_queue world default_triage_config "https://sf"
        (book_of (some "Ann Lee") homes some_tasks))
      (build_home_stats world some_tasks homes "https://sf" (some "Ann Lee") none).triage_items
    × IsTop severity_rank 3
        (all_insights world default_triage_config "https://sf"
          (book_of (some "Ann Lee") homes some_tasks))
        (build_home_stats world some_tasks homes "https://sf" (some "Ann Lee") none).insights
build_home_stats-IsTop_example =
    build_home_stats-IsTop world some_tasks homes "https://sf" (some "Ann Lee") none

build_home_stats-IsConsistent_example :
    IsConsistent world "https://sf"
      (book_of (some "Ann Lee") homes some_tasks)
      (length (completed_tasks world (book_of (some "Ann Lee") homes some_tasks)))
      (build_home_stats world some_tasks homes "https://sf" (some "Ann Lee") none)
build_home_stats-IsConsistent_example =
    build_home_stats-IsConsistent world some_tasks homes "https://sf" (some "Ann Lee") none
