-- ===== src/Stats.antt =====
-- The record shapes of frontend/src/lib/home-stats.ts. `insights` and `triageItems` are carried
-- whole by the application state; the computation of the figures is not part of this file.
use min_demo.Base.{ℕ, String, Bool, Option, List}

pub record StatDetailItem : Type 0 where
  pub label : String
  pub sub : String
  pub url : String
  pub household_id : Option String
  pub household_name : Option String
  pub priority : Option String
  pub due : Option String
  pub item_type : Option String
  pub days_outstanding : Option ℕ

pub data Severity : Type 0 where
  critical high medium : Severity

pub record Insight : Type 0 where
  pub severity : Severity
  pub headline : String
  pub detail : String
  pub household_id : Option String
  pub url : Option String
  pub action : Option String

pub record TriageSnoozeOption : Type 0 where
  pub label : String
  pub date : Option String

pub record TriageSource : Type 0 where
  pub system : String
  pub timestamp : String
  pub fresh : Option Bool

pub data Urgency : Type 0 where
  urgent_now today this_week : Urgency

pub data TriageCategory : Type 0 where
  overdue unsigned compliance followup stale : TriageCategory

pub record TriageItem : Type 0 where
  pub id : String
  pub urgency : Urgency
  pub label : String
  pub reason : String
  pub url : String
  pub household_id : Option String
  pub household_name : Option String
  pub action : String
  pub category : TriageCategory
  pub snooze_options : Option (List TriageSnoozeOption)
  pub sources : Option (List TriageSource)

pub record RecentItem : Type 0 where
  pub subject : String
  pub household : String
  pub url : String
  pub item_type : String
  pub household_id : Option String
  pub household_name : Option String

pub record HomeStats : Type 0 where
  pub overdue_tasks : ℕ
  pub open_tasks : ℕ
  pub ready_for_review : ℕ
  pub unsigned_envelopes : ℕ
  pub upcoming_meetings : ℕ
  pub overdue_task_items : List StatDetailItem
  pub open_task_items : List StatDetailItem
  pub ready_for_review_items : List StatDetailItem
  pub unsigned_items : List StatDetailItem
  pub upcoming_meeting_items : List StatDetailItem
  pub recent_items : List RecentItem
  pub insights : List Insight
  pub triage_items : List TriageItem

pub record SfTask : Type 0 where
  pub id : String
  pub subject : String
  pub status : String
  pub priority : String
  pub created_at : String
  pub due_date : String
  pub household_name : Option String
  pub household_id : Option String
  pub description : Option String

pub record SfHousehold : Type 0 where
  pub id : String
  pub name : String
  pub created_at : String
  pub description : Option String
