-- ===== src/Home/Scope.antt =====
-- Whose households the figures of frontend/src/lib/home-stats.ts show where they are filtered by an
-- advisor.
use min_demo.Base.{◌≡◌, String, List, All}
use min_demo.Stats.{SfTask, SfHousehold, TriageItem, StatDetailItem, RecentItem, HomeStats, Insight}
use min_demo.Home.Wording.{Env}
use min_demo.Home.Build.{unsigned_to_item, meeting_to_item}
use min_demo.Home.Belongs.{Belongs, TaskOf, HouseholdOf, BelongsIfAny}

module _ (advisor : String) (households : List SfHousehold) where
  abbrev TaskMine : SfTask → Type 0
  TaskMine t = TaskOf advisor households t

  abbrev HouseholdMine : SfHousehold → Type 0
  HouseholdMine h = HouseholdOf advisor households h

  abbrev ItemMine : TriageItem → Type 0
  ItemMine i = Belongs advisor households i.household_id

  abbrev DetailMine : StatDetailItem → Type 0
  DetailMine i = Belongs advisor households i.household_id

  abbrev RecentMine : RecentItem → Type 0
  RecentMine i = Belongs advisor households i.household_id

-- Every entry that names a household names one of the advisor's. The lists of unsigned envelopes and
-- of meetings do not name one: their entries are those of tasks of the book.
pub record IsScoped (v : Env) (url advisor : String) (households : List SfHousehold)
    (stats : HomeStats) : Type 0 where
  pub triage :
      All (λ (i : TriageItem). Belongs advisor households i.household_id) stats.triage_items
  pub overdue :
      All
        (λ (i : StatDetailItem). Belongs advisor households i.household_id)
        stats.overdue_task_items
  pub open_items :
      All (λ (i : StatDetailItem). Belongs advisor households i.household_id) stats.open_task_items
  pub ready :
      All
        (λ (i : StatDetailItem). Belongs advisor households i.household_id)
        stats.ready_for_review_items
  pub recent :
      All (λ (i : RecentItem). Belongs advisor households i.household_id) stats.recent_items
  pub unsigned :
      All
        (λ (i : StatDetailItem).
          (t : SfTask) × TaskOf advisor households t × (i ≡ unsigned_to_item v url t))
        stats.unsigned_items
  pub meetings :
      All
        (λ (i : StatDetailItem).
          (t : SfTask) × TaskOf advisor households t × (i ≡ meeting_to_item v url t))
        stats.upcoming_meeting_items
  pub insights :
      All (λ (i : Insight). BelongsIfAny advisor households i.household_id) stats.insights
