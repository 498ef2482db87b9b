-- ===== src/Workflow.antt =====
-- The workflow engine of frontend/src/lib/workflows.ts: its types, what it writes into a task and
-- reads back, and `fireWorkflowTrigger`. The templates and the proofs are in the children.
pub mod Templates
pub mod Stamp
pub mod Engine
pub mod Firing
pub mod Marks
pub mod Twice
pub mod Counting
pub mod Adding
pub mod Once
mod Tests
use min_demo.Base.{
  ℕ, ◌+◌, ◌-◌, String, Bool, true, false, not, ◌&&◌, ◌||◌, Option, none, some, List, [], ◌∷◌, ◌++◌,
  map, Text, units, has_prefix, includes, take_word, text_eq, if◌then◌else◌, filter, any, length,
  drop, leb, ltb, ◌==◌, get_or_else, ◌<>◌,
}

pub data TriggerEvent : Type 0 where
  household_created docusign_sent docusign_completed compliance_reviewed : TriggerEvent
  meeting_completed task_completed scheduled : TriggerEvent

pub data Priority : Type 0 where
  high normal low : Priority

pub data StepStatus : Type 0 where
  not_started in_progress : StepStatus

pub data ConditionType : Type 0 where
  task_exists task_missing days_since_created : ConditionType

pub record StepCondition : Type 0 where
  pub cond_type : ConditionType
  pub subject_contains : Option String
  pub min_days : Option ℕ

pub record WorkflowStep : Type 0 where
  pub id : String
  pub label : String
  pub task_subject : String
  pub task_description : Option String
  pub task_priority : Option Priority
  pub task_status : Option StepStatus
  pub delay_days : ℕ
  pub condition : Option StepCondition

pub record WorkflowTemplate : Type 0 where
  pub id : String
  pub name : String
  pub description : String
  pub trigger : TriggerEvent
  pub trigger_subject_contains : Option String
  pub steps : List WorkflowStep
  pub is_enabled : Bool

-- A task of one household in the CRM, and a task to create there.
pub record WorkflowTask : Type 0 where
  pub subject : String
  pub status : StepStatus
  pub priority : Priority
  pub due_date : Option Text
  pub description : Option Text

-- A text in units of UTF-16 with a line break behind it.
abbrev line : Text → Text
line s = s ++ 10 ∷ []

abbrev pub workflow_mark : Text
workflow_mark = units "WORKFLOW_ID:"

abbrev pub step_mark : Text
step_mark = units "STEP:"

-- The time of the call, and the date some days after it, as `toISOString` writes them.
pub record Clock : Type 0 where
  pub now_iso : Text
  pub due_iso : ℕ → Text

abbrev due_line : Option Text → Text
due_line none = []
due_line (some due) = line (units "Due: " ++ due)

-- What stands behind the first line of a description.
abbrev details : Clock → WorkflowTemplate → WorkflowStep → Option Text → Text
details clock t step due =
    line (units (get_or_else step.task_description ""))
    ++ (line []
        ++ (line (units "Workflow: " ++ units t.name)
            ++ (line (units "Step: " ++ units step.label)
                ++ (due_line due ++ (units "Triggered: " ++ clock.now_iso)))))

unfoldable pub description_of : Clock → WorkflowTemplate → WorkflowStep → Option Text → Text
description_of clock t step due =
    workflow_mark
    ++ (units t.id ++ (b' ' ∷ (step_mark ++ (units step.id ++ 10 ∷ details clock t step due))))

unfoldable pub task_of :
    Clock → String → WorkflowTemplate → Option Text → WorkflowStep → WorkflowTask
task_of clock household_name t due step = record {
  subject = step.task_subject <> (" — " <> household_name);
  status = get_or_else step.task_status not_started;
  priority = get_or_else step.task_priority normal;
  due_date = due;
  description = some (description_of clock t step due);
}

-- `description.match(/STEP:(\S+)/)`: the first place of the mark with a word behind it.
abbrev word_at : Text → Text
word_at s = if has_prefix step_mark s then take_word (drop 5 s) else []

abbrev first_word : Text → Option Text → Option Text
first_word [] later = later
first_word (c ∷ w) later = some (c ∷ w)

unfoldable pub step_id_in : Text → Option Text
step_id_in [] = none
step_id_in (c ∷ s) = first_word (word_at (c ∷ s)) (step_id_in s)

unfoldable pub belongs_text : WorkflowTemplate → Option Text → Bool
belongs_text t none = false
belongs_text t (some d) = has_prefix (workflow_mark ++ units t.id) d

abbrev pub belongs : WorkflowTemplate → WorkflowTask → Bool
belongs t task = belongs_text t task.description

abbrev ids_in : Option Text → List Text
ids_in none = []
ids_in (some w) = w ∷ []

-- The step id of one of the template's tasks; a task without a mark gives none.
unfoldable pub task_ids : WorkflowTemplate → WorkflowTask → List Text
task_ids t task =
    if belongs t task then ids_in (step_id_in (get_or_else task.description [])) else []

unfoldable pub existing_ids : WorkflowTemplate → List WorkflowTask → List Text
existing_ids t [] = []
existing_ids t (task ∷ store) = task_ids t task ++ existing_ids t store

abbrev pub has_id : Text → List Text → Bool
has_id w ids = any (text_eq w) ids

-- `new Set(ids)`, with the ids added one by one to those that are in it.
unfoldable pub set_of : List Text → List Text → List Text
set_of seen [] = seen
set_of seen (w ∷ ids) = set_of (if has_id w seen then seen else seen ++ w ∷ []) ids

unfoldable pub pending_steps : WorkflowTemplate → List WorkflowTask → List WorkflowStep
pending_steps t store =
    filter (λ (step : WorkflowStep). not (has_id (units step.id) (existing_ids t store))) t.steps

abbrev pub is_immediate : WorkflowStep → Bool
is_immediate step = step.delay_days == 0

abbrev pub is_scheduled : WorkflowStep → Bool
is_scheduled step = ltb 0 step.delay_days

abbrev pub scheduled_task : Clock → String → WorkflowTemplate → WorkflowStep → WorkflowTask
scheduled_task clock household_name t step =
    task_of clock household_name t (some (clock.due_iso step.delay_days)) step

-- The immediate tasks, then the scheduled ones.
unfoldable pub new_tasks : Clock → String → WorkflowTemplate → List WorkflowStep → List WorkflowTask
new_tasks clock household_name t steps =
    map (task_of clock household_name t none) (filter is_immediate steps)
    ++ map (scheduled_task clock household_name t) (filter is_scheduled steps)

-- What `createTasksBatch` of a few tasks leaves: each task is created (`none`) or refused with a
-- message, and the tasks of `repeated` are in the CRM beside those, which is what the fallback behind
-- an interrupted call makes of tasks that were created before the interruption.
pub record BatchReply : Type 0 where
  pub refusal : WorkflowTask → Option String
  pub repeated : List WorkflowTask

-- What the CRM and its client do: whether the query for the household's tasks is answered, and what
-- becomes of a batch. An answer gives all of the tasks: a household is taken to have no more than the
-- 100 workflow tasks that the adapter asks for. `batch` is `none` where the call throws, which
-- `createTasksBatch` does at an id that is not valid, before it creates anything.
pub record Crm : Type 0 where
  pub answers : List WorkflowTask → Bool
  pub batch : List WorkflowTask → Option BatchReply

pub record Summary : Type 0 where
  pub triggered : List String
  pub tasks_created : ℕ
  pub skipped_steps : ℕ
  pub errors : List String

abbrev pub no_summary : Summary
no_summary = record { triggered = []; tasks_created = 0; skipped_steps = 0; errors = [] }

-- The summary, `none` where a call has thrown, and the household's tasks in the CRM.
pub record Fired : Type 0 where
  pub summary : Option Summary
  pub store : List WorkflowTask

abbrev pub is_created : Option String → Bool
is_created none = true
is_created (some message) = false

abbrev messages_of : Option String → List String
messages_of none = []
messages_of (some message) = message ∷ []

unfoldable pub refusals : (WorkflowTask → Option String) → List WorkflowTask → List String
refusals refusal [] = []
refusals refusal (task ∷ tasks) = messages_of (refusal task) ++ refusals refusal tasks

unfoldable pub created_tasks :
    (WorkflowTask → Option String) → List WorkflowTask → List WorkflowTask
created_tasks refusal tasks = filter (λ task. is_created (refusal task)) tasks

abbrev same_event : TriggerEvent → TriggerEvent → Bool
same_event household_created household_created = true
same_event docusign_sent docusign_sent = true
same_event docusign_completed docusign_completed = true
same_event compliance_reviewed compliance_reviewed = true
same_event meeting_completed meeting_completed = true
same_event task_completed task_completed = true
same_event scheduled scheduled = true
same_event _ _ = false

abbrev subject_ok : Option String → Option String → Bool
subject_ok none given = true
subject_ok (some wanted) none = text_eq (units wanted) []
subject_ok (some wanted) (some given) =
    text_eq (units wanted) [] || includes (units wanted) (units given)

-- The templates of an event.
unfoldable pub matches : TriggerEvent → Option String → WorkflowTemplate → Bool
matches event given t =
    t.is_enabled && (same_event t.trigger event && subject_ok t.trigger_subject_contains given)
