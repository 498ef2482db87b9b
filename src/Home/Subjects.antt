-- ===== src/Home/Subjects.antt =====
-- The task subjects of frontend/src/lib/task-subjects.ts. `toUpperCase` of the language is the
-- parameter `upper`.
use min_demo.Base.{String, Bool, ◌&&◌, ◌||◌, if◌then◌else◌, contains, truthy, has_prefix, units}

abbrev pub compliance_review : String
compliance_review = "COMPLIANCE REVIEW"

abbrev pub meeting_note : String
meeting_note = "MEETING NOTE"

abbrev pub docusign_send : String
docusign_send = "SEND DOCU"

abbrev pub follow_up : String
follow_up = "FOLLOW-UP"

abbrev pub goal_prefix : String
goal_prefix = "GOAL:"

abbrev pub paperwork : String
paperwork = "Paperwork generated"

pub data TaskType : Type 0 where
  compliance meeting docusign followup goal task : TaskType

unfoldable pub classify_task : (String → String) → String → TaskType
classify_task upper subject =
    let s = upper subject in
    if truthy subject
    then if contains s compliance_review
      then compliance
      else if contains s docusign_send || contains s "DOCUSIGN"
      then docusign
      else if contains s meeting_note
      then meeting
      else if contains s follow_up
      then followup
      else if has_prefix (units goal_prefix) (units s)
      then goal
      else task
    else task

unfoldable pub is_compliance_review : String → Bool
is_compliance_review subject = contains subject compliance_review

unfoldable pub is_meeting_note : String → Bool
is_meeting_note subject = contains subject meeting_note

unfoldable pub is_docusign_send : String → Bool
is_docusign_send subject =
    truthy subject && (contains subject docusign_send || contains subject "DocuSign")

unfoldable pub is_follow_up : String → Bool
is_follow_up subject = contains subject follow_up

unfoldable pub is_goal : String → Bool
is_goal subject =
    truthy subject
    && (contains subject goal_prefix || (contains subject "PLAN:" || contains subject "MILESTONE:"))

unfoldable pub is_paperwork : String → Bool
is_paperwork subject = contains subject paperwork

-- `TASK_TYPE_LABELS`, and the type as the source spells it.
abbrev pub task_type_label : TaskType → String
task_type_label compliance = "Compliance"
task_type_label meeting = "Meeting"
task_type_label docusign = "DocuSign"
task_type_label followup = "Follow-up"
task_type_label goal = "Goal"
task_type_label task = "General"

abbrev pub task_type_text : TaskType → String
task_type_text compliance = "compliance"
task_type_text meeting = "meeting"
task_type_text docusign = "docusign"
task_type_text followup = "followup"
task_type_text goal = "goal"
task_type_text task = "task"
