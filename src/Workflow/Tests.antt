-- ===== src/Workflow/Tests.antt =====
-- The workflow engine at concrete inputs.
use min_demo.Base.{arith, sym, ap, Option, ◌≡◌, refl, units, none, some, [], ◌∷◌, true, ◌++◌}
use min_demo.Workflow.{
  household_created, Clock, BatchReply, Crm, WorkflowTask, Summary, not_started, normal, step_id_in,
  existing_ids, task_ids, belongs_text, pending_steps, new_tasks, created_tasks, matches, task_of,
  description_of, set_of,
}
use min_demo.Workflow.Engine.{
  fire_workflow_trigger, fire_all, fire_template, is_complete, skip, after_batch,
}
use mathlib.Core.List.{Memᴰ}
use Prim.Native.Nat.{◌≤◌}
use min_demo.Workflow.Templates.{onboarding}
use min_demo.Workflow.Counting.{count_step, count_id}
use min_demo.Workflow.Once.{Call, after_calls, one_task_per_step}
use min_demo.Workflow.Adding.{IsSteady}
use min_demo.Workflow.Twice.{IsQuiet, fire_twice}

abbrev monday : Clock
monday = record {
  now_iso = units "2026-03-02T09:00:00.000Z";
  due_iso = λ days. units "2026-03-02 and " ++ units "days";
}

abbrev willing : Crm
willing = record {
  answers = λ store. true;
  batch = λ store. some record { refusal = λ task. none; repeated = [] };
}

abbrev by_hand : WorkflowTask
by_hand = record {
  subject = "WORKFLOW — Send welcome package — Smith Household";
  status = not_started;
  priority = normal;
  due_date = none;
  description = some (units "WORKFLOW_ID:new-client-onboarding STEP:nco-1-welcome");
}

step_id_in-by_hand :
    step_id_in (units "WORKFLOW_ID:new-client-onboarding STEP:nco-1-welcome")
    ≡ some (units "nco-1-welcome")
unfolding step_id_in
step_id_in-by_hand = refl

fire_twice_example :
    ((sum : Summary) × ((fire_workflow_trigger monday "Smith Household" willing household_created
          none
          (by_hand ∷ [])).summary
        ≡ some sum))
    × IsQuiet
        (fire_workflow_trigger monday "Smith" willing household_created none
          (fire_workflow_trigger monday "Smith Household" willing household_created none
            (by_hand ∷ [])).store)
        (fire_workflow_trigger monday "Smith Household" willing household_created none
          (by_hand ∷ [])).store
fire_twice_example =
    fire_twice monday monday "Smith Household" "Smith" willing willing household_created none
      (by_hand ∷ []) (λ s. refl, λ s. ([], refl)) (λ s. refl)

abbrev failing : Crm
failing = record {
  answers = λ store. true;
  batch = λ store. some record { refusal = λ task. some "DUPLICATE"; repeated = [] };
}

willing-IsSteady : IsSteady willing
willing-IsSteady store reply e =
    sym (ap (λ (r : Option BatchReply). elim r [ none ↦ [] | some b ↦ b.repeated ]) e)

failing-IsSteady : IsSteady failing
failing-IsSteady store reply e =
    sym (ap (λ (r : Option BatchReply). elim r [ none ↦ [] | some b ↦ b.repeated ]) e)

abbrev call_of : Crm → Call
call_of crm = record {
  clock = monday;
  household_name = "Smith Household";
  crm = crm;
  event = household_created;
  given = none;
}

one_task_per_step_example :
    count_step onboarding
      (units "nco-1-welcome")
      (after_calls (call_of failing ∷ call_of willing ∷ call_of willing ∷ []) (by_hand ∷ []))
    ≤ 1
unfolding existing_ids task_ids step_id_in belongs_text count_id
one_task_per_step_example =
    one_task_per_step onboarding (units "nco-1-welcome")
      (call_of failing ∷ call_of willing ∷ call_of willing ∷ []) (by_hand ∷ [])
      (failing-IsSteady, (willing-IsSteady, (willing-IsSteady, tt))) (Memᴰ.head refl) (omega arith)

-- The composite call is interrupted when the CRM has created the first task, and the fallback creates
-- it again.
abbrev repeating : Crm
repeating = record {
  answers = λ store. true;
  batch = λ store. some record { refusal = λ task. none; repeated = by_hand ∷ [] };
}

twice_by_fallback :
    count_step onboarding
      (units "nco-1-welcome")
      (fire_workflow_trigger monday "Smith Household" repeating household_created none []).store
    ≡ 2
unfolding existing_ids task_ids step_id_in belongs_text count_id fire_workflow_trigger fire_all
    fire_template is_complete pending_steps new_tasks skip after_batch created_tasks matches task_of
    description_of set_of
twice_by_fallback = refl
