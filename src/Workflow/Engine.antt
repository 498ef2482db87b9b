-- ===== src/Workflow/Engine.antt =====
-- `fireWorkflowTrigger` of frontend/src/lib/workflows.ts: one template, and the loop over the
-- templates of an event.
use min_demo.Base.{
  ◌+◌, ◌-◌, String, Bool, not, ◌&&◌, Option, none, some, List, [], ◌∷◌, ◌++◌, if◌then◌else◌, filter,
  length, leb, str_eq, any,
}
use min_demo.Workflow.{
  TriggerEvent, WorkflowTemplate, WorkflowTask, Clock, BatchReply, Crm, Summary, no_summary, Fired,
  belongs, existing_ids, set_of, pending_steps, new_tasks, refusals, created_tasks, matches,
}
use min_demo.Workflow.Templates.{workflow_templates}

-- "If ALL steps already exist", but for one template.
unfoldable pub is_complete : WorkflowTemplate → List WorkflowTask → Bool
is_complete t store =
    any (belongs t) store
    && (leb (length t.steps) (length (set_of [] (existing_ids t store)))
        && not (str_eq t.id "document-expiration"))

unfoldable pub skip : WorkflowTemplate → List WorkflowTask → Summary → Summary
skip t store sum = record sum {
  skipped_steps = sum.skipped_steps + (length t.steps - length (pending_steps t store));
}

-- A batch that the CRM has answered, or has not.
unfoldable pub after_batch :
    WorkflowTemplate → List WorkflowTask → List WorkflowTask → Summary → Option BatchReply → Fired
after_batch t tasks store sum none = record { summary = none; store = store }
after_batch t tasks store sum (some reply) = record {
  summary = some (record sum {
    triggered = sum.triggered ++ t.name ∷ [];
    tasks_created = sum.tasks_created + length (created_tasks reply.refusal tasks);
    errors = sum.errors ++ refusals reply.refusal tasks;
  });
  store = store ++ (created_tasks reply.refusal tasks ++ reply.repeated);
}

abbrev pub send : Crm → WorkflowTemplate → List WorkflowTask → List WorkflowTask → Summary → Fired
send crm t [] store sum = record { summary = some sum; store = store }
send crm t (task ∷ tasks) store sum = after_batch t (task ∷ tasks) store sum (crm.batch store)

module _ (clock : Clock) (household_name : String) (crm : Crm) where
  unfoldable pub fire_template : WorkflowTemplate → List WorkflowTask → Summary → Fired
  fire_template t store sum =
      if crm.answers store
      then (if is_complete t store
          then record { summary = some sum; store = store }
          else send crm t (new_tasks clock household_name t (pending_steps t store)) store
              (skip t store sum))
      else record { summary = none; store = store }

  -- The loop; a call that throws ends it, and what was created stays.
  unfoldable pub fire_all : List WorkflowTemplate → Option Summary → List WorkflowTask → Fired
  fire_all ts none store = record { summary = none; store = store }
  fire_all [] (some sum) store = record { summary = some sum; store = store }
  fire_all (t ∷ ts) (some sum) store =
      let fired = fire_template t store sum in fire_all ts fired.summary fired.store

  unfoldable pub fire_workflow_trigger : TriggerEvent → Option String → List WorkflowTask → Fired
  fire_workflow_trigger event given store =
      fire_all (filter (matches event given) workflow_templates) (some no_summary) store
