-- ===== src/Workflow/Twice.antt =====
-- `fireWorkflowTrigger` of frontend/src/lib/workflows.ts called a second time.
use mathlib.Core.List.{Memᴰ}
use min_demo.Base.{
  ℕ, ◌≡◌, refl, ap, sym, String, Bool, true, false, not, inl, inr, Option, none, some, List, [],
  ◌∷◌, ◌++◌, append_assoc, append-nil, units, All, filter, Bool-cases, subst,
}
use min_demo.Workflow.{
  TriggerEvent, WorkflowTemplate, WorkflowStep, WorkflowTask, Clock, Crm, Summary, Fired,
  no_summary, existing_ids, has_id, pending_steps, new_tasks, created_tasks, matches,
}
use min_demo.Workflow.Templates.{workflow_templates}
use min_demo.Workflow.Engine.{
  is_complete, skip, after_batch, send, fire_template, fire_all, fire_workflow_trigger,
}
use min_demo.Workflow.Marks.{templates-TemplateOk}
use min_demo.Workflow.Firing.{Covered, Done, TemplateOk, Done-append, new_tasks-Covered}

-- A CRM that answers every query and creates every task, once or more often.
abbrev pub IsWilling : Crm → Type 0
IsWilling crm =
    ((store : List WorkflowTask) → crm.answers store ≡ true)
    × ((store : List WorkflowTask)
        → (more : List WorkflowTask) × (crm.batch store
            ≡ some record { refusal = λ task. none; repeated = more }))

filter_none :
    (p : WorkflowStep → Bool) (steps : List WorkflowStep)
    → ((step : WorkflowStep) → Memᴰ step steps → p step ≡ false)
    → filter p steps ≡ []
filter_none p [] h = refl
filter_none p (s ∷ steps) h =
    rw (h s (Memᴰ.head refl)) (filter_none p steps (λ step m. h step (Memᴰ.tail m)))

created_tasks_all : (tasks : List WorkflowTask) → created_tasks (λ task. none) tasks ≡ tasks
unfolding created_tasks
created_tasks_all [] = refl
created_tasks_all (task ∷ tasks) = ap (λ ts. task ∷ ts) (created_tasks_all tasks)

-- The call ends with a result, having added some tasks.
abbrev Adds : Fired → List WorkflowTask → List WorkflowTask → Type 0
Adds fired store tasks =
    (sum : Summary) × (fired ≡ record { summary = some sum; store = store ++ tasks })

send-Adds :
    (crm : Crm) (t : WorkflowTemplate) (tasks store : List WorkflowTask) (sum : Summary)
    → IsWilling crm
    → (more : List WorkflowTask) × Adds (send crm t tasks store sum) store (tasks ++ more)
unfolding after_batch
send-Adds crm t [] store sum will =
    ([], (sum, ap (λ s. record { summary = some sum; store = s }) (sym (append-nil store))))
send-Adds crm t (task ∷ tasks) store sum will =
    let (more, e) = will.1 store in rw (e, created_tasks_all (task ∷ tasks)) (more, (_, refl))

fire_template-Done :
    (clock : Clock) (name : String) (crm : Crm) (t : WorkflowTemplate) (store : List WorkflowTask)
    (sum : Summary)
    → IsWilling crm
    → TemplateOk t
    → (tasks : List WorkflowTask) × (Adds (fire_template clock name crm t store sum) store tasks
        × Done t (store ++ tasks))
unfolding fire_template
fire_template-Done clock name crm t store sum will ok = elim (Bool-cases (is_complete t store)) [
  | inl e ↦
      rw (will.0 store, e)
        (
          [],
          (
            (sum, ap (λ s. record { summary = some sum; store = s }) (sym (append-nil store))),
            Done-append t store [] (inl e),
          ),
        )
  | inr e ↦
      let made = new_tasks clock name t (pending_steps t store) in
      let (more, adds) = send-Adds crm t made store (skip t store sum) will in
      let done : Done t (store ++ made) = inr (new_tasks-Covered clock name t store ok) in
      rw (will.0 store, e)
        (
          made ++ more,
          (
            adds,
            subst (λ s. Done t s) (append_assoc store made more)
                (Done-append t (store ++ made) more done),
          ),
        )
]

pending_steps_done :
    (t : WorkflowTemplate) (store : List WorkflowTask)
    → Covered t store
    → pending_steps t store ≡ []
unfolding pending_steps
pending_steps_done t store covered =
    filter_none (λ (step : WorkflowStep). not (has_id (units step.id) (existing_ids t store)))
      t.steps (λ step m. rw (covered step m) refl)

-- A template with nothing left to do changes nothing but the number of skipped steps.
fire_template-quiet :
    (clock : Clock) (name : String) (crm : Crm) (t : WorkflowTemplate) (store : List WorkflowTask)
    (sum : Summary)
    → crm.answers store ≡ true
    → Done t store
    → (n : ℕ) × (fire_template clock name crm t store sum
        ≡ record { summary = some (record sum { skipped_steps = n }); store = store })
unfolding fire_template new_tasks skip
fire_template-quiet clock name crm t store sum ans (inl full) =
    rw (ans, full) (sum.skipped_steps, refl)
fire_template-quiet clock name crm t store sum ans (inr covered) =
    elim (Bool-cases (is_complete t store)) [
      | inl e ↦ rw (ans, e) (sum.skipped_steps, refl)
      | inr e ↦ rw (ans, e, pending_steps_done t store covered) (_, refl)
    ]

fire_all-cons :
    (clock : Clock) (name : String) (crm : Crm) (t : WorkflowTemplate) (ts : List WorkflowTemplate)
    (store : List WorkflowTask) (sum : Summary)
    → fire_all clock name crm (t ∷ ts) (some sum) store
      ≡ fire_all clock name crm ts
          (fire_template clock name crm t store sum).summary
          (fire_template clock name crm t store sum).store
unfolding fire_all
fire_all-cons clock name crm t ts store sum = refl

fire_all-Done :
    (clock : Clock) (name : String) (crm : Crm) (ts : List WorkflowTemplate)
    (store : List WorkflowTask) (sum : Summary)
    → IsWilling crm
    → All TemplateOk ts
    → (tasks : List WorkflowTask) × (Adds (fire_all clock name crm ts (some sum) store) store tasks
        × All (λ t. Done t (store ++ tasks)) ts)
unfolding fire_all
fire_all-Done clock name crm [] store sum will ok =
    ([], ((sum, ap (λ s. record { summary = some sum; store = s }) (sym (append-nil store))), tt))
fire_all-Done clock name crm (t ∷ ts) store sum will ok =
    let (tasks, ((sum', e), done)) = fire_template-Done clock name crm t store sum will ok.0 in
    let (later, ((sum'', e'), rest)) =
      fire_all-Done clock name crm ts (store ++ tasks) sum' will ok.1 in
    let assoc = append_assoc store tasks later in
    (
      tasks ++ later,
      (
        (
          sum'',
          rw (fire_all-cons clock name crm t ts store sum, e, e')
              (ap (λ s. record { summary = some sum''; store = s }) assoc),
        ),
        (
          subst (λ s. Done t s) assoc (Done-append t (store ++ tasks) later done),
          subst (λ s. All (λ u. Done u s) ts) assoc rest,
        ),
      ),
    )

fire_all-quiet :
    (clock : Clock) (name : String) (crm : Crm) (ts : List WorkflowTemplate)
    (store : List WorkflowTask) (sum : Summary)
    → crm.answers store ≡ true
    → All (λ t. Done t store) ts
    → (n : ℕ) × (fire_all clock name crm ts (some sum) store
        ≡ record { summary = some (record sum { skipped_steps = n }); store = store })
unfolding fire_all
fire_all-quiet clock name crm [] store sum ans done = (sum.skipped_steps, refl)
fire_all-quiet clock name crm (t ∷ ts) store sum ans done =
    let (n, e) = fire_template-quiet clock name crm t store sum ans done.0 in
    let (k, e') =
      fire_all-quiet clock name crm ts store (record sum { skipped_steps = n }) ans done.1 in
    (k, rw (fire_all-cons clock name crm t ts store sum, e, e') refl)

-- The call ends with a result that reports nothing done, and leaves the household's tasks alone.
abbrev pub IsQuiet : Fired → List WorkflowTask → Type 0
IsQuiet fired store =
    (n : ℕ) × (fired
      ≡ record { summary = some (record no_summary { skipped_steps = n }); store = store })

-- Where the CRM answers and creates every task on the first call, once or more often, whatever tasks the household has
-- by then, the call has a result, and a second call for the same event, also another day and with
-- another name, creates nothing, triggers nothing and reports no error.
pub fire_twice :
    (clock later : Clock) (name name' : String) (crm crm' : Crm) (event : TriggerEvent)
    (given : Option String) (store : List WorkflowTask)
    → IsWilling crm
    → ((s : List WorkflowTask) → crm'.answers s ≡ true)
    → ((sum : Summary) × ((fire_workflow_trigger clock name crm event given store).summary
          ≡ some sum))
      × IsQuiet
          (fire_workflow_trigger later name' crm' event given
            (fire_workflow_trigger clock name crm event given store).store)
          (fire_workflow_trigger clock name crm event given store).store
unfolding fire_workflow_trigger
fire_twice clock later name name' crm crm' event given store will ans =
    let ts = filter (matches event given) workflow_templates in
    let (tasks, ((sum, e), done)) =
      fire_all-Done clock name crm ts store no_summary will (templates-TemplateOk event given) in
    (
      (sum, ap (λ (f : Fired). f.summary) e),
      rw e (
          fire_all-quiet later name' crm' ts (store ++ tasks) no_summary (ans (store ++ tasks))
            done),
    )
