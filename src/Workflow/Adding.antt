-- ===== src/Workflow/Adding.antt =====
-- What one template's turn of `fireWorkflowTrigger` of frontend/src/lib/workflows.ts adds to the
-- tasks of each step.
use min_demo.Base.{
  ap, ◌∙◌, append-nil, ◌≡◌, refl, ◌≤◌, String, false, not, ◌⊎◌, inl, inr, Option, none, some, List,
  [], ◌∷◌, ◌++◌, arith, Text, units, map, filter, Bool-cases,
}
use min_demo.Workflow.{
  WorkflowTemplate, WorkflowStep, WorkflowTask, Clock, BatchReply, Crm, Summary, existing_ids,
  task_ids, has_id, belongs, pending_steps, is_immediate, is_scheduled, scheduled_task, new_tasks,
  task_of, created_tasks, is_created,
}
use min_demo.Workflow.Engine.{is_complete, skip, after_batch, send, fire_template}
use min_demo.Workflow.Firing.{TemplateOk}
use min_demo.Workflow.Counting.{
  count_id, count_step, count_step-append, count_step-filter, count_step-new_tasks, count_id_absent,
  count_id_taken, count_id-filter, step_ids, Memᴰ-of_filter,
}

-- The ids of a template's steps are different.
abbrev pub HasDistinctSteps : WorkflowTemplate → Type 0
HasDistinctSteps t = (w : Text) → count_id w (step_ids t.steps) ≤ 1

-- No task written for the one template is taken for the other's.
abbrev pub IsApart : WorkflowTemplate → WorkflowTemplate → Type 0
IsApart t u =
    (clock : Clock) (name : String) (due : Option Text) (step : WorkflowStep)
    → belongs t (task_of clock name u due step) ≡ false

-- What is added to the household's tasks: nothing, or those of some tasks that the CRM creates.
abbrev pub AddsSome : List WorkflowTask → List WorkflowTask → List WorkflowTask → Type 0
AddsSome after store tasks =
    (after ≡ store)
    ⊎ ((refusal : WorkflowTask → Option String) × (after ≡ store ++ created_tasks refusal tasks))

-- A CRM and client that leave no task of a batch twice.
abbrev pub IsSteady : Crm → Type 0
IsSteady crm =
    (store : List WorkflowTask) (reply : BatchReply)
    → crm.batch store ≡ some reply
    → reply.repeated ≡ []

after_batch-store :
    (u : WorkflowTemplate) (tasks store : List WorkflowTask) (sum : Summary) (b : Option BatchReply)
    → ((reply : BatchReply) → b ≡ some reply → reply.repeated ≡ [])
    → AddsSome (after_batch u tasks store sum b).store store tasks
unfolding after_batch
after_batch-store u tasks store sum none steady = inl refl
after_batch-store u tasks store sum (some reply) steady = inr (
  reply.refusal,
  ap (λ ts. store ++ ts)
      (ap (λ more. created_tasks reply.refusal tasks ++ more) (steady reply refl)
        ∙ append-nil (created_tasks reply.refusal tasks)),
)

send-store :
    (crm : Crm) (u : WorkflowTemplate) (tasks store : List WorkflowTask) (sum : Summary)
    → IsSteady crm
    → AddsSome (send crm u tasks store sum).store store tasks
send-store crm u [] store sum steady = inl refl
send-store crm u (task ∷ tasks) store sum steady =
    after_batch-store u (task ∷ tasks) store sum (crm.batch store) (steady store)

pub fire_template-store :
    (clock : Clock) (name : String) (crm : Crm) (u : WorkflowTemplate) (store : List WorkflowTask)
    (sum : Summary)
    → IsSteady crm
    → AddsSome
        (fire_template clock name crm u store sum).store
        store
        (new_tasks clock name u (pending_steps u store))
unfolding fire_template
fire_template-store clock name crm u store sum steady = elim (Bool-cases (crm.answers store)) [
  | inl a ↦ elim (Bool-cases (is_complete u store)) [
    | inl e ↦ rw (a, e) (inl refl)
    | inr e ↦
        rw (a, e)
          (send-store crm u (new_tasks clock name u (pending_steps u store)) store
            (skip u store sum) steady)
  ]
  | inr a ↦ rw a (inl refl)
]

-- The template's own tasks: a step that has one gets no other, and one that has none gets one.
pub own-once :
    (clock : Clock) (name : String) (t : WorkflowTemplate) (store : List WorkflowTask) (w : Text)
    (refusal : WorkflowTask → Option String)
    → TemplateOk t
    → HasDistinctSteps t
    → count_step t w store ≤ 1
    → count_step t w
        (store ++ created_tasks refusal (new_tasks clock name t (pending_steps t store)))
      ≤ 1
unfolding created_tasks pending_steps
own-once clock name t store w refusal ok distinct h =
    let p = (λ (s : WorkflowStep). not (has_id (units s.id) (existing_ids t store))) in
    let steps =
      filter (λ (s : WorkflowStep). not (has_id (units s.id) (existing_ids t store))) t.steps in
    let fresh = new_tasks clock name t steps in
    let fewer = count_step-filter t w (λ task. is_created (refusal task)) fresh in
    let made = count_step-new_tasks clock name t w steps ok.0 (λ s m. ok.1 s (
      Memᴰ-of_filter (λ (s : WorkflowStep). not (has_id (units s.id) (existing_ids t store)))
        t.steps s m)) in
    rw (count_step-append t w store (filter (λ task. is_created (refusal task)) fresh))
      (elim (Bool-cases (has_id w (existing_ids t store))) [
        | inl e ↦ omega (arith, fewer, made, h, count_id_taken w (existing_ids t store) t.steps e)
        | inr e ↦ omega (
          arith,
          fewer,
          made,
          count_id_absent w (existing_ids t store) e,
          count_id-filter w (λ (s : WorkflowStep). not (has_id (units s.id) (existing_ids t store)))
              t.steps,
          distinct w,
        )
      ])

none-of_map :
    (t : WorkflowTemplate) (w : Text) (f : WorkflowStep → WorkflowTask) (steps : List WorkflowStep)
    → ((s : WorkflowStep) → belongs t (f s) ≡ false)
    → count_step t w (map f steps) ≡ 0
unfolding existing_ids task_ids count_id
none-of_map t w f [] h = refl
none-of_map t w f (s ∷ steps) h = rw (h s) (none-of_map t w f steps h)

-- Another template's tasks add nothing to the steps of this one.
pub apart-once :
    (clock : Clock) (name : String) (t u : WorkflowTemplate) (store : List WorkflowTask) (w : Text)
    (refusal : WorkflowTask → Option String) (steps : List WorkflowStep)
    → IsApart t u
    → count_step t w store ≤ 1
    → count_step t w (store ++ created_tasks refusal (new_tasks clock name u steps)) ≤ 1
unfolding created_tasks new_tasks
apart-once clock name t u store w refusal steps apart h =
    let now = map (task_of clock name u none) (filter is_immediate steps) in
    let later = map (scheduled_task clock name u) (filter is_scheduled steps) in
    rw (count_step-append t w store (filter (λ task. is_created (refusal task)) (now ++ later))) (
      omega (
        arith,
        h,
        count_step-filter t w (λ task. is_created (refusal task)) (now ++ later),
        count_step-append t w now later,
        none-of_map t w (task_of clock name u none) (filter is_immediate steps)
            (λ s. apart clock name none s),
        none-of_map t w (scheduled_task clock name u) (filter is_scheduled steps)
            (λ s. apart clock name (some (clock.due_iso s.delay_days)) s),
      ))
