-- ===== src/Workflow/Once.antt =====
-- The tasks of one step over calls of `fireWorkflowTrigger` of frontend/src/lib/workflows.ts.
use mathlib.Core.List.{Memᴰ}
use min_demo.Base.{
  ◌≡◌, refl, ap, sym, ◌∙◌, ◌≤◌, String, Bool, true, false, not, ◌&&◌, ◌⊎◌, inl, inr, Option, none,
  some, List, [], ◌∷◌, ◌++◌, arith, Text, text_eq, All, All-filter, filter, Bool-cases, subst,
}
use min_demo.Workflow.{
  TriggerEvent, WorkflowTemplate, WorkflowTask, Clock, Crm, Summary, no_summary, has_id,
  pending_steps, new_tasks, task_of, created_tasks, matches, description_of, belongs_text,
}
use min_demo.Workflow.Templates.{workflow_templates}
use min_demo.Workflow.Engine.{fire_template, fire_all, fire_workflow_trigger}
use min_demo.Workflow.Firing.{TemplateOk}
use min_demo.Workflow.Marks.{workflow_templates-TemplateOk}
use min_demo.Workflow.Counting.{count_id, count_step, count_id_absent, text_eq-eq}
use min_demo.Workflow.Adding.{
  HasDistinctSteps, IsApart, IsSteady, own-once, apart-once, fire_template-store,
}

-- This template itself, or one apart from it.
abbrev IsOrApart : WorkflowTemplate → WorkflowTemplate → Type 0
IsOrApart t u = (u ≡ t) ⊎ IsApart t u

fire_template-once :
    (clock : Clock) (name : String) (crm : Crm) (t u : WorkflowTemplate) (store : List WorkflowTask)
    (sum : Summary) (w : Text)
    → TemplateOk t
    → HasDistinctSteps t
    → IsSteady crm
    → IsOrApart t u
    → count_step t w store ≤ 1
    → count_step t w (fire_template clock name crm u store sum).store ≤ 1
fire_template-once clock name crm t u store sum w ok distinct steady which h =
    elim (fire_template-store clock name crm u store sum steady) [
      | inl same ↦ rw same h
      | inr (refusal, more) ↦ rw more (elim which [
        | inl e ↦
            subst
              (λ v.
                count_step t w
                  (store ++ created_tasks refusal (new_tasks clock name v (pending_steps v store)))
                ≤ 1)
              (sym e) (own-once clock name t store w refusal ok distinct h)
        | inr apart ↦ apart-once clock name t u store w refusal (pending_steps u store) apart h
      ])
    ]

fire_all-once :
    (clock : Clock) (name : String) (crm : Crm) (t : WorkflowTemplate) (ts : List WorkflowTemplate)
    (o : Option Summary) (store : List WorkflowTask) (w : Text)
    → TemplateOk t
    → HasDistinctSteps t
    → IsSteady crm
    → All (IsOrApart t) ts
    → count_step t w store ≤ 1
    → count_step t w (fire_all clock name crm ts o store).store ≤ 1
unfolding fire_all
fire_all-once clock name crm t [] none store w ok distinct steady which h = h
fire_all-once clock name crm t [] (some sum) store w ok distinct steady which h = h
fire_all-once clock name crm t (u ∷ ts) none store w ok distinct steady which h = h
fire_all-once clock name crm t (u ∷ ts) (some sum) store w ok distinct steady which h =
    fire_all-once clock name crm t ts (fire_template clock name crm u store sum).summary
      (fire_template clock name crm u store sum).store w ok distinct steady which.1
      (fire_template-once clock name crm t u store sum w ok distinct steady which.0 h)

distinct_ids : List Text → Bool
distinct_ids [] = true
distinct_ids (v ∷ ids) = not (has_id v ids) && distinct_ids ids

count_id-distinct : (w : Text) (ids : List Text) → distinct_ids ids ≡ true → count_id w ids ≤ 1
unfolding count_id distinct_ids
count_id-distinct w [] h = omega arith
count_id-distinct w (v ∷ ids) h = elim (Bool-cases (text_eq w v)) [
  | inl e ↦
      let absent : has_id w ids ≡ false =
        ap (λ u. has_id u ids) (text_eq-eq w v e) ∙ ground (arith, h) in
      rw e (omega (arith, count_id_absent w ids absent))
  | inr e ↦ rw e (count_id-distinct w ids (ground (arith, h)))
]

-- What holds of a template with regard to all templates.
abbrev Fits : WorkflowTemplate → Type 0
Fits t = TemplateOk t × (HasDistinctSteps t × All (IsOrApart t) workflow_templates)

templates-Fits : All Fits workflow_templates
unfolding distinct_ids task_of description_of belongs_text
templates-Fits = (
  (
    workflow_templates-TemplateOk.0,
    ((λ w. count_id-distinct w _ refl), (inl refl, (inr (λ clock name due step. refl), tt))),
  ),
  (
    (
      workflow_templates-TemplateOk.1.0,
      ((λ w. count_id-distinct w _ refl), (inr (λ clock name due step. refl), (inl refl, tt))),
    ),
    tt,
  ),
)

Fits-Mem : (ts : List WorkflowTemplate) (t : WorkflowTemplate) → All Fits ts → Memᴰ t ts → Fits t
Fits-Mem [] t h m = elim m [ ]
Fits-Mem (u ∷ ts) t h (Memᴰ.head e) = subst Fits (sym e) h.0
Fits-Mem (u ∷ ts) t h (Memᴰ.tail m) = Fits-Mem ts t h.1 m

-- One call of the engine, with the time, the household's name and the behaviour of the CRM.
pub record Call : Type 0 where
  pub clock : Clock
  pub household_name : String
  pub crm : Crm
  pub event : TriggerEvent
  pub given : Option String

-- The household's tasks after some calls.
pub after_calls : List Call → List WorkflowTask → List WorkflowTask
after_calls [] store = store
after_calls (c ∷ calls) store =
    after_calls calls
      (fire_workflow_trigger c.clock c.household_name c.crm c.event c.given store).store

call-once :
    (t : WorkflowTemplate) (w : Text) (c : Call) (store : List WorkflowTask)
    → IsSteady c.crm
    → Memᴰ t workflow_templates
    → count_step t w store ≤ 1
    → count_step t w
        (fire_workflow_trigger c.clock c.household_name c.crm c.event c.given store).store
      ≤ 1
unfolding fire_workflow_trigger
call-once t w c store steady m h =
    let (ok, (distinct, apart)) = Fits-Mem workflow_templates t templates-Fits m in
    fire_all-once c.clock c.household_name c.crm t
      (filter (matches c.event c.given) workflow_templates) (some no_summary) store w ok distinct
      steady (All-filter (IsOrApart t) (matches c.event c.given) workflow_templates apart) h

-- Where no batch of the calls leaves a task in the CRM a second time, as the fallback behind an
-- interrupted call does: a household with at most one task that carries the mark of a template's step
-- has at most one after any number of calls for any events, whichever tasks the CRM refuses and
-- whichever calls throw.
pub one_task_per_step :
    (t : WorkflowTemplate) (w : Text) (calls : List Call) (store : List WorkflowTask)
    → All (λ (c : Call). IsSteady c.crm) calls
    → Memᴰ t workflow_templates
    → count_step t w store ≤ 1
    → count_step t w (after_calls calls store) ≤ 1
unfolding after_calls
one_task_per_step t w [] store steady m h = h
one_task_per_step t w (c ∷ calls) store steady m h =
    one_task_per_step t w calls
      (fire_workflow_trigger c.clock c.household_name c.crm c.event c.given store).store steady.1 m
      (call-once t w c store steady.0 m h)
