-- ===== src/Workflow/Marks.antt =====
-- Tests of the templates of frontend/src/lib/workflows.ts for marks that the engine can read.
use mathlib.Core.List.{Memᴰ}
use min_demo.Base.{
  ◌≡◌, refl, Bool, true, false, not, ◌&&◌, ◌≢◌, List, [], ◌∷◌, Text, units, is_space, all, ◌==◌,
  arith, All, All-filter, Option, String, filter, subst, sym, length, ltb,
}
use min_demo.Workflow.{TriggerEvent, WorkflowTemplate, WorkflowStep, matches}
use min_demo.Workflow.Stamp.{NoMark, NoSpaces, StepOk}
use min_demo.Workflow.Firing.{TemplateOk}
use min_demo.Workflow.Templates.{workflow_templates}

abbrev has_no_mark : Text → Bool
has_no_mark s = all (λ c. not (83 == c)) s

abbrev is_word : Text → Bool
is_word s = ltb 0 (length s) && all (λ c. not (is_space c)) s

abbrev step_ok : WorkflowStep → Bool
step_ok step = is_word (units step.id)

abbrev template_ok : WorkflowTemplate → Bool
template_ok t = has_no_mark (units t.id) && all step_ok t.steps

has_no_mark-NoMark : (s : Text) → has_no_mark s ≡ true → NoMark s
has_no_mark-NoMark [] h = tt
has_no_mark-NoMark (c ∷ s) h = (ground (arith, h), has_no_mark-NoMark s (ground (arith, h)))

and_left : (a b : Bool) → (a && b) ≡ true → a ≡ true
and_left a b h = ground arith

and_right : (a b : Bool) → (a && b) ≡ true → b ≡ true
and_right a b h = ground arith

flipped : (b : Bool) → not b ≡ true → b ≡ false
flipped b h = ground arith

is_word-NoSpaces : (s : Text) → all (λ c. not (is_space c)) s ≡ true → NoSpaces s
is_word-NoSpaces [] h = tt
is_word-NoSpaces (c ∷ s) h =
    let rest = all (λ d. not (is_space d)) s in
    (
      flipped (is_space c) (and_left (not (is_space c)) rest h),
      is_word-NoSpaces s (and_right (not (is_space c)) rest h),
    )

nonempty : (s : Text) → ltb 0 (length s) ≡ true → s ≢ []
nonempty [] h = λ e. absurd (ground (arith, h))
nonempty (c ∷ s) h = λ e. absurd (cc)

step_ok-StepOk : (step : WorkflowStep) → step_ok step ≡ true → StepOk step
step_ok-StepOk step h =
    let word = all (λ c. not (is_space c)) (units step.id) in
    let some_char = ltb 0 (length (units step.id)) in
    (
      is_word-NoSpaces (units step.id) (and_right some_char word h),
      nonempty (units step.id) (and_left some_char word h),
    )

StepOk-Mem :
    (steps : List WorkflowStep) (step : WorkflowStep)
    → all step_ok steps ≡ true
    → Memᴰ step steps
    → StepOk step
StepOk-Mem [] step h m = elim m [ ]
StepOk-Mem (s ∷ steps) step h (Memᴰ.head e) =
    subst StepOk (sym e) (step_ok-StepOk s (and_left (step_ok s) (all step_ok steps) h))
StepOk-Mem (s ∷ steps) step h (Memᴰ.tail m) =
    StepOk-Mem steps step (and_right (step_ok s) (all step_ok steps) h) m

template_ok-TemplateOk : (t : WorkflowTemplate) → template_ok t ≡ true → TemplateOk t
template_ok-TemplateOk t h = (
  has_no_mark-NoMark (units t.id) (and_left (has_no_mark (units t.id)) (all step_ok t.steps) h),
  λ step m.
      StepOk-Mem t.steps step (and_right (has_no_mark (units t.id)) (all step_ok t.steps) h) m,
)

all-TemplateOk : (ts : List WorkflowTemplate) → all template_ok ts ≡ true → All TemplateOk ts
all-TemplateOk [] h = tt
all-TemplateOk (t ∷ ts) h = (
  template_ok-TemplateOk t (and_left (template_ok t) (all template_ok ts) h),
  all-TemplateOk ts (and_right (template_ok t) (all template_ok ts) h),
)

pub workflow_templates-TemplateOk : All TemplateOk workflow_templates
workflow_templates-TemplateOk = all-TemplateOk workflow_templates refl

pub templates-TemplateOk :
    (event : TriggerEvent) (given : Option String)
    → All TemplateOk (filter (matches event given) workflow_templates)
templates-TemplateOk event given =
    All-filter TemplateOk (matches event given) workflow_templates workflow_templates-TemplateOk
