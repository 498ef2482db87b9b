-- ===== src/Workflow/Stamp.antt =====
-- What the workflow engine of frontend/src/lib/workflows.ts reads back of the descriptions that it
-- writes.
use min_demo.Base.{
  ◌≡◌, refl, ap, sym, ◌∙◌, ◌≢◌, String, true, false, Option, some, List, [], ◌∷◌, ◌++◌,
  append_assoc, Text, units, has_prefix, take_word, is_space, ◌==◌, ==_refl,
}
use min_demo.Workflow.{
  WorkflowTemplate, WorkflowStep, WorkflowTask, Clock, step_mark, step_id_in, description_of,
  task_of, belongs, belongs_text, existing_ids, task_ids, first_word,
}

-- No character of the text begins the mark of a step.
abbrev pub NoMark : Text → Type 0
NoMark [] = Unit
NoMark (c ∷ s) = ((83 == c) ≡ false) × NoMark s

abbrev pub NoSpaces : Text → Type 0
NoSpaces [] = Unit
NoSpaces (c ∷ s) = (is_space c ≡ false) × NoSpaces s

abbrev pub StepOk : WorkflowStep → Type 0
StepOk step = NoSpaces (units step.id) × (units step.id ≢ [])

-- The text before a mark is skipped.
step_id_in-skip : (p s : Text) → NoMark p → step_id_in (p ++ s) ≡ step_id_in s
unfolding step_id_in
step_id_in-skip [] s h = refl
step_id_in-skip (c ∷ p) s h = rw (h.0) (step_id_in-skip p s h.1)

take_word-word : (w rest : Text) → NoSpaces w → take_word (w ++ 10 ∷ rest) ≡ w
take_word-word [] rest h = refl
take_word-word (c ∷ w) rest h = rw (h.0) (ap (λ v. c ∷ v) (take_word-word w rest h.1))

first_word_of : (w : Text) (later : Option Text) → w ≢ [] → first_word w later ≡ some w
first_word_of [] later h = absurd (h refl)
first_word_of (c ∷ w) later h = refl

step_id_in-mark :
    (w rest : Text) → NoSpaces w → w ≢ [] → step_id_in (step_mark ++ (w ++ 10 ∷ rest)) ≡ some w
unfolding step_id_in
step_id_in-mark w rest h k = rw (take_word-word w rest h) (first_word_of w _ k)

-- The step of a description is the one it was written for, where the template's id has no capital
-- S and the step's id is not empty and has no spaces.
pub step_id_in-description_of :
    (clock : Clock) (t : WorkflowTemplate) (step : WorkflowStep) (due : Option Text)
    → NoMark (units t.id)
    → StepOk step
    → step_id_in (description_of clock t step due) ≡ some (units step.id)
unfolding description_of step_id_in
step_id_in-description_of clock t step due plain ok =
    step_id_in-skip (units t.id) _ plain ∙ step_id_in-mark (units step.id) _ ok.0 ok.1

has_prefix-append : (p s : Text) → has_prefix p (p ++ s) ≡ true
has_prefix-append [] s = refl
has_prefix-append (c ∷ p) s = rw (==_refl c) (has_prefix-append p s)

-- A task belongs to the template that it was written for.
pub belongs-task_of :
    (clock : Clock) (name : String) (t : WorkflowTemplate) (due : Option Text) (step : WorkflowStep)
    → belongs t (task_of clock name t due step) ≡ true
unfolding task_of description_of belongs_text
belongs-task_of clock name t due step = has_prefix-append (units t.id) _

-- The ids of a task that was written for a step are that step's.
pub task_ids-task_of :
    (clock : Clock) (name : String) (t : WorkflowTemplate) (due : Option Text) (step : WorkflowStep)
    → NoMark (units t.id)
    → StepOk step
    → task_ids t (task_of clock name t due step) ≡ units step.id ∷ []
unfolding task_ids task_of
task_ids-task_of clock name t due step plain ok =
    rw (belongs-task_of clock name t due step, step_id_in-description_of clock t step due plain ok)
      refl

pub existing_ids-append :
    (t : WorkflowTemplate) (xs ys : List WorkflowTask)
    → existing_ids t (xs ++ ys) ≡ existing_ids t xs ++ existing_ids t ys
unfolding existing_ids
existing_ids-append t [] ys = refl
existing_ids-append t (x ∷ xs) ys =
    rw (existing_ids-append t xs ys)
      (sym (append_assoc (task_ids t x) (existing_ids t xs) (existing_ids t ys)))
