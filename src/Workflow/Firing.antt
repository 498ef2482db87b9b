-- ===== src/Workflow/Firing.antt =====
-- `fireWorkflowTrigger` of frontend/src/lib/workflows.ts called twice.
use mathlib.Core.List.{Memᴰ}
use min_demo.Base.{
  ◌≡◌, refl, ◌≤◌, String, Bool, true, false, not, ◌&&◌, ◌||◌, ◌⊎◌, inl, inr, none, some, List, [],
  ◌∷◌, ◌++◌, length-append, arith, Text, units, text_eq, if◌then◌else◌, map, filter, any, length,
  leb, ==_refl, Bool-cases, leb→le, le→leb, str_eq,
}
use min_demo.Workflow.{
  WorkflowTemplate, WorkflowStep, WorkflowTask, Clock, belongs, existing_ids, task_ids, has_id,
  set_of, pending_steps, is_immediate, is_scheduled, scheduled_task, new_tasks, task_of,
}
use min_demo.Workflow.Engine.{is_complete}
use min_demo.Workflow.Stamp.{NoMark, StepOk, task_ids-task_of, existing_ids-append}

-- Every step of the template has a task.
abbrev pub Covered : WorkflowTemplate → List WorkflowTask → Type 0
Covered t store =
    (step : WorkflowStep) → Memᴰ step t.steps → has_id (units step.id) (existing_ids t store) ≡ true

-- The engine has nothing left to do for the template.
abbrev pub Done : WorkflowTemplate → List WorkflowTask → Type 0
Done t store = (is_complete t store ≡ true) ⊎ Covered t store

-- The engine can read the marks that it writes for the template.
abbrev pub TemplateOk : WorkflowTemplate → Type 0
TemplateOk t = NoMark (units t.id) × ((step : WorkflowStep) → Memᴰ step t.steps → StepOk step)

or_true : (b : Bool) → (b || true) ≡ true
or_true true = refl
or_true false = refl

any-append_left {ℓ} :
    {A : Type ℓ} (p : A → Bool) (xs ys : List A) → any p xs ≡ true → any p (xs ++ ys) ≡ true
any-append_left p [] ys h = absurd (ground arith)
any-append_left p (x ∷ xs) ys h = elim (Bool-cases (p x)) [
  | inl e ↦ rw e refl
  | inr e ↦ rw e (any-append_left p xs ys (ground (arith, e, h)))
]

any-append_right {ℓ} :
    {A : Type ℓ} (p : A → Bool) (xs ys : List A) → any p ys ≡ true → any p (xs ++ ys) ≡ true
any-append_right p [] ys h = h
any-append_right p (x ∷ xs) ys h = rw (any-append_right p xs ys h) (or_true (p x))

text_eq_refl : (w : Text) → text_eq w w ≡ true
text_eq_refl [] = refl
text_eq_refl (c ∷ w) = rw (==_refl c, text_eq_refl w) refl

set_of-append : (seen xs ys : List Text) → set_of seen (xs ++ ys) ≡ set_of (set_of seen xs) ys
unfolding set_of
set_of-append seen [] ys = refl
set_of-append seen (x ∷ xs) ys =
    set_of-append (if has_id x seen then seen else seen ++ x ∷ []) xs ys

length-set_of : (seen xs : List Text) → length seen ≤ length (set_of seen xs)
unfolding set_of
length-set_of seen [] = omega arith
length-set_of seen (x ∷ xs) = elim (Bool-cases (has_id x seen)) [
  | inl e ↦ rw e (length-set_of seen xs)
  | inr e ↦ rw e (omega (arith, length-set_of (seen ++ x ∷ []) xs, length-append seen (x ∷ [])))
]

and_parts : (a b c : Bool) → (a && (b && c)) ≡ true → (a ≡ true) × ((b ≡ true) × (c ≡ true))
and_parts a b c h = ground arith

set_grows :
    (t : WorkflowTemplate) (store tasks : List WorkflowTask)
    → length (set_of [] (existing_ids t store))
      ≤ length (set_of [] (existing_ids t (store ++ tasks)))
set_grows t store tasks =
    rw
      (
        existing_ids-append t store tasks,
        set_of-append [] (existing_ids t store) (existing_ids t tasks),
      )
      (length-set_of (set_of [] (existing_ids t store)) (existing_ids t tasks))

-- What is done stays done when tasks are added.
is_complete-append :
    (t : WorkflowTemplate) (store tasks : List WorkflowTask)
    → is_complete t store ≡ true
    → is_complete t (store ++ tasks) ≡ true
unfolding is_complete
is_complete-append t store tasks h =
    let n = length t.steps in
    let (one, (full, other)) =
      and_parts (any (belongs t) store) (leb n (length (set_of [] (existing_ids t store))))
        (not (str_eq t.id "document-expiration")) h in
    let still : leb n (length (set_of [] (existing_ids t (store ++ tasks)))) ≡ true =
      le→leb n (length (set_of [] (existing_ids t (store ++ tasks)))) (
        omega (
          arith,
          leb→le n (length (set_of [] (existing_ids t store))) full,
          set_grows t store tasks,
        )) in
    rw (any-append_left (belongs t) store tasks one, still, other) refl

pub Done-append :
    (t : WorkflowTemplate) (store tasks : List WorkflowTask)
    → Done t store
    → Done t (store ++ tasks)
Done-append t store tasks (inl full) = inl (is_complete-append t store tasks full)
Done-append t store tasks (inr covered) = inr (λ step m. rw (existing_ids-append t store tasks) (
    any-append_left (text_eq (units step.id)) (existing_ids t store) (existing_ids t tasks)
      (covered step m)))

-- One of the tasks written for some steps is for a given one of them.
has_id-map :
    (t : WorkflowTemplate) (f : WorkflowStep → WorkflowTask) (steps : List WorkflowStep)
    (step : WorkflowStep)
    → task_ids t (f step) ≡ units step.id ∷ []
    → Memᴰ step steps
    → has_id (units step.id) (existing_ids t (map f steps)) ≡ true
unfolding existing_ids
has_id-map t f [] step e m = elim m [ ]
has_id-map t f (s ∷ steps) step e (Memᴰ.head h) = rw (← h, e, text_eq_refl (units step.id)) refl
has_id-map t f (s ∷ steps) step e (Memᴰ.tail m) =
    any-append_right (text_eq (units step.id)) (task_ids t (f s)) (existing_ids t (map f steps))
      (has_id-map t f steps step e m)

Memᴰ-filter :
    (p : WorkflowStep → Bool) (steps : List WorkflowStep) (step : WorkflowStep)
    → p step ≡ true
    → Memᴰ step steps
    → Memᴰ step (filter p steps)
Memᴰ-filter p [] step e m = elim m [ ]
Memᴰ-filter p (s ∷ steps) step e (Memᴰ.head h) = rw (← h, e) (Memᴰ.head refl)
Memᴰ-filter p (s ∷ steps) step e (Memᴰ.tail m) = elim (Bool-cases (p s)) [
  | inl k ↦ rw k (Memᴰ.tail (Memᴰ-filter p steps step e m))
  | inr k ↦ rw k (Memᴰ-filter p steps step e m)
]

-- The tasks made for the pending steps cover every step.
pub new_tasks-Covered :
    (clock : Clock) (name : String) (t : WorkflowTemplate) (store : List WorkflowTask)
    → TemplateOk t
    → Covered t (store ++ new_tasks clock name t (pending_steps t store))
unfolding new_tasks pending_steps
new_tasks-Covered clock name t store (plain, ok) step m =
    let old = existing_ids t store in
    let pending =
      filter (λ (s : WorkflowStep). not (has_id (units s.id) (existing_ids t store))) t.steps in
    let now = map (task_of clock name t none) (filter is_immediate pending) in
    let later = map (scheduled_task clock name t) (filter is_scheduled pending) in
    rw (existing_ids-append t store (now ++ later), existing_ids-append t now later)
      (elim (Bool-cases (has_id (units step.id) (existing_ids t store))) [
        | inl e ↦ any-append_left (text_eq (units step.id)) old _ e
        | inr e ↦
            let here =
              Memᴰ-filter (λ (s : WorkflowStep). not (has_id (units s.id) (existing_ids t store)))
                t.steps step (rw e refl) m in
            any-append_right (text_eq (units step.id)) old _
              (elim (Bool-cases (is_immediate step)) [
                | inl i ↦ any-append_left (text_eq (units step.id)) (existing_ids t now) _ (
                    has_id-map t (task_of clock name t none) (filter is_immediate pending) step
                      (task_ids-task_of clock name t none step plain (ok step m))
                      (Memᴰ-filter is_immediate pending step i here))
                | inr i ↦ any-append_right (text_eq (units step.id)) (existing_ids t now) _ (
                    has_id-map t (scheduled_task clock name t) (filter is_scheduled pending) step
                      (task_ids-task_of clock name t (some (clock.due_iso step.delay_days)) step
                        plain (ok step m))
                      (Memᴰ-filter is_scheduled pending step (ground (arith, i)) here))
              ])
      ])
