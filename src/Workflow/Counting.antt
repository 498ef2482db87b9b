-- ===== src/Workflow/Counting.antt =====
-- How many tasks the workflow engine of frontend/src/lib/workflows.ts makes for a step.
use mathlib.Core.List.{Memᴰ}
use min_demo.Base.{
  ℕ, ◌+◌, ◌≡◌, refl, ap, ◌∙◌, ◌≤◌, String, Bool, true, false, not, inl, inr, none, some, List, [],
  ◌∷◌, ◌++◌, arith, Text, units, text_eq, if◌then◌else◌, map, filter, ◌==◌, Bool-cases,
}
use min_demo.Workflow.{
  WorkflowTemplate, WorkflowStep, WorkflowTask, Clock, existing_ids, task_ids, has_id, is_immediate,
  is_scheduled, scheduled_task, new_tasks, task_of,
}
use min_demo.Workflow.Stamp.{NoMark, StepOk, task_ids-task_of, existing_ids-append}

-- How often an id stands in a list.
unfoldable pub count_id : Text → List Text → ℕ
count_id w [] = 0
count_id w (v ∷ ids) = let rest = count_id w ids in if text_eq w v then rest + 1 else rest

-- How many of the household's tasks are the template's for the step with the id.
abbrev pub count_step : WorkflowTemplate → Text → List WorkflowTask → ℕ
count_step t w store = count_id w (existing_ids t store)

pub text_eq-eq : (v w : Text) → text_eq v w ≡ true → v ≡ w
text_eq-eq [] [] h = refl
text_eq-eq [] (d ∷ w) h = absurd (ground (arith, h))
text_eq-eq (c ∷ v) [] h = absurd (ground (arith, h))
text_eq-eq (c ∷ v) (d ∷ w) h = elim (Bool-cases (c == d)) [
  | inl e ↦
      ap (λ u. c ∷ u) (text_eq-eq v w (ground (arith, e, h))) ∙ ap (λ x. x ∷ w) (ground (arith, e))
  | inr e ↦ absurd (ground (arith, e, h))
]

count_id-append :
    (w : Text) (xs ys : List Text) → count_id w (xs ++ ys) ≡ count_id w xs + count_id w ys
unfolding count_id
count_id-append w [] ys = omega arith
count_id-append w (x ∷ xs) ys = elim (Bool-cases (text_eq w x)) [
  | inl e ↦ rw e (omega (arith, count_id-append w xs ys))
  | inr e ↦ rw e (count_id-append w xs ys)
]

pub count_id_absent : (w : Text) (ids : List Text) → has_id w ids ≡ false → count_id w ids ≡ 0
unfolding count_id
count_id_absent w [] h = refl
count_id_absent w (v ∷ ids) h = elim (Bool-cases (text_eq w v)) [
  | inl e ↦ absurd (ground (arith, e, h))
  | inr e ↦ rw e (count_id_absent w ids (ground (arith, e, h)))
]

pub count_step-append :
    (t : WorkflowTemplate) (w : Text) (xs ys : List WorkflowTask)
    → count_step t w (xs ++ ys) ≡ count_step t w xs + count_step t w ys
count_step-append t w xs ys =
    ap (count_id w) (existing_ids-append t xs ys)
    ∙ count_id-append w (existing_ids t xs) (existing_ids t ys)

-- Fewer tasks, no more of a step.
pub count_step-filter :
    (t : WorkflowTemplate) (w : Text) (p : WorkflowTask → Bool) (tasks : List WorkflowTask)
    → count_step t w (filter p tasks) ≤ count_step t w tasks
unfolding existing_ids
count_step-filter t w p [] = omega arith
count_step-filter t w p (x ∷ tasks) = elim (Bool-cases (p x)) [
  | inl e ↦ rw e (
      omega (
        arith,
        count_id-append w (task_ids t x) (existing_ids t (filter p tasks)),
        count_id-append w (task_ids t x) (existing_ids t tasks),
        count_step-filter t w p tasks,
      ))
  | inr e ↦ rw e (
      omega (
        arith,
        count_id-append w (task_ids t x) (existing_ids t tasks),
        count_step-filter t w p tasks,
      ))
]

abbrev pub step_ids : List WorkflowStep → List Text
step_ids steps = map (λ (s : WorkflowStep). units s.id) steps

-- Tasks written for steps: as many of an id as the steps have.
pub count_step-map :
    (t : WorkflowTemplate) (w : Text) (f : WorkflowStep → WorkflowTask) (steps : List WorkflowStep)
    → ((s : WorkflowStep) → Memᴰ s steps → task_ids t (f s) ≡ units s.id ∷ [])
    → count_step t w (map f steps) ≡ count_id w (step_ids steps)
unfolding existing_ids count_id
count_step-map t w f [] h = refl
count_step-map t w f (s ∷ steps) h =
    rw (h s (Memᴰ.head refl), count_step-map t w f steps (λ u m. h u (Memᴰ.tail m))) refl

later_of : (s : WorkflowStep) → is_immediate s ≡ true → is_scheduled s ≡ false
later_of s h = ground arith

now_of : (s : WorkflowStep) → is_immediate s ≡ false → is_scheduled s ≡ true
now_of s h = ground arith

-- The immediate and the scheduled steps together.
count_id-parts :
    (w : Text) (steps : List WorkflowStep)
    → count_id w (step_ids (filter is_immediate steps))
        + count_id w (step_ids (filter is_scheduled steps))
      ≤ count_id w (step_ids steps)
unfolding count_id
count_id-parts w [] = omega arith
count_id-parts w (s ∷ steps) = elim (Bool-cases (is_immediate s)) [
  | inl i ↦ elim (Bool-cases (text_eq w (units s.id))) [
    | inl k ↦ rw (i, later_of s i, k) (omega (arith, count_id-parts w steps))
    | inr k ↦ rw (i, later_of s i, k) (count_id-parts w steps)
  ]
  | inr i ↦ elim (Bool-cases (text_eq w (units s.id))) [
    | inl k ↦ rw (i, now_of s i, k) (omega (arith, count_id-parts w steps))
    | inr k ↦ rw (i, now_of s i, k) (count_id-parts w steps)
  ]
]

pub count_id-filter :
    (w : Text) (p : WorkflowStep → Bool) (steps : List WorkflowStep)
    → count_id w (step_ids (filter p steps)) ≤ count_id w (step_ids steps)
unfolding count_id
count_id-filter w p [] = omega arith
count_id-filter w p (s ∷ steps) = elim (Bool-cases (p s)) [
  | inl e ↦ elim (Bool-cases (text_eq w (units s.id))) [
    | inl k ↦ rw (e, k) (omega (arith, count_id-filter w p steps))
    | inr k ↦ rw (e, k) (count_id-filter w p steps)
  ]
  | inr e ↦ elim (Bool-cases (text_eq w (units s.id))) [
    | inl k ↦ rw (e, k) (omega (arith, count_id-filter w p steps))
    | inr k ↦ rw (e, k) (count_id-filter w p steps)
  ]
]

-- No pending step has an id that is there already.
pub count_id_taken :
    (w : Text) (ids : List Text) (steps : List WorkflowStep)
    → has_id w ids ≡ true
    → count_id w (step_ids (filter (λ (s : WorkflowStep). not (has_id (units s.id) ids)) steps)) ≡ 0
unfolding count_id
count_id_taken w ids [] h = refl
count_id_taken w ids (s ∷ steps) h = elim (Bool-cases (has_id (units s.id) ids)) [
  | inl e ↦ rw e (count_id_taken w ids steps h)
  | inr e ↦ elim (Bool-cases (text_eq w (units s.id))) [
    | inl k ↦
        let same : has_id w ids ≡ false =
          ap (λ v. has_id v ids) (text_eq-eq w (units s.id) k) ∙ e in
        absurd (ground (arith, same, h))
    | inr k ↦ rw (e, k) (count_id_taken w ids steps h)
  ]
]

Memᴰ-of_if :
    (b : Bool) (s u : WorkflowStep) (kept steps : List WorkflowStep)
    → Memᴰ s (if b then u ∷ kept else kept)
    → (Memᴰ s kept → Memᴰ s steps)
    → Memᴰ s (u ∷ steps)
Memᴰ-of_if true s u kept steps (Memᴰ.head e) f = Memᴰ.head e
Memᴰ-of_if true s u kept steps (Memᴰ.tail m) f = Memᴰ.tail (f m)
Memᴰ-of_if false s u kept steps m f = Memᴰ.tail (f m)

pub Memᴰ-of_filter :
    (p : WorkflowStep → Bool) (steps : List WorkflowStep) (s : WorkflowStep)
    → Memᴰ s (filter p steps)
    → Memᴰ s steps
Memᴰ-of_filter p [] s m = elim m [ ]
Memᴰ-of_filter p (u ∷ steps) s m =
    Memᴰ-of_if (p u) s u (filter p steps) steps m (λ k. Memᴰ-of_filter p steps s k)

-- The tasks made for some of the template's steps: no more of an id than these steps have.
pub count_step-new_tasks :
    (clock : Clock) (name : String) (t : WorkflowTemplate) (w : Text) (steps : List WorkflowStep)
    → NoMark (units t.id)
    → ((s : WorkflowStep) → Memᴰ s steps → StepOk s)
    → count_step t w (new_tasks clock name t steps) ≤ count_id w (step_ids steps)
unfolding new_tasks
count_step-new_tasks clock name t w steps plain ok =
    let now = filter is_immediate steps in
    let later = filter is_scheduled steps in
    rw
      (
        count_step-append t w (map (task_of clock name t none) now)
            (map (scheduled_task clock name t) later),
        count_step-map t w (task_of clock name t none) now (λ s m.
            task_ids-task_of clock name t none s plain
              (ok s (Memᴰ-of_filter is_immediate steps s m))),
        count_step-map t w (scheduled_task clock name t) later (λ s m.
            task_ids-task_of clock name t (some (clock.due_iso s.delay_days)) s plain
              (ok s (Memᴰ-of_filter is_scheduled steps s m))),
      )
      (count_id-parts w steps)
