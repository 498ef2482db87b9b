-- ===== src/SfClient/Batch/Fates.antt =====
-- What becomes of the tasks of `createTasksBatch`, frontend/src/lib/sf-client.ts, where the composite
-- API tells the truth: each task has a fate of its own, and the answers report it.
use Prim.Native.Nat.{zero, suc}
use min_demo.Base.{
  ℕ, ◌+◌, ◌≡◌, refl, ap, sym, ◌∙◌, true, String, Option, some, List, [], ◌∷◌, ◌++◌, map, arith,
  take, drop, truthy, append-nil, append_assoc,
}
use min_demo.SfClient.Batch.{
  TaskInput, TaskFields, task_fields, Answer, created, failed, SubResponse, with_id, array,
  classify, BatchResult, Outcome, add_answer, sort_answers, applied, append_result,
}

-- A task is saved under an id, or denied with a message.
pub data Fate : Type 0 where
  saved : String → Fate
  denied : String → Fate

-- An id is not empty.
abbrev pub HasName : Fate → Type 0
HasName (saved id) = truthy id ≡ true
HasName (denied m) = Unit

abbrev pub told : Fate → Answer
told (saved id) = created id
told (denied m) = failed (some m)

-- The entry of the composite API for a fate: 201 with the id, or 400 with the error.
abbrev pub entry_of : Fate → SubResponse
entry_of (saved id) = record { http_status = 201; body = with_id id }
entry_of (denied m) = record { http_status = 400; body = array (some m) }

abbrev pub id_of : Fate → List String
id_of (saved id) = id ∷ []
id_of (denied m) = []

abbrev pub error_of : Fate → List (Option String)
error_of (saved id) = []
error_of (denied m) = some m ∷ []

abbrev pub task_of : Fate → TaskFields → List TaskFields
task_of (saved id) t = t ∷ []
task_of (denied m) t = []

-- What a list of tasks that starts at place `i` comes to, task by task.
abbrev pub collect : {B : Type 0} → (ℕ → TaskFields → List B) → ℕ → List TaskFields → List B
collect g i [] = []
collect g i (t ∷ ts) = g i t ++ collect g (i + 1) ts

pub collect-split :
    {B : Type 0} (g : ℕ → TaskFields → List B) (n i : ℕ) (xs : List TaskInput)
    → collect g i (map task_fields xs)
      ≡ collect g i (map task_fields (take n xs)) ++ collect g (i + n) (map task_fields (drop n xs))
collect-split g zero i xs = ap (λ k. collect g k (map task_fields xs)) (omega arith)
collect-split g (suc n) i [] = refl
collect-split g (suc n) i (x ∷ xs) =
    let step : (i + 1) + n ≡ i + suc n = omega arith in
    ap (λ zs. g i (task_fields x) ++ zs)
      (collect-split g n (i + 1) xs
        ∙ ap
            (λ k.
              collect g (i + 1) (map task_fields (take n xs))
              ++ collect g k (map task_fields (drop n xs)))
            step)
    ∙ sym (append_assoc (g i (task_fields x)) _ _)

module _ (fate : ℕ → TaskFields → Fate) where
  abbrev pub entries : ℕ → List TaskFields → List SubResponse
  entries i ts = collect (λ j t. entry_of (fate j t) ∷ []) i ts

  -- The result that reports the fates: the ids of those saved and the errors of those denied.
  abbrev pub report : ℕ → List TaskFields → BatchResult
  report i ts = record {
    records = collect (λ j t. id_of (fate j t)) i ts;
    errors = collect (λ j t. error_of (fate j t)) i ts;
  }

  -- The tasks that the CRM has saved.
  abbrev pub landed : ℕ → List TaskFields → List TaskFields
  landed i ts = collect (λ j t. task_of (fate j t) t) i ts

  -- The outcome that the fates make: each task is saved or denied once, and told so in order.
  abbrev pub FollowsFates : List TaskFields → Outcome → Type 0
  FollowsFates ts o = o ≡ record { result = some (report 0 ts); gained = landed 0 ts }

  sort-told :
      (f : Fate) (as' : List Answer) (r : BatchResult)
      → sort_answers as' ≡ r
      → sort_answers (told f ∷ as')
        ≡ record { records = id_of f ++ r.records; errors = error_of f ++ r.errors }
  unfolding sort_answers
  sort-told (saved id) as' r e = ap (add_answer (created id)) e
  sort-told (denied m) as' r e = ap (add_answer (failed (some m))) e

  classify-entry_of : (f : Fate) → HasName f → classify (entry_of f) ≡ told f
  unfolding classify
  classify-entry_of (saved id) h = rw h refl
  classify-entry_of (denied m) h = refl

  module _ (named : (i : ℕ) (t : TaskFields) → HasName (fate i t)) where
    -- The code reads the fates off the entries.
    pub sort_answers-entries :
        (i : ℕ) (ts : List TaskFields) → sort_answers (map classify (entries i ts)) ≡ report i ts
    unfolding sort_answers
    sort_answers-entries i [] = refl
    sort_answers-entries i (t ∷ ts) =
        ap (λ a. sort_answers (a ∷ map classify (entries (i + 1) ts)))
          (classify-entry_of (fate i t) (named i t))
        ∙ sort-told (fate i t) (map classify (entries (i + 1) ts)) (report (i + 1) ts)
            (sort_answers-entries (i + 1) ts)

  -- A result after that of the tasks before.
  abbrev pub outcome_after : BatchResult → List TaskFields → ℕ → List TaskFields → Outcome
  outcome_after acc gained i ts = record {
    result = some (append_result acc (report i ts));
    gained = gained ++ landed i ts;
  }

  pub outcome_after_none :
      (acc : BatchResult) (gained : List TaskFields) (i : ℕ)
      → record { result = some acc; gained = gained } ≡ outcome_after acc gained i []
  outcome_after_none acc gained i = simp append-nil

  -- A chunk, and what is left of the tasks behind it.
  pub outcome_after-split :
      (acc : BatchResult) (gained : List TaskFields) (n i : ℕ) (xs : List TaskInput)
      → outcome_after
          (append_result acc (report i (map task_fields (take n xs))))
          (gained ++ landed i (map task_fields (take n xs)))
          (i + n)
          (map task_fields (drop n xs))
        ≡ outcome_after acc gained i (map task_fields xs)
  outcome_after-split acc gained n i xs =
      rw
        (
          collect-split (λ j t. id_of (fate j t)) n i xs,
          collect-split (λ j t. error_of (fate j t)) n i xs,
          collect-split (λ j t. task_of (fate j t) t) n i xs,
        )
        (simp append_assoc)

  pub sort_answers-told :
      (i : ℕ) (ts : List TaskFields)
      → sort_answers (collect (λ j t. told (fate j t) ∷ []) i ts) ≡ report i ts
  unfolding sort_answers
  sort_answers-told i [] = refl
  sort_answers-told i (t ∷ ts) =
      sort-told (fate i t) (collect (λ j u. told (fate j u) ∷ []) (i + 1) ts) (report (i + 1) ts)
        (sort_answers-told (i + 1) ts)

  applied-cons :
      (f : Fate) (t : TaskFields) (ts us : List TaskFields) (as' : List Answer)
      → applied ts as' ≡ us
      → applied (t ∷ ts) (told f ∷ as') ≡ task_of f t ++ us
  unfolding applied
  applied-cons (saved id) t ts us as' e = ap (λ vs. t ∷ vs) e
  applied-cons (denied m) t ts us as' e = e

  pub applied-told :
      (i : ℕ) (ts : List TaskFields)
      → applied ts (collect (λ j t. told (fate j t) ∷ []) i ts) ≡ landed i ts
  unfolding applied
  applied-told i [] = refl
  applied-told i (t ∷ ts) =
      applied-cons (fate i t) t ts (landed (i + 1) ts)
        (collect (λ j u. told (fate j u) ∷ []) (i + 1) ts) (applied-told (i + 1) ts)
