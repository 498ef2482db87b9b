-- ===== src/SfClient/Batch/Laws.antt =====
-- What `createTasksBatch` of frontend/src/lib/sf-client.ts does where the composite call answers.
use Prim.Native.Nat.{zero, suc}
use min_demo.Base.{
  ℕ, ◌+◌, ◌≤◌, ◌≡◌, refl, ap, ◌∙◌, true, false, none, some, List, [], ◌∷◌, ◌++◌, map, arith, length,
  length-drop, take, drop, all, Bool-cases, inl, inr, ◌⊎◌,
}
use min_demo.SfClient.Batch.{
  TaskInput, TaskFields, task_fields, Answer, Composite, interrupted, not_ok, answered, BatchResult,
  Outcome, composite_batch_size, no_result, append_result, single_answers, create_tasks_sequential,
  after_chunk, chunks_from, batch_of, create_tasks_batch, ids_ok, fall_back,
}
use min_demo.SfClient.Batch.Fates.{
  Fate, told, HasName, entries, report, landed, collect, FollowsFates, sort_answers-entries,
  sort_answers-told, applied-told, outcome_after, outcome_after_none, outcome_after-split,
}

module _ (single : ℕ → TaskFields → Answer) (composite : ℕ → List TaskFields → Composite) where
  Total : Outcome → Type 0
  Total o = (r : BatchResult) × (o.result ≡ some r)

  after_chunk-Total :
      (go : BatchResult → List TaskFields → Outcome) (inputs : List TaskInput) (acc : BatchResult)
      (gained : List TaskFields) (c : Composite)
      → ((a : BatchResult) (g : List TaskFields) → Total (go a g))
      → Total (after_chunk single composite go inputs acc gained c)
  unfolding after_chunk fall_back create_tasks_sequential Total
  after_chunk-Total go inputs acc gained (interrupted done) h = (_, refl)
  after_chunk-Total go inputs acc gained not_ok h = (_, refl)
  after_chunk-Total go inputs acc gained (answered as' done) h = h _ _

  chunks_from-Total :
      (left : ℕ) (inputs : List TaskInput) (i : ℕ) (rest : List TaskInput) (acc : BatchResult)
      (gained : List TaskFields)
      → Total (chunks_from single composite left inputs i rest acc gained)
  unfolding chunks_from
  chunks_from-Total zero inputs i rest acc gained = unfold Total in (acc, refl)
  chunks_from-Total (suc left) inputs i [] acc gained = unfold Total in (acc, refl)
  chunks_from-Total (suc left) inputs i (t ∷ rest) acc gained =
      let chunk = map task_fields (take composite_batch_size (t ∷ rest)) in
      let later = drop composite_batch_size (t ∷ rest) in
      after_chunk-Total (chunks_from single composite left inputs (i + composite_batch_size) later)
        inputs acc gained (composite i chunk)
        (λ a g. chunks_from-Total left inputs (i + composite_batch_size) later a g)

  batch_of-Total :
      (inputs : List TaskInput)
      → (r : BatchResult) × ((batch_of single composite inputs).result ≡ some r)
  unfolding batch_of create_tasks_sequential Total
  batch_of-Total [] = (no_result, refl)
  batch_of-Total (t ∷ []) = (_, refl)
  batch_of-Total (t ∷ u ∷ ts) =
      chunks_from-Total (length (t ∷ u ∷ ts)) (t ∷ u ∷ ts) 0 (t ∷ u ∷ ts) no_result []

  -- What a create answers and what the composite API answers and does agree with the fates: with
  -- `allOrNone: false` each request of a call has an entry, and those saved are in the CRM.
  module _ (fate : ℕ → TaskFields → Fate) (named : (i : ℕ) (t : TaskFields) → HasName (fate i t))
      (honest_single : (i : ℕ) (t : TaskFields) → single i t ≡ told (fate i t))
      (honest_composite : (i : ℕ) (ts : List TaskFields)
        → composite i ts ≡ answered (entries fate i ts) (landed fate i ts)) where
    single_answers-told :
        (i : ℕ) (ts : List TaskInput)
        → single_answers single composite i ts
          ≡ collect (λ j t. told (fate j t) ∷ []) i (map task_fields ts)
    unfolding single_answers
    single_answers-told i [] = refl
    single_answers-told i (t ∷ ts) =
        ap (λ a. a ∷ single_answers single composite (i + 1) ts) (honest_single i (task_fields t))
        ∙ ap (λ as'. told (fate i (task_fields t)) ∷ as') (single_answers-told (i + 1) ts)

    sequential-FollowsFates :
        (inputs : List TaskInput)
        → FollowsFates fate
            (map task_fields inputs)
            (create_tasks_sequential single composite inputs)
    unfolding create_tasks_sequential
    sequential-FollowsFates inputs =
        rw
          (
            single_answers-told 0 inputs,
            sort_answers-told fate 0 (map task_fields inputs),
            applied-told fate 0 (map task_fields inputs),
          )
          refl

    chunks_from-outcome_after :
        (left : ℕ) (inputs : List TaskInput) (i : ℕ) (rest : List TaskInput) (acc : BatchResult)
        (gained : List TaskFields)
        → length rest ≤ left
        → chunks_from single composite left inputs i rest acc gained
          ≡ outcome_after fate acc gained i (map task_fields rest)
    unfolding chunks_from after_chunk
    chunks_from-outcome_after zero inputs i [] acc gained h = outcome_after_none fate acc gained i
    chunks_from-outcome_after zero inputs i (t ∷ rest) acc gained h = elim h [ ]
    chunks_from-outcome_after (suc left) inputs i [] acc gained h =
        outcome_after_none fate acc gained i
    chunks_from-outcome_after (suc left) inputs i (t ∷ rest) acc gained h =
        let chunk = map task_fields (take composite_batch_size (t ∷ rest)) in
        let later = drop composite_batch_size (t ∷ rest) in
        rw (honest_composite i chunk, sort_answers-entries fate named i chunk)
          (chunks_from-outcome_after left inputs (i + composite_batch_size) later
              (append_result acc (report fate i chunk)) (gained ++ landed fate i chunk)
              (omega (arith, length-drop composite_batch_size (t ∷ rest)))
            ∙ outcome_after-split fate acc gained composite_batch_size i (t ∷ rest))

    batch_of-FollowsFates :
        (inputs : List TaskInput)
        → FollowsFates fate (map task_fields inputs) (batch_of single composite inputs)
    unfolding batch_of
    batch_of-FollowsFates [] = refl
    batch_of-FollowsFates (t ∷ []) = sequential-FollowsFates (t ∷ [])
    batch_of-FollowsFates (t ∷ u ∷ ts) =
        chunks_from-outcome_after (length (t ∷ u ∷ ts)) (t ∷ u ∷ ts) 0 (t ∷ u ∷ ts) no_result []
          (omega arith)

    -- Where every id is valid and the answers tell what the CRM does with each task, which it saves
    -- under an id that is not empty or denies with a message: however many chunks there are, the
    -- result holds the ids of the saved tasks and the messages of the denied ones, each in the order
    -- of the inputs, and the CRM has gained exactly the saved tasks, once each.
    pub create_tasks_batch-FollowsFates :
        (inputs : List TaskInput)
        → all ids_ok inputs ≡ true
        → FollowsFates fate (map task_fields inputs) (create_tasks_batch single composite inputs)
    unfolding create_tasks_batch
    create_tasks_batch-FollowsFates inputs h = rw h (batch_of-FollowsFates inputs)

  -- One id that is not valid and the call throws before it has changed anything in the CRM; without
  -- one it has a result, whatever the CRM does.
  pub create_tasks_batch_valid :
      (inputs : List TaskInput)
      → ((all ids_ok inputs ≡ false)
          × (create_tasks_batch single composite inputs ≡ record { result = none; gained = [] }))
        ⊎ ((all ids_ok inputs ≡ true)
            × ((r : BatchResult) × ((create_tasks_batch single composite inputs).result ≡ some r)))
  unfolding create_tasks_batch
  create_tasks_batch_valid inputs = elim (Bool-cases (all ids_ok inputs)) [
    | inl ok ↦ inr (ok, rw ok (batch_of-Total inputs))
    | inr bad ↦ inl (bad, rw bad)
  ]
