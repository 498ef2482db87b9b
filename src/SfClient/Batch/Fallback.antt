-- ===== src/SfClient/Batch/Fallback.antt =====
-- The fallback of `createTasksBatch` of frontend/src/lib/sf-client.ts after a chunk has succeeded.
use Prim.Native.Nat.{suc}
use min_demo.Base.{
  ℕ, ◌+◌, ◌<◌, ◌≡◌, refl, ap, ◌∙◌, true, some, List, [], ◌∷◌, ◌++◌, map, arith, length,
  length-append, take, drop, take-append_left, drop-append_left, all,
}
use min_demo.SfClient.Batch.{
  TaskInput, TaskFields, task_fields, Answer, SubResponse, classify, Composite, not_ok, answered,
  BatchResult, composite_batch_size, append_result, no_result, sort_answers, applied,
  single_answers, create_tasks_sequential, fall_back, after_chunk, chunks_from, batch_of,
  create_tasks_batch, ids_ok,
}

module _ (single : ℕ → TaskFields → Answer) (composite : ℕ → List TaskFields → Composite) where
  -- One round of the loop, over the tasks that are left.
  round :
      (left : ℕ) (inputs : List TaskInput) (i : ℕ) (rest chunk later : List TaskInput)
      (acc : BatchResult) (gained : List TaskFields)
      → 0 < length rest
      → take composite_batch_size rest ≡ chunk
      → drop composite_batch_size rest ≡ later
      → chunks_from single composite (suc left) inputs i rest acc gained
        ≡ after_chunk single composite
            (chunks_from single composite left inputs (i + composite_batch_size) later)
            inputs
            acc
            gained
            (composite i (map task_fields chunk))
  unfolding chunks_from
  round left inputs i [] chunk later acc gained h p q = elim h [ ]
  round left inputs i (t ∷ rest) chunk later acc gained h p q = rw (← p, ← q) refl

  batch_of_many :
      (inputs : List TaskInput)
      → 1 < length inputs
      → batch_of single composite inputs
        ≡ chunks_from single composite (length inputs) inputs 0 inputs no_result []
  unfolding batch_of
  batch_of_many [] h = elim h [ ]
  batch_of_many (t ∷ []) h = absurd (omega arith)
  batch_of_many (t ∷ u ∷ ts) h = refl

  module _ (xs ys : List TaskInput) (as' : List SubResponse) (done : List TaskFields)
      (full : length xs ≡ 25) (more : 0 < length ys)
      (first : composite 0 (map task_fields xs) ≡ answered as' done)
      (second : composite 25 (map task_fields (take 25 ys)) ≡ not_ok) where
    rounds_left :
        (n : ℕ) → length (xs ++ ys) ≡ length xs + n → length (xs ++ ys) ≡ suc (suc (n + 23))
    rounds_left n h = omega arith

    two_rounds :
        (left : ℕ) (inputs : List TaskInput)
        → chunks_from single composite (suc (suc left)) inputs 0 (xs ++ ys) no_result []
          ≡ fall_back single composite inputs done
    two_rounds left inputs =
        round (suc left) inputs 0 (xs ++ ys) xs ys no_result [] (omega (arith, length-append xs ys))
          (take-append_left xs ys 25 full) (drop-append_left xs ys 25 full)
        ∙ rw first (
            unfold after_chunk in
            round left inputs 25 ys (take 25 ys) (drop 25 ys)
              (append_result no_result (sort_answers (map classify as'))) done more refl refl
            ∙ rw second refl)

    -- Where the first chunk of 25 is answered and the second call is refused as a whole, the
    -- fallback creates every input again, also those of the first chunk: what the CRM has gained
    -- from the first chunk stays, beside one create for each input, and the records that the first
    -- chunk gave are missing from the result.
    pub fallback_repeats :
        all ids_ok (xs ++ ys) ≡ true
        → create_tasks_batch single composite (xs ++ ys) ≡ record {
          result = some (sort_answers (single_answers single composite 0 (xs ++ ys)));
          gained =
              done
              ++ applied
                  (map task_fields (xs ++ ys))
                  (single_answers single composite 0 (xs ++ ys));
        }
    unfolding create_tasks_batch
    fallback_repeats ok = rw ok (
        batch_of_many (xs ++ ys) (omega (arith, length-append xs ys))
        ∙ ap (λ n. chunks_from single composite n (xs ++ ys) 0 (xs ++ ys) no_result [])
            (rounds_left (length ys) (length-append xs ys))
        ∙ two_rounds (length ys + 23) (xs ++ ys)
        ∙ unfold fall_back create_tasks_sequential in refl)
