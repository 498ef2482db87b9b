-- ===== src/SfClient/Tests.antt =====
-- The Salesforce client at concrete inputs.
use min_demo.Base.{
  ◌==◌, Bool-cases, inl, inr, ℕ, ◌≡◌, refl, ◌↔◌, ◌⊎◌, true, false, not, String, Option, none, some,
  List, [], ◌∷◌, ◌++◌, map, arith, Text, units, length, replicate, filter, all, ltb, if◌then◌else◌,
  str_eq, zero, suc, All-replicate,
}
use min_demo.SfClient.Ids.{
  str, is_valid_salesforce_id, IsSalesforceId, is_valid_salesforce_id_iff, is_alnum, eat,
}
use min_demo.SfClient.Soql.{
  escape_chain, sanitize_soql, quote, is_control, strip_controls, replace_char,
}
use min_demo.SfClient.Soql.Escape.{
  escape_all, escape_one, is_special, unescape, escape_chain-eq-escape_all, unescape-escape_chain,
}
use min_demo.SfClient.Soql.Literal.{
  close_literal, sanitize_soql_contained, sanitize_soql_runs_on, IsPlain,
}
use min_demo.SfClient.Fetch.{
  Attempt, response, fetched, sf_fetch, sf_fetch_cases, is_decisive, EndsAt,
}
use min_demo.SfClient.Query.{Body, found, other as no_error, query}
use min_demo.SfClient.Query.Paging.{Serves, last, more, gather, query_served}
use min_demo.SfClient.Batch.{
  TaskInput, TaskFields, task_fields, Answer, created, SubResponse, with_id, Composite, answered,
  not_ok, BatchResult, ids_ok, create_tasks_batch, sort_answers, applied, classify, single_answers,
}
use min_demo.SfClient.Batch.Fates.{
  Fate, saved, denied, told, collect, task_of, entries, HasName, FollowsFates,
}
use min_demo.SfClient.Batch.Laws.{create_tasks_batch-FollowsFates, create_tasks_batch_valid}
use min_demo.SfClient.Batch.Fallback.{fallback_repeats}

abbrev an_id : Text
an_id = units "001000000000001"

is_valid_salesforce_id_iff_example :
    (is_valid_salesforce_id (str an_id) ≡ true) ↔ IsSalesforceId (str an_id)
is_valid_salesforce_id_iff_example = is_valid_salesforce_id_iff (str an_id)

id_tests :
    (is_valid_salesforce_id (str (units "00T1234567890ABCDE")) ≡ true)
    × (is_valid_salesforce_id (str (units "0010000000000011")) ≡ false)
    × (is_valid_salesforce_id (str (units "001-000-000-000")) ≡ false)
unfolding is_valid_salesforce_id is_alnum eat
id_tests = (refl, refl, refl)

abbrev hostile : Text
hostile = units "O'Brien_100% \\"

escape_chain-eq-escape_all_example : escape_chain hostile ≡ escape_all hostile
escape_chain-eq-escape_all_example = escape_chain-eq-escape_all hostile

unescape-escape_chain_example :
    unescape false (escape_chain hostile) ≡ filter (λ c. not (is_control c)) hostile
unescape-escape_chain_example = unescape-escape_chain hostile

sanitize_hostile : sanitize_soql (str hostile) ≡ units "O\\'Brien\\_100\\% \\\\"
unfolding sanitize_soql escape_chain strip_controls replace_char
sanitize_hostile = refl

sanitize_soql_contained_example :
    close_literal false (sanitize_soql (str hostile) ++ quote ∷ units " LIMIT 1")
    ≡ some (units " LIMIT 1")
unfolding escape_all escape_one is_special
sanitize_soql_contained_example = sanitize_soql_contained hostile (units " LIMIT 1") (omega arith)

abbrev long_name : Text
long_name = replicate 199 b'a'

sanitize_soql_runs_on_example :
    close_literal false (sanitize_soql (str (long_name ++ quote ∷ [])) ++ quote ∷ units " LIMIT 1")
    ≡ close_literal false (units " LIMIT 1")
unfolding is_special
sanitize_soql_runs_on_example =
    sanitize_soql_runs_on long_name [] (units " LIMIT 1") quote
      (All-replicate IsPlain 199 b'a' (refl, refl)) refl refl

-- Two busy answers, then a good one.
abbrev flaky : ℕ → Attempt String
flaky n = if ltb n 2 then response 503 "busy" else response 200 "done"

sf_fetch_cases_example :
    ((is_decisive (flaky 0) ≡ true) × EndsAt flaky 0 0)
    ⊎ (((is_decisive (flaky 0) ≡ false) × (is_decisive (flaky 1) ≡ true) × EndsAt flaky 1 500)
        ⊎ ((is_decisive (flaky 0) ≡ false) × (is_decisive (flaky 1) ≡ false) × EndsAt flaky 2 1500))
sf_fetch_cases_example = sf_fetch_cases flaky

sf_fetch-flaky : ((sf_fetch flaky).outcome ≡ fetched 200 "done") × ((sf_fetch flaky).waited ≡ 1500)
unfolding sf_fetch
sf_fetch-flaky = (refl, refl)

abbrev second_page : Body ℕ
second_page = record {
  records = some (3 ∷ []);
  total_size = some 3;
  is_done = some true;
  next_records_url = none;
  error_view = no_error;
}

abbrev first_page : Body ℕ
first_page = record {
  records = some (1 ∷ 2 ∷ []);
  total_size = some 3;
  is_done = some false;
  next_records_url = some "/next";
  error_view = no_error;
}

abbrev two_pages : String → ℕ → Attempt (Option (Body ℕ))
two_pages url n = response 200 (some (if str_eq url "/next" then second_page else first_page))

served : Serves two_pages first_page ((3 ∷ []) ∷ [])
unfolding sf_fetch
served = more "/next" 200 second_page refl refl refl (last refl)

query_served_example : query two_pages 2 "/q" ≡ some (found (gather (1 ∷ 2 ∷ []) ((3 ∷ []) ∷ [])))
unfolding sf_fetch
query_served_example =
    query_served two_pages 2 "/q" 200 first_page ((3 ∷ []) ∷ []) refl refl served (omega arith)

abbrev a_task : TaskInput
a_task = record {
  subject = "Call";
  household_id = an_id;
  status = none;
  priority = none;
  description = none;
  contact_id = none;
  activity_date = none;
}

abbrev create_always : ℕ → TaskFields → Answer
create_always i t = created "00T000000000001"

abbrev yes_sub : TaskFields → SubResponse
yes_sub t = record { http_status = 201; body = with_id "00T000000000002" }

-- The second of three tasks is refused, the others are created.
abbrev three_fates : ℕ → TaskFields → Fate
three_fates i t = if i == 1 then denied "Invalid subject" else saved "00T000000000001"

abbrev three_singly : ℕ → TaskFields → Answer
three_singly i t = told (three_fates i t)

abbrev three_together : ℕ → List TaskFields → Composite
three_together i ts =
    answered (entries three_fates i ts) (collect (λ j t. task_of (three_fates j t) t) i ts)

three_fates-named : (i : ℕ) (t : TaskFields) → HasName (three_fates i t)
three_fates-named i t = elim (Bool-cases (i == 1)) [ inl e ↦ rw e tt | inr e ↦ rw e refl ]

abbrev three : List TaskInput
three = a_task ∷ a_task ∷ a_task ∷ []

create_tasks_batch-FollowsFates_example :
    FollowsFates three_fates
      (map task_fields three)
      (create_tasks_batch three_singly three_together three)
unfolding ids_ok is_valid_salesforce_id is_alnum eat
create_tasks_batch-FollowsFates_example =
    create_tasks_batch-FollowsFates three_singly three_together three_fates three_fates-named
      (λ i t. refl) (λ i ts. refl) three refl

create_tasks_batch_valid_example :
    ((all ids_ok three ≡ false)
      × (create_tasks_batch three_singly three_together three
          ≡ record { result = none; gained = [] }))
    ⊎ ((all ids_ok three ≡ true)
        × ((r : BatchResult) × ((create_tasks_batch three_singly three_together three).result
              ≡ some r)))
create_tasks_batch_valid_example = create_tasks_batch_valid three_singly three_together three

-- The first call is answered, the second refused.
abbrev answer_first : ℕ → List TaskFields → Composite
answer_first zero ts = answered (map yes_sub ts) ts
answer_first (suc i) ts = not_ok

abbrev many : List TaskInput
many = replicate 25 a_task

fallback_repeats_example :
    create_tasks_batch create_always answer_first (many ++ a_task ∷ []) ≡ record {
      result =
          some (sort_answers (single_answers create_always answer_first 0 (many ++ a_task ∷ [])));
      gained =
          map task_fields many
          ++ applied
              (map task_fields (many ++ a_task ∷ []))
              (single_answers create_always answer_first 0 (many ++ a_task ∷ []));
    }
unfolding ids_ok is_valid_salesforce_id is_alnum eat
fallback_repeats_example =
    fallback_repeats create_always answer_first many (a_task ∷ [])
      (map yes_sub (map task_fields many)) (map task_fields many) refl (omega arith) refl refl refl

-- 26 tasks are asked for, and the CRM has 51 of them.
fallback_repeats_count :
    length (create_tasks_batch create_always answer_first (many ++ a_task ∷ [])).gained ≡ 51
unfolding create_tasks_batch ids_ok is_valid_salesforce_id is_alnum eat classify applied
    single_answers
fallback_repeats_count = refl
