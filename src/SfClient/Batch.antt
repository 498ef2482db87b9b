-- ===== src/SfClient/Batch.antt =====
-- `createTask` and `createTasksBatch` of frontend/src/lib/sf-client.ts, over the list of
-- tasks that the CRM holds. What the CRM does with a request is the section's parameter.
pub mod Fates
pub mod Laws
pub mod Fallback
use Prim.Native.Nat.{zero, suc}
use min_demo.Base.{
  ℕ, ◌+◌, Bool, true, false, not, ◌&&◌, ◌||◌, String, Option, none, some, List, [], ◌∷◌, ◌++◌, map,
  Text, units, length, take, drop, leb, ltb, if◌then◌else◌, get_or_else, all, present, truthy,
}
use min_demo.SfClient.Ids.{Value, str, is_valid_salesforce_id}
use min_demo.SfClient.Query.{is_ok}

pub data TaskStatus : Type 0 where
  completed not_started in_progress : TaskStatus

pub data TaskPriority : Type 0 where
  high normal low : TaskPriority

pub record TaskInput : Type 0 where
  pub subject : String
  pub household_id : Text
  pub status : Option TaskStatus
  pub priority : Option TaskPriority
  pub description : Option String
  pub contact_id : Option Text
  pub activity_date : Option String

-- The fields of the CRM's task. `description` is `none` where the code writes the time of the
-- call into it.
pub record TaskFields : Type 0 where
  pub subject : String
  pub what_id : Text
  pub who_id : Option Text
  pub status : TaskStatus
  pub priority : TaskPriority
  pub activity_date : Option String
  pub description : Option String

-- `s || undefined` of an optional text.
abbrev nonempty : Option String → Option String
nonempty o = if present o then o else none

abbrev nonempty_text : Option Text → Option Text
nonempty_text none = none
nonempty_text (some []) = none
nonempty_text (some (c ∷ s)) = some (c ∷ s)

abbrev pub task_fields : TaskInput → TaskFields
task_fields i = record {
  subject = i.subject;
  what_id = i.household_id;
  who_id = nonempty_text i.contact_id;
  status = get_or_else i.status completed;
  priority = get_or_else i.priority normal;
  activity_date = nonempty i.activity_date;
  description = nonempty i.description;
}

-- Whether both ids of an input pass `requireSalesforceId`; an empty contact is not looked at.
abbrev contact_ok : Option Text → Bool
contact_ok none = true
contact_ok (some []) = true
contact_ok (some (c ∷ s)) = is_valid_salesforce_id (str (c ∷ s))

unfoldable pub ids_ok : TaskInput → Bool
ids_ok i = is_valid_salesforce_id (str i.household_id) && contact_ok i.contact_id

-- The answer to one create: the new record's id, or the message of the error, if there is one.
pub data Answer : Type 0 where
  created : String → Answer
  failed : Option String → Answer

-- An entry of `compositeResponse`: its status, and a body with an id, an array with the message of
-- its first entry, or an object with a message.
pub data SubBody : Type 0 where
  with_id : String → SubBody
  array : Option String → SubBody
  object : Option String → SubBody

pub record SubResponse : Type 0 where
  pub http_status : ℕ
  pub body : SubBody

abbrev message_of : SubBody → Option String
message_of (with_id id) = some "Create failed"
message_of (array m) = m
message_of (object m) = some (if present m then get_or_else m "" else "Create failed")

abbrev answer_of : ℕ → SubBody → Answer
answer_of status (with_id id) =
    if is_ok status && truthy id then created id else failed (message_of (with_id id))
answer_of status body = failed (message_of body)

unfoldable pub classify : SubResponse → Answer
classify s = answer_of s.http_status s.body

-- The answer to one composite call: an exception, with the tasks that the CRM had created by then;
-- a status that is not `ok`; or entries for the requests, with the tasks that the CRM has created.
-- What the CRM did is its own: nothing is read off the entries.
pub data Composite : Type 0 where
  interrupted : List TaskFields → Composite
  not_ok : Composite
  answered : List SubResponse → List TaskFields → Composite

pub record BatchResult : Type 0 where
  pub records : List String
  pub errors : List (Option String)

-- A result, or the validation error, with the tasks that the CRM has gained.
pub record Outcome : Type 0 where
  pub result : Option BatchResult
  pub gained : List TaskFields

abbrev pub composite_batch_size : ℕ
composite_batch_size = 25

abbrev pub add_answer : Answer → BatchResult → BatchResult
add_answer (created id) r = record r { records = id ∷ r.records }
add_answer (failed message) r = record r { errors = message ∷ r.errors }

abbrev pub no_result : BatchResult
no_result = record { records = []; errors = [] }

-- The records and the errors of a list of answers, each in order.
unfoldable pub sort_answers : List Answer → BatchResult
sort_answers [] = no_result
sort_answers (a ∷ as') = add_answer a (sort_answers as')

abbrev keep : Answer → TaskFields → List TaskFields → List TaskFields
keep (created id) t ts = t ∷ ts
keep (failed message) t ts = ts

-- The tasks of single creates that answer with a record; a single create that reports an error is
-- taken to have created nothing.
unfoldable pub applied : List TaskFields → List Answer → List TaskFields
applied [] as' = []
applied (t ∷ ts) [] = []
applied (t ∷ ts) (a ∷ as') = keep a t (applied ts as')

abbrev pub append_result : BatchResult → BatchResult → BatchResult
append_result a b = record { records = a.records ++ b.records; errors = a.errors ++ b.errors }

-- `single i t` answers the create of the task `t` at place `i`; `composite c ts` answers the
-- composite call for the chunk that starts at place `c`.
module _ (single : ℕ → TaskFields → Answer) (composite : ℕ → List TaskFields → Composite) where
  -- `Promise.allSettled` over `createTask`, whose ids are valid here.
  unfoldable pub single_answers : ℕ → List TaskInput → List Answer
  single_answers i [] = []
  single_answers i (t ∷ ts) = single i (task_fields t) ∷ single_answers (i + 1) ts

  pub create_tasks_sequential : List TaskInput → Outcome
  create_tasks_sequential inputs =
      let answers = single_answers 0 inputs in
      record {
        result = some (sort_answers answers);
        gained = applied (map task_fields inputs) answers;
      }

  -- The fallback of the loop, with what the chunks before it have left in the CRM.
  fall_back : List TaskInput → List TaskFields → Outcome
  fall_back inputs gained =
      let o = create_tasks_sequential inputs in record o { gained = gained ++ o.gained }

  -- One chunk, by its answer; `go` is the rest of the loop.
  after_chunk :
      (BatchResult → List TaskFields → Outcome)
      → List TaskInput
      → BatchResult
      → List TaskFields
      → Composite
      → Outcome
  after_chunk go inputs acc gained (interrupted done) = fall_back inputs (gained ++ done)
  after_chunk go inputs acc gained not_ok = fall_back inputs gained
  after_chunk go inputs acc gained (answered as' done) =
      go (append_result acc (sort_answers (map classify as'))) (gained ++ done)

  -- The loop over the chunks of 25, with the chunks left.
  chunks_from : ℕ → List TaskInput → ℕ → List TaskInput → BatchResult → List TaskFields → Outcome
  chunks_from zero inputs i rest acc gained = record { result = some acc; gained = gained }
  chunks_from (suc left) inputs i [] acc gained = record { result = some acc; gained = gained }
  chunks_from (suc left) inputs i (t ∷ rest) acc gained =
      let chunk = map task_fields (take composite_batch_size (t ∷ rest)) in
      after_chunk
        (chunks_from left inputs (i + composite_batch_size) (drop composite_batch_size (t ∷ rest)))
        inputs acc gained (composite i chunk)

  batch_of : List TaskInput → Outcome
  batch_of [] = record { result = some no_result; gained = [] }
  batch_of (t ∷ []) = create_tasks_sequential (t ∷ [])
  batch_of (t ∷ u ∷ ts) = chunks_from (length (t ∷ u ∷ ts)) (t ∷ u ∷ ts) 0 (t ∷ u ∷ ts) no_result []

  -- Every id is checked before the first call.
  unfoldable pub create_tasks_batch : List TaskInput → Outcome
  unfolding batch_of chunks_from after_chunk fall_back create_tasks_sequential
  create_tasks_batch inputs =
      if all ids_ok inputs then batch_of inputs else record { result = none; gained = [] }
