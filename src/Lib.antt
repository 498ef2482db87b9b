-- ===== src/Lib.antt =====
-- Min, an assistant for financial advisors in front of a Salesforce CRM: the logic of its browser
-- client, of the proxy in front of its API routes, and of its Salesforce client.
--
-- The parts and their files.
--
-- Base: what the other modules share. Text is a list of UTF-16 code units where the code walks its
-- characters, and a native string elsewhere. Types and Stats: the records and unions of
-- frontend/src/lib/types.ts and frontend/src/lib/home-stats.ts that the other parts use; an
-- optional field is an Option.
--
-- App: frontend/src/lib/app-state.ts. `app_reducer` is `appReducer`, with every action; App/Hook
-- is the hook's `goTo`, `goBack`, `goHome` and `showToast` with `loadLastSession`, over a record
-- of the reducer's state, the time of the last navigation, the saved session and the deadline of
-- the toast timer; App/Loading is `loadStats`, as the actions that it dispatches for a reply of
-- the CRM. App/Navigation, App/Session and App/Loading have the theorems.
--
-- Proxy: frontend/src/proxy.ts. `check_rate_limit` threads the table `rateCounts`, `gate` is the
-- ladder of checks behind it, and `proxy` composes the two with the test of the path. A request is
-- the record of what the code reads of it. Proxy/Cleared has the conditions in words of their own,
-- Proxy/RateLimit and Proxy/Gate have the theorems.
--
-- SfClient: frontend/src/lib/sf-client.ts. SfClient/Ids is `isValidSalesforceId` and
-- `requireSalesforceId`; SfClient/Soql is `sanitizeSOQL`; SfClient/Fetch is the retry loop of
-- `sfFetch`, over a function that gives the answer of the network to each attempt; SfClient/Query
-- is `query` and `queryPaginated` on top of it, and SfClient/Batch is `createTasksBatch` and
-- `_createTasksSequential`, over functions that give the answer of the CRM to each call, with the
-- tasks that the CRM has gained as state. SfClient/Batch/Fates states what it is for these answers
-- to tell what the CRM did. SfClient/Records is `create`, `update` and `createContactsBatch` with
-- their requests.
--
-- Compliance: frontend/src/lib/compliance-engine.ts. `run_compliance_checks` makes the same checks
-- in the same order from a household's contacts and tasks, in Compliance/Identity,
-- Compliance/Documents, Compliance/Builtin, Compliance/ByType and Compliance/Run;
-- Compliance/Templates has the two tables. Compliance/Search, Compliance/Report and
-- Compliance/Overrides have the theorems.
--
-- Flow: frontend/src/app/flow/useFlowState.ts. `reducer` has every action of the account opening
-- flow; Flow/Steps is its navigation, Flow/Draft the draft in session storage and the effect that
-- writes it, Flow/Beneficiaries the effect that fills in beneficiaries (Flow/Designations has its
-- theorems), Flow/Banks the lookup of routing numbers with the tables of
-- frontend/src/lib/constants.ts, and the click on a bank of frontend/src/app/flow/FlowScreen.tsx,
-- and Flow/Progress the progress bar.
--
-- Workflow: frontend/src/lib/workflows.ts. Workflow/Templates is `WORKFLOW_TEMPLATES`; Workflow
-- has the marks that the engine writes into tasks and reads back, and Workflow/Engine is
-- `fireWorkflowTrigger`, over the household's tasks as state and a record of what the CRM answers.
-- A batch may leave tasks in the CRM a second time, as `createTasksBatch` does behind an
-- interrupted call.
--
-- SfCall: the browser's side of that client. SfCall/Csrf is frontend/src/lib/csrf.ts,
-- SfCall/Response is frontend/src/lib/sf-response.ts, and SfCall/Call is `callSF` of
-- frontend/src/lib/salesforce.ts, over functions that give the answer of the network to each
-- attempt and of the token route to each request; its state is the module's variables with the
-- posts made and the time waited. SfCall/Bits has the exclusive or of the comparison;
-- SfCall/Csrf/Validity, SfCall/Call/Growth, SfCall/Call/Verdicts and SfCall/Call/Rounds have the
-- theorems.
--
-- SfInput: frontend/src/lib/sf-validation.ts, the checks in front of the route's handlers.
-- SfInput/Json has the values, SfInput/Checks the helpers, SfInput/Inputs the validated inputs,
-- SfInput/Items, SfInput/Records and SfInput/Reads the validators; a thrown error is a result with
-- its message. SfInput/Contracts, SfInput/ListContracts and SfInput/ItemContracts carry what is
-- ensured along a chain of checks, and SfInput/Accepted, SfInput/Bounds and SfInput/Accepts have
-- the theorems.
--
-- Home: frontend/src/lib/home-stats.ts with frontend/src/lib/task-subjects.ts (Home/Subjects) and
-- frontend/src/lib/triage-config.ts (Home/Config). Home/Wording has the texts and the record of
-- what is needed of the platform, Home/Selection the filtered lists, Home/Insights and Home/Triage
-- the two queues, and Home/Build is `buildHomeStats`. Home/Selects, Home/Belongs,
-- Home/InsightScope, Home/Scope, Home/Order and Home/Counts have the theorems.
--
-- Format: frontend/src/lib/format.ts, the formatting of input fields and the validation of a
-- client, with Format/Digits, Format/Email and Format/Validation for the theorems.
--
-- Custodian: frontend/src/lib/custodian.ts, and frontend/src/lib/custodian-rules.ts:
-- Custodian/Rules has the shapes, Custodian/Schwab, Custodian/Fidelity and Custodian/Pershing the
-- tables, and Custodian/Lookup the lookups, with the theorems in its children.
--
-- How they interact: a screen of App opens Flow or Compliance; their calls pass Proxy and reach
-- SfInput and SfClient on the server, where the handlers fire Workflow; the browser makes them
-- through SfCall. The home screen of App shows what Home computes; Flow fills in the client that
-- Format validates. The models meet in the shared types; no state is shared beyond these.
--
-- Bounds and fuel. Times are natural numbers of milliseconds; a difference of times is written as
-- a sum on the other side. The retry loop runs on the three attempts that the code allows. The
-- loop over chunks runs on as many rounds as there are inputs, which is enough, since a round
-- takes 25 of them. The paging loop runs on fuel; one round more than there are pages is enough.
-- JSON is taken to give back what was written. `toLowerCase` is a parameter of which nothing is
-- assumed. The network and the CRM are parameters as well, and so are, in Home and Format, the
-- clock and the reading and printing of dates, and the rounded percentage, which the code computes
-- in floating point. App takes the statistics as a parameter too. `sort` is a stable insertion
-- sort (Base/Sort), whose result is the only one that a stable sort can give. The calls of
-- `callSF` run on three attempts, as many as the code allows. A number in a request is whole or
-- not finite. The query of the workflow engine gives all workflow tasks of a household: the 100
-- rows that its adapter asks for are taken to be enough. A single create that reports an error is
-- taken to have created nothing.
--
-- Not modelled: the screens but for the one handler named above, the API routes, DocuSign, PDF,
-- telemetry and logging, which are input and output; schema discovery, the manual mapping and the
-- adapters of other CRM systems; of the modelled files the connection check of the application
-- state, the browser storage of the compliance engine's settings, the reports of the workflow
-- engine, the search, the polling and the pipeline of calls of the flow, the printing of dates,
-- and calls of `callSF` that overlap.
pub mod Base
pub mod Types
pub mod Stats
pub mod App
pub mod Proxy
pub mod SfClient
pub mod Compliance
pub mod Flow
pub mod Custodian
pub mod Format
pub mod Home
pub mod SfCall
pub mod SfInput
pub mod Workflow
