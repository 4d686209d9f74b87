-- ===== src/Lib.antt =====
-- Doot: an agent that works on one git repository at the request of an operator.
--
-- The parts and how they interact. The operator's calls (submit a message, pause, resume, approve
-- or revise a plan) change the tables and start a worker. The worker loops over model turns: it
-- streams an answer with retries, stores it, executes the calls in it through a registry of
-- tools, stores a result for each, and lets the results of control tools change the run, the
-- board or the notes. A call of `done` ships the work if the gates on reviews let it. Every change
-- is stored as an event and published to the browsers through the hub. The project's service creates
-- the project and sets its sandbox up; the git tools commit and push in that sandbox, and the
-- settings give the model, the tokens and the setup their values.
--
-- Files, with the code that they model (paths from the repository's root):
--   Prelude            lists, tables as lists, Boolean tests, text as code points
--   Store/Schema       internal/store: the rows as records; Db is the whole database
--   Store/Query        transactions: Tx A is a function from a Db to a result; an error rolls back
--   Store/Run          internal/store/runs.go
--   Store/Board, Plan  internal/store/scratchpad.go: the board; the transactions on it
--   Store/Transcript   internal/store/{messages,history,events,toolcalls,conversation}.go
--   Store/Rows, Laws, Approval, Tasks, Clearing, Invariant, Safety
--                      what holds of the transactions
--   Events/Hub         internal/events/hub.go; Events/Delivery has its proofs
--   Model/Response     internal/model/model.go: Response, absorb; Model/Input: inputItems, params
--   Model/Stream       internal/model/model.go: the loop of Stream over the events of a call
--   Model/Conversation, Assembly, Answer
--                      proofs about the three
--   Tools/Result       internal/tools/tools.go; Tools/Control: plan.go, review.go
--   Tools/Registry     internal/tools/registry.go
--   Tools/Truncate     internal/tools/truncate.go; Tools/Ends, Clipping, Buffer: its proofs
--   Tools/Paths        internal/tools/paths.go; Tools/Containment, Shown: its proofs
--   Tools/Quote        internal/tools/tools.go: shellQuote, with its proof
--   Tools/Edit         internal/tools/write.go: edit_file; Tools/Matching, Editing: its proofs
--   Agent/State        internal/agent/agent.go: Service and its publications
--   Agent/Control      Submit, Pause, Resume, Recover, ApprovePlan, RevisePlan
--   Agent/Outside      what the model, the tools and the operator do, as parameters
--   Agent/Stream       streamWithRetry; Agent/Touched: uiTouched; Agent/Ship: ship
--   Agent/Apply        applyControl
--   Agent/Calls        executeCalls, pauseRun; Agent/Loop: run, advance, awaitError
--   Agent/Delta        deltaBatch, beside the loop; Agent/Deltas: its proofs
--   Agent/History      sequences of steps of the whole service
--   Agent/Gates, Turns, Retry, Safety, Atomic, Worker
--                      proofs about the runner
--   Tools/Read         internal/tools/read.go: read_file; Tools/Splitting, Pages: its proofs
--   Tools/Diff         internal/tools/diff.go
--   Web/Session        internal/web/session/session.go; Web/Decimal, Tokens: its proofs
--   Web/Sse            internal/web/sse.go; Web/Reader: how a browser reads it, Frames: its proofs
--   Agent/Reviewer     internal/agent/review.go; Agent/Verdicts: its proofs
--   Config             internal/store/appconfig.go: Fields, Values (a snapshot, the form), Cache (the
--                      cached snapshot, the writers, the first start)
--   Config/Coherence, Form, Seeds
--                      proofs about the settings
--   Sandbox            internal/sandbox/sandbox.go: commands, their results, and all that was asked
--   Tools/Commands     internal/tools/git.go: the commands and texts of the git tools
--   Tools/Git          internal/tools/git.go: git_diff, git_commit, git_push; Tools/Gitting: its proofs
--   Tools/Shell, Jobs  internal/tools/shell.go: the scripts; bash_bg, stop_bg; Tools/Marking,
--                      Stopping: its proofs
--   Tools/Github       internal/tools/git.go: create_pr; Tools/Remotes, Requests: its proofs
--   Project/Rows       internal/store/project.go; Project/Single: its proofs
--   Project/Background internal/store/background.go; Project/Names: its proofs
--   Project/Service    internal/project/service.go; Project/Lifecycle, Attempts: its proofs
--   Project/Goal       internal/project/service.go: SyncGoalStart; Project/Synced: its proofs
--   Project/Steps      internal/project/provision.go: the log, the commands and the state of a setup
--   Project/Provision  internal/project/provision.go: its steps; Project/Setup: its proofs
--   Tests              runs on sample data
--
-- State. A function `f(ctx, ...) (T, error)` of the store is a `Tx T`, and one of the service is
-- a `Proc T`, which keeps what it did when it ends in an error. Tables are lists with the newest
-- row first; `serial` gives the keys, and the clock `now` the timestamps. The partial unique
-- index on the active run of a project is the test in `insert_run`, by `indexed_in`. Strings that the code only
-- compares are `String`, those that it takes apart are lists of code points, or of bytes where
-- the code counts bytes. JSON is held decoded, and what decodes or encodes it is a parameter.
--
-- Bounds and fuel. `stream_with_retry` makes at most four attempts, so its recursion is on three
-- retries. `run_loop` takes fuel, one unit a round: a run goes on for as long as the model asks for
-- tools, so no fuel is enough for every model, and the theorems about it hold for every fuel.
-- A review makes at most 24 model calls, so the recursion of `review_loop` is on the calls that are
-- left, and `retry_sandbox` is on its four attempts.
-- A message buffer of the hub holds 512 frames, as in the code.
--
-- Interleavings. The mutex of the settings' cache makes each of its methods one step, and a query
-- and a commit are one step each, so `config_run` takes the steps of any number of readers and
-- writers in any order. `project_run` and `process_run` take the calls of the store in any order.
--
-- Not modelled: the interface reviewer and the prompts (internal/agent/{uireview,prompt}.go), the
-- tools for the network and screenshots, bash, write_file, list_dir, search and read_logs
-- (internal/tools), the providers of sandboxes, the users and the migrations, the web handlers
-- and their templates, and the HTTP client of the model. The runner meets reviewers and tools as
-- parameters, and so does a tool its sandbox and GitHub. In the project's service a write that
-- the database refuses is left out. In the store, the prefixes that fmt.Errorf adds to an error
-- are left out, as is the context of a request, but for the cancellation of a worker: a call that
-- the code ends with the error of its context ends with that of a cancellation. The foreign keys of
-- the tables are left out. ReadySandbox writes the status of a sandbox also when a worker's tools
-- need one; that write is left out of the worker's turns, where no other step reads it, and is
-- a step of ApprovePlan, with the status as a parameter.
pub mod Prelude
pub mod Store
pub mod Events
pub mod Model
pub mod Tools
pub mod Agent
pub mod Config
pub mod Sandbox
pub mod Project
pub mod Web
mod Tests
