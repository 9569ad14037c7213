-- ===== src/Lib.antt =====
-- Verification library of rick, an engine that runs workflows of AI and tool handlers by events. Each
-- workflow is an aggregate, rebuilt by folding its events and deciding on each new one; the engine loads
-- it, decides, appends what was decided to the event store and publishes it; a throttle limits how many
-- workflows run at once.
--
-- The program's parts and the files that model them (paths from the repository's root):
--   * internal/event/payload.go, internal/event/envelope.go: Event, with the payload records and the
--     envelope. An event's type and payload are one `Body`; a payload that is no valid JSON is `none`, and
--     reads as its zero value, as after an ignored error of json.Unmarshal, which checks the syntax
--     before it writes. Valid JSON of another shape than the type's is not modelled.
--   * internal/engine/workflow_def.go: Workflow. Workflow/Def has WorkflowDef, Workflow/Downstream has
--     DownstreamOf and PersonasToInvalidateFor, Workflow/Edit has WithoutHandler and
--     WithStaleReferenceSweep, Workflow/Builtin has the workflows of selectWorkflowDef in
--     internal/cli/run.go.
--   * internal/engine/aggregate.go: Aggregate. Aggregate/State has the aggregate, Aggregate/Apply has
--     Apply, one function for each kind of event, Aggregate/Decide has Decide, with a child for each
--     group of its handlers, Aggregate/Emit, Aggregate/Fingerprint and Aggregate/Float what they share.
--     Decide may change the aggregate in memory, so it returns the aggregate with the events.
--   * internal/engine/failure_classify.go, internal/backend/factory.go: Aggregate/Failure.
--   * internal/engine/throttle.go: Throttle, one function for each method of workflowThrottle, over any
--     WorkflowQueueStore of internal/eventstore/queue.go. Throttle/Table is the one of
--     internal/eventstore/sqlite.go, as rows in the order of enqueued_at.
--   * internal/engine/engine.go (tryProcessDecision) and internal/eventstore/sqlite.go (Append): Engine.
--     Append works on the table of all events and keeps its two constraints, unique ids and unique
--     versions of an aggregate. The engine decides on the loaded aggregate after the events that it tracks, and hands all of them
--     to Append with the version that it loaded. Engine/Loop has processDecision and
--     drainThrottleQueue over the throttle, where the call of tryProcessDecision, with its store and
--     bus, is an argument.
--   * internal/engine/fair_dispatcher.go: Fair. Each function is what a goroutine runs under the mutex
--     between two waits; a waiting goroutine is its waiter, and the operations follow each other in any
--     order.
--   * internal/engine/hook_registry.go: Hooks.
--   * internal/engine/workflow_resolver.go: Resolver, with the registered workflows and the cache of
--     correlations as two maps, and Resolver/Join with checkJoinCondition, a fold over the events that
--     the store has loaded. A handler is what its methods Name, Subscribes and Trigger return.
--   * internal/engine/persona_runner.go, internal/engine/dispatch_queues.go,
--     internal/engine/pause_controller.go: Runner. Runner/Seen has the idempotency cache, Runner/Queue
--     the priority queue, Runner/Pauses the pause controller, Runner/Admission wrap with the steps that
--     its comments number, RecoverDispatch, one round of the drain and the replay of blocked dispatches,
--     Runner/Advisory frontRunAdvisoryPause, Runner/Retry the subscription to WorkflowRetried,
--     Runner/Results the events of executeDispatch, with internal/engine/output_guard.go and
--     classifyDispatchFailure of internal/engine/failure_classify.go.
--   * internal/projection/workflow.go, internal/projection/tokens.go: Projection, each projection a fold
--     of its Handle over the events that the runner of internal/projection/projection.go fans out.
--
-- Parameters: strings.ToLower, SHA-256, the environment variable RICK_RATE_LIMIT_AUTOPAUSE, the order in
-- which a `range` visits a map (Aggregate/Runtime), fresh ids and the clock (Stamp), and the events that
-- the store loads of a correlation (an argument of checkJoinCondition and of what calls it). What
-- errors.Is finds in an error, and what the workspace's git status says, are in Runner/Results.
--
-- Fuel: the breadth-first search of Workflow/Downstream takes two more rounds than the graph has entries.
-- A handler is queued at most once, and only the entries' handlers are found, so that is enough; the
-- search is proved to return within it. processDecision and drainThrottleQueue call each other: each
-- round takes one workflow off the queue and none is put back, so one more round than the queue is long
-- is enough.
--
-- Numbers: counters, versions and times are natural numbers; a float64 is its bit pattern; captured
-- output is a list of bytes. A panic of a slice expression is the outcome `panic`. A text that
-- fmt.Sprintf makes is kept as its format with the arguments.
--
-- Not modelled: calls of the database that fail, other than by a conflict; loading the aggregate with its
-- snapshot and definition, the engine's channel, and the sweep that fails stalled workflows; of the
-- persona runner the calls of the handlers, hints, the subscriptions to started and ended workflows, and
-- handlers that register while it runs; recovery after a restart; the event bus; the timeline, verdict
-- and dwell projections; handlers, backends, the gRPC and MCP servers, and the clients of external
-- services. The limit of rounds that a resume raises is state in memory, which a reload sets back to the
-- definition's.
--
-- The tests in Examples run the definitions and apply the theorems to concrete workflows.
pub mod Prelude
pub mod Event
pub mod Workflow
pub mod Aggregate
pub mod Throttle
pub mod Engine
pub mod Fair
pub mod Hooks
pub mod Projection
pub mod Resolver
pub mod Runner
pub mod Examples
