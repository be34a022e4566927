-- ===== src/Lib.antt =====
-- OperaIA.lab: an office of digital employees. Objectives become missions in a queue, a worker
-- claims missions and settles them, signals from outside may become missions, and an
-- orchestration engine drives an objective through cycles of planning and execution.
--
-- The parts that are modelled:
--
-- * Queue (Queue.antt and Queue/): the mission queue of apps/api/src/modules/runtime,
--   mission-queue.ts with mission-states.ts, worker-liveness.ts and mission-result-store.ts. The
--   tables of packages/database/prisma/schema.prisma are lists of rows (Queue/Model, Queue/Rows).
--   Prisma is not part of the repository: it is the record PrismaClient of Queue/Client, whose
--   laws say which rows a query finds and which an update writes, and Queue/InMemory is one
--   client that keeps the laws. The raw query of claim is a condition and an order (Queue/Claim);
--   its answer is computed from them (run_select of Queue/Client, Queue/Select) over rows that are
--   scanned in any order. Its transaction may reject, and an edge may break a foreign key. A method is a function of the tables that returns or throws
--   (Queue/Monad); what it wrote before it throws stays written. enqueue is in Queue/Enqueue
--   (its contract, resolveEnqueueContract, in Queue/Contract), claim in Queue/Claim,
--   markWaiting, complete, fail, linkDependency and promoteReadyDependents in Queue/Settle,
--   completeConsolidation and maybeEnqueueConsolidation in Queue/Consolidate, the recoveries of
--   a restart in Queue/Recovery, and the stored results in Queue/Results.
--   Queue/Lifecycle is the abstract state machine of a mission row. Queue/Refinement relates the
--   methods to it, with one rule for each construct of a method;
--   Queue/Lifecycle/WellFormed and Queue/Lifecycle/Leases hold its invariants, Queue/Fencing the
--   exclusion of a spent lease, and Queue/System sequences of calls.
--
-- * Orchestration (Orchestration.antt and Orchestration/): packages/orchestration-engine. The
--   policies are in Orchestration/Policies, OrchestrationLoop in Orchestration/Loop and
--   OrchestrationEngine in Orchestration/Engine. The ports (runtime, execution engine, state
--   store, event publisher, clock, timer and abort signal) are the record Ports of
--   Orchestration/Effects over a world that each call may change; a call of the first four may
--   reject. Orchestration/Meets is a total-correctness logic for these steps, in which a step
--   that runs out of fuel meets no condition; Orchestration/Termination uses it for a run.
--
-- * Signals (Signals.antt and Signals/): packages/domain-signals, the transitions of lifecycle.ts
--   with the records (Signals/Model), the store in memory (Signals/Store) and DomainSignalService
--   (Signals/Service). Signals/Status says how a signal may change, Signals/System follows it
--   through sequences of calls, and Signals/Delivery is about a delivery that comes twice.
--   BridgeRegistry is in Signals/Registry, and Signals/Registered is about the bridges it holds.
--
-- * Actions (Actions.antt and Actions/): packages/action-runtime, the permissions of ActionPolicy
--   (Actions/Policy), the ledger in memory (Actions/Ledger) and ActionExecutor (Actions/Executor),
--   whose adapters and scope act on a world outside; the policy and the scope may throw.
--   Actions/Records follows the record of one execution,
--   and Actions/Audit is about what an execution leaves.
--
-- * Execution (Execution.antt and Execution/): packages/execution-engine. The plan, its actions,
--   results and logs are in Execution/Model; ExecutionEngine, with the validation of a plan, the
--   registry of executors and the policies, is in Execution/Engine, over a world that each call of
--   a port may change. Execution/Plan is about the validation, Execution/Status about the status
--   of a report, Execution/Report follows an execution action by action, and
--   Execution/Refusal is about a plan that is not valid.
--
-- * Supervisor (Supervisor.antt and Supervisor/): apps/api/src/modules/runtime/supervisor. The
--   latches of coordination, InMemoryCoordinationLatchStore, are in Supervisor/Latch. The
--   dispatcher collects requests from the scans (Supervisor/Requests), writes and reads the tag of
--   an objective (Supervisor/Objective) and asks the queue to enqueue (Supervisor/Dispatcher); the
--   latches and the queue's world are its state. Supervisor/Exclusion and Supervisor/Reclaim are
--   about sequences of calls of the store, Supervisor/Dispatch and Supervisor/Cycle about a
--   dispatch, Supervisor/Keys and Supervisor/Tags about texts. RecoveryCoordinator is in
--   Supervisor/Recovery, and Supervisor/Recovered is about its report; PolicyEngine with the
--   default policies is in Supervisor/PolicyEngine, and Supervisor/Asked is about what they ask.
--
-- * Health (Health.antt and Health/): packages/operational-health. The rules over measured values
--   are in Health/Rules, where a ratio is a fraction; the alerts and their bus in Health/Alerts,
--   OperationalHealthService in Health/Service, FailurePolicy in Health/Policy and
--   OperationalMaintenance in Health/Maintenance. Health/Levels is about the status of a
--   snapshot, Health/Publishing about its alerts, Health/Isolation about a non-critical operation
--   and Health/Steps about the steps of maintenance.
--
-- * Tools (Tools.antt and Tools/): ToolPermissionPolicy of packages/tool-runtime, in
--   Tools/Permissions; Tools/Granted is about the tools of an employee.
--
-- How the parts interact: the supervisor's dispatcher and recovery call the queue through a port,
-- as the code does through its interface MissionQueuePort; the orchestration calls the execution
-- engine through its port.
--
-- Common/Objects has the look-up of a key in an object that is used as a dictionary, where a key
-- of Object.prototype is found too.
--
-- Common and Json are shared: Boolean tests, lists over the native numbers, texts, numbers in a
-- text, the difference of two times, and JSON values. Common/Effects has the steps that read and
-- write a state and return or throw, with a logic for what holds where they end; the execution
-- engine, the supervisor and the failure policy are written with it.
--
-- Bounds and fuel. Dates are times in milliseconds, and numbers that the code keeps at 0 or
-- above are natural numbers; the difference of two times may be negative. The two loops of the
-- orchestration, `for (;;)` in run and in withRetry, take fuel: run may use one unit more than
-- maxCycles, since the stop policy stops there, and withRetry one unit more than the failures
-- after which the retry policy gives up. A number is written with as much fuel as its value, which
-- is at least the number of its digits. Every other loop is over a list.
--
-- Not modelled: what happens between two statements of one queue method when two processes run at
-- once, where each query of Prisma is atomic but the method is not; rejections of Prisma other than
-- those of the transaction of claim and of the foreign keys of an edge; the payloads of events; the
-- loggers; the Prisma store of the latches and the scans of the supervisor; redactPayload and
-- computeSignalHash, which are parameters of the signals; the Prisma store of the signals; and the
-- other packages, the HTTP routes and the web application.
pub mod Common
pub mod Json
pub mod Queue
pub mod Orchestration
pub mod Signals
pub mod Actions
pub mod Execution
pub mod Health
pub mod Supervisor
pub mod Tools
