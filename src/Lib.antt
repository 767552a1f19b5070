-- ===== src/Lib.antt =====
-- A verification library for urateam, a service that turns labelled issues into pull requests with
-- coding agents. It follows packages/core/src, where the decisions are made.
--
-- The parts, and how they interact. An issue is routed to a pipeline by its labels (Pipeline.Router),
-- its run is stopped by signals from outside (Pipeline.StopSignals), and its pushes go through a
-- queue (Pipeline.Queue) and a lock on the branch (Pipeline.BranchLock). Before a pull request leaves
-- draft, the policy gates decide (Policy), which match changed files against globs (Glob) and check
-- reviews on GitHub. A stage goes on with the agent session of its run or starts afresh (Executor).
-- Automerge checks reviews and checks again and asks GitHub to merge, and branches that are left over
-- are swept (Repo). The PM agent moves issues from the backlog to Todo, within its slots, while the
-- budgets are not used up and unless the issue fails again and again, starts those in Todo, takes back
-- those that are stuck, acts on what was approved in Slack, and tells of budgets (Pm). The release
-- manager tags what has been merged (Release): its tick retries what is left, collects the state,
-- decides, and acts.
-- The dashboard guards its actions by sessions (Auth) and roles (Rbac).
--
-- The files, by the source they follow:
--   Glob          packages/core/src/util/glob.ts: matchesAnyPattern is `matches_any_pattern`. The chain
--                 of replace calls is `compile`, by way of `tokens` and one function for each later
--                 call; RegExp.test is `run`. The proofs are in Glob.Shapes, on what Glob.Compile and
--                 Glob.Passes say of the chain, Glob.Language of `run`, and Glob.Words of patterns
--                 with no `**`.
--   Policy        packages/core/src/policy: Policy.Gates (path-gate.ts, cost-gate.ts, override.ts),
--                 Policy.Evaluate (evaluate.ts: evaluatePolicyGates is `evaluate_policy_gates`), and
--                 Policy.Reviewers (reviewer-gate.ts, the state is the team cache). The proofs are
--                 in Policy.Blocklist, Policy.Decision, Policy.AuditTrail, Policy.LastReviews and
--                 Policy.Approvals.
--   Rbac          packages/core/src/rbac: Rbac.Matrix (matrix.ts) and Rbac.Store (user-role-store.ts,
--                 the state is the table of users). The proofs are in Rbac.Access, Rbac.LastAdmin
--                 and Rbac.Outcomes.
--   Pipeline      packages/core/src/pipeline: Pipeline.Queue (queue.ts), Pipeline.BranchLock
--                 (distributed-lock.ts), Pipeline.Router (router.ts), Pipeline.StopSignals
--                 (control-signals.ts) and Pipeline.Terminate (terminate.ts), each with its proofs in
--                 modules below it.
--                 Pipeline.Automerge (automerge.ts) is checked against the answers of GitHub.
--   Repo          packages/core/src/repo: Repo.PullRequests (github.ts: the approval count, the check
--                 results and the merge call) and Repo.BranchSweep (agent-branch-sweep.ts: the sweep).
--   Auth          packages/core/src/auth: Auth.Sessions (session-store.ts) and Auth.Users
--                 (user-store.ts), on tables of rows; Auth.Timestamps is crossTimestamp of
--                 packages/core/src/db/schema.ts.
--   Executor      packages/core/src/executor: Executor.Sessions (session-policy.ts, session-store.ts and
--                 session-resolver.ts). The proofs are in Executor.Resume.
--   Pm            packages/core/src/pm: Pm.Budget (budget.ts: evaluateBudget is `evaluate_budget`) with
--                 the percentage in Pm.Percent, Pm.Runs (actions/db-queries.ts, on the rows of the runs),
--                 Pm.Breaker (actions/select-probe-candidates.ts and circuit-breaker-config.ts, the
--                 state is the table of the breaker, with the statements of promote.ts and
--                 recover-circuit-breaker.ts that insert and delete its rows), Pm.Promote with
--                 Pm.StateMap (actions/promote.ts), Pm.StartTodo
--                 (actions/start-todo.ts and select-repo-config.ts), Pm.RecoverStuck
--                 (actions/recover-stuck.ts, the state is the table of runs), Pm.Approvals
--                 (actions/resolve-approvals.ts, the state is the table of approvals) and Pm.Alerts
--                 (budget-alerts.ts, the state is the table of alerts), and Pm.Coordination
--                 (coordination.ts, the state is the table of active work). The proofs are in the modules
--                 below each; Pm.Alerts.Refinement has the specification of the alerts as a set.
--   Release       packages/core/src/release-manager: Release.Triggers (triggers.ts), Release.Decide
--                 (decide.ts), Release.Versioning (versioning.ts) and Release.State (state.ts, the state
--                 is the two tables), Release.Ledger (release-helpers.ts, what is written to the
--                 tables), and Release.Tick with Release.Tick.Cycle (release-tick.ts and github.ts:
--                 sweepFirePendingRows is `sweep_fire_pending_rows`, tick is `tick`). The proofs are
--                 in Release.Firing, Release.Versioning.Bumps, Release.Versioning.RoundTrip,
--                 Release.State.Checks, Release.Tick.Outcomes and Release.Tick.ManualTags.
--   Prelude       Shared names, Boolean tests, and the lists, maps and text functions of the language.
--   Tests         The theorems at concrete inputs, and runs of the definitions.
--
-- How the program is modelled. Mutable state is passed explicitly; a table is a list of rows, and a
-- transaction that throws leaves it unchanged. A call that throws returns `none` or an error. What
-- GitHub, Linear, the database lock and the clock answer are arguments, and so is whether the role
-- feature is licensed. Code between two `await`s is one step: the queue is a step relation
-- over all interleavings. Audit events are part of the result, in order, but for
-- those of the PM agent and of the release tick, which are left out, as log lines are. Time is in milliseconds.
--
-- Bounds. The loop of withBranchLock runs on fuel, one unit for an attempt. Each sleep lasts 250 ms or
-- ends at the deadline, so `attempts` (one for each 250 ms of the timeout, and two) is enough. `show`
-- prints a number with fuel that its value bounds. The percentage of a budget rounds as a double does;
-- the shift that brings a quotient to 53 bits runs on fuel 106, as two numbers below 2 ^ 53 are at most
-- 105 bits apart.
-- All other functions are structural.
--
-- Limits. Case folding and trimming cover ASCII. A glob works on UTF-16 code units, as a regular
-- expression without the u flag does, and `.` stops at line terminators. Numbers are unbounded, where
-- the source has integers in a double; durations are compared in milliseconds where the source divides.
-- Stop listeners are assumed not to call back into control-signals.ts. The reasons of a release
-- decision are constructors with the numbers that the texts show. A tag that is no standard version
-- is refused, where the source reads what it can from it. Among rows of equal time a query takes the
-- first. During one tick, a question to GitHub or Linear has one answer; the texts that the tick and
-- the promotion write to Slack and Linear are left out. Stored files of active work that parse to
-- something other than a list, which no code here writes, are left out. Not modelled: the runner itself,
-- the other actions of the PM agent (triage, commands, the sweeps, the order of its tick), the agent
-- stream of the executor,
-- webhooks, costs and audit storage; services, the agent SDK, SQL and rendering are outside.
pub mod Prelude
pub mod Auth
pub mod Executor
pub mod Glob
pub mod Pipeline
pub mod Pm
pub mod Policy
pub mod Rbac
pub mod Release
pub mod Repo
pub mod Tests
