-- ===== src/Lib.antt =====
-- incidentpilot: an incident agent that investigates, patches in a sandbox and, after a human
-- decision, opens a pull request. Runs wait in a table; workers lease them, walk the graph of
-- agent/graph.py, call tools through one gateway, and a worker's writes are fenced by its lease.
-- Paths below are under src/incidentpilot.
--
-- The library, by part of the program:
--   Enums          models/enums.py: statuses, terminal statuses, run_transitions.
--   Json           the dicts, lists and scalars that the code passes around.
--   Store          models/db.py: a record per table row. Store/Rows and Store/Keeps hold the lemmas
--                  on updates of a table that every operation shares.
--   Jobs           persistence/jobs.py: claim_next_run, renew_lease, release_claim, retry_claim,
--                  expire_exhausted_runs; Jobs/Admission has create_incident_and_run.
--   Ownership      persistence/ownership.py: fence.
--   Artifacts      services/artifacts.py: validated_artifact, binding.
--   Services       services/incidents.py: mark_running, mark_status, decide.
--   System         the operations above, and what agent/graph.py writes into the runs by itself
--                  (Agent/Progress), as steps of one relation on the shared tables.
--   ApprovalResume agent/approval_resume.py: resume_after_approval; Loading is its first part.
--   Tools          tools/data.py (Redaction), tools/sql_guard.py (SqlGuard) and tools/gateway.py
--                  (Input is _validate_input, Gateway the budget, the audit log, call and
--                  classify_tool_error).
--   Agent          agent/evidence.py (Evidence) and agent/graph.py: State is AgentState and the
--                  schemas of llm/schemas.py, Investigation the nodes that collect (Collect),
--                  hypothesize and verify (Verify), Patching the nodes that patch, test and export,
--                  Persisted the storing of the exported artifact. Reasoning is
--                  agent/reasoning.py.
--   Executor       agent/executor.py: execute, resume, _halt, approved_decision and what calls them.
--   Worker         worker.py: _heartbeat (Heartbeat), run (Polling) and _execute_claim (Steps)
--                  with _resume_or_execute (Resuming).
--   Sandbox        sandbox/manager.py: Paths, Patch (patch_paths, apply_patch) and Workspace
--                  (creating and destroying it; Testing is the docker or local command).
--   Github         github/integration.py: the pull request, on a remote repository that changes.
--   Access         api/auth.py: roles, resource access and bearer tokens.
--   Api            api/app.py: the handlers that create, read and decide, over Access and Services.
--                  Replies, Approving and Creating hold its proofs.
--   Base           helpers: tests, lists as tables, exceptions as values, stateful code that raises.
--   Examples       the theorems at concrete inputs.
--
-- A table is a list of rows and a transaction a function to the new tables; a refusal leaves them. A
-- time is a number of microseconds that an argument gives. An exception is a value of Result; code
-- that commits before it raises is an Exec, which hands the state back beside the exception. Hashes,
-- regular expressions, JSON printing, tool handlers, the decision model, the sandbox and GitHub are
-- arguments where another part calls them; Sandbox and Github model two of these, over a file list and
-- over the REST calls of a remote repository. In the resume, GitHub's call may change all tables, since
-- other workers run meanwhile.
--
-- Loops: the retries of a tool call recurse on the number of attempts left; the collecting loop of an
-- investigation recurses on the steps that the budget leaves, of which each round records one; polling
-- recurses on the free places of the worker, and the heartbeat on the list of its rounds.
--
-- Not modelled: HTTP routing and the views of responses, the language model's prompts, processes and
-- containers, the removal of a container after its tests, sessions, metrics, spans, negative and
-- fractional numbers inside JSON values (a number is a natural one throughout), files that are no
-- UTF-8 text, the checkpoints of the graph library, the timestamps of evidence.
mod Base
pub mod Enums
pub mod Json
pub mod Store
pub mod Jobs
pub mod Ownership
pub mod Artifacts
pub mod Services
pub mod System
pub mod ApprovalResume
pub mod Tools
pub mod Agent
pub mod Access
pub mod Executor
pub mod Worker
pub mod Sandbox
pub mod Github
pub mod Api
mod Examples
