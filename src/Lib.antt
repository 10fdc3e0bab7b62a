-- ===== src/Lib.antt =====
-- dev-bot, a bot that plans, implements and reviews GitHub issues from Discord threads: a model of the
-- parts of it that decide, and the theorems about them.
--
-- The program. A message in a Discord thread becomes a plan, the plan an issue, and the issue a work
-- item. The scheduler looks at the project board and submits the issues that are ready to the
-- orchestrator, which queues them and runs a limited number at a time. A run is the pipeline: planning
-- by a committee whose plan a quality gate passes or refuses, one or two candidate implementations, a
-- winner among them, a review whose findings are posted.
--
-- The parts and their files.
--   * app/orchestrator.py: Orchestrator. The object's fields are the record State; `enqueue`, `restore`
--     and the dispatcher's loop are functions on it (Orchestrator), the tasks and `drain` too
--     (Orchestrator.Tasks). asyncio runs one of them at a time between two suspension points; any order
--     of these steps is a term of Reach (Orchestrator.Steps). What the state store is told is the list
--     `calls`. The executor's result is an argument.
--   * app/issue_scheduler.py: Scheduler. The tests and the dispatch of one issue; a tick over the
--     issues and the runs that are restored (Scheduler.Tick). The store, the process
--     registry, GitHub and the settings are what the calls answered, as arguments; the orchestrator is
--     the model's own.
--   * app/planning/plan_quality_gate.py, committee.py and context_builder.py, with the plan of
--     app/contracts/artifact_models.py: Planning, Planning.Gate, Planning.Committee. The roles and the
--     merger are parameters that answer or raise.
--   * app/implementation/candidate_policy.py: Candidates. Scores are compared as lists of numbers. A
--     float is an abstract type with its test of order.
--   * app/pipeline.py, _winner_input, _select_candidate_result, _resolve_exact_tie_winner and what they
--     call: Candidates.Scoring, Candidates.Selection, Candidates.Tiebreak. The judge's answer is an
--     argument, the artifacts that are written are part of the result.
--   * app/pipeline.py, _build_scope_analysis, _protected_config_violations, _protected_config_policy,
--     _resolve_protected_config_allowlist and _issue_labels: ProtectedConfig, with a matcher for the patterns of
--     `fnmatch` in ProtectedConfig.Glob. What _extract_issue_body_allowlist and
--     _coerce_protected_config_allowlist parse is an argument.
--   * app/pipeline.py, _build_review_result, _build_repair_instructions, _max_review_severity,
--     _can_minor_repair_reuse, _can_fast_repair_reuse, _review_follow_up_failures, _repair_feedback_failures and
--     _resolve_candidate_ids: Repair.
--   * app/contracts/workflow_schema.py: Schema. The values that the YAML library gives, with Python's `str`, `bool`,
--     `int` and `float` of them, are in Schema.Yaml; a section is a record, its from_dict a function that returns or
--     raises (Schema.Planning, Schema.Implementation, Schema.Codex, Schema.Checks, Schema.Config). The text of a list
--     or a mapping, and the conversions into floats, are parameters. Schema.Use is what app/pipeline.py makes of a
--     configuration.
--   * app/workflow_loader.py: Loader. The cache of the last good definitions is a dict that each load is given and
--     returns; the file's text and `yaml.safe_load` are arguments.
--   * app/pipeline.py, execute_run with _finalize_failure, _promote_candidate_result, _cleanup_loser_workspaces and
--     _commit_and_push: Delivery. Each call that changes something is an Effect, the state is the list of the calls
--     that were made, and the world says for each of them whether it raises (Delivery.Effects). It puts together the
--     selection, the tie-break and the proof of work. The runs of the candidates are one call.
--   * app/review/orchestrator.py: Review. The four reviewers, the verifier and the ranker are parameters.
--   * app/discord_security.py: RateLimit and RateLimit.RepoName. The clock has an abstract type; the test
--     `now - t < window_seconds` is a parameter.
--   * app/approvals.py: Approvals. Futures are numbers whose states a list holds, the files of the store
--     are a dict. The waits themselves are asyncio's: what ends one is the step that answers or expires its
--     future, and Approvals.Steps has these steps and the other operations in any order. `str.lower` is a parameter (Approvals.Risk).
--   * app/proof_of_work.py: ProofOfWork. The workflow is given by what its two sections hold.
--   * app/chat_inputs.py: Chat, Chat.Inputs and Chat.Chunks.
--   * app/verification_profiles.py, and the methods of app/pipeline.py that run commands
--     (_workflow_commands, _normalize_required_checks, execute_workflow_commands, _command_result,
--     _classify_command_failure, _preflight_workflow_policy, _load_effective_workflow, _resolve_workflow,
--     _should_refresh_verification_plan): Verification, Verification.Scope,
--     Verification.Workflow and Verification.Execution. The shell is a parameter, which is told what was run
--     before; a run keeps the commands that the shell was given (`ran`). Verification.Guard puts them together: a plan, the commands made of it, and their run.
--   * app/state_store.py: StateStore and its child modules Keys, Files, Binding and Runs. The files are dicts keyed by
--     what names them; a method that may raise is an Action (Base.Action), whose state comes back after a
--     raise too. Times are arguments.
--   * app/process_registry.py: Processes. What the operating system answers is a parameter.
--   * Base: Python's dict, set, sort, join, strip and comparisons, a call that returns or raises, and
--     their laws.
--
-- Bounds and fuel. Counts, lengths and identifiers are natural numbers without a bound, as Python's
-- integers are; none of them is negative in the program. The loop of chunk_message runs on fuel, one more
-- than the length of the content: each round takes a character away. `show` prints a number on fuel above
-- the number, which each round divides; `int` reads such a text back (Base.Decimal). All else is by
-- recursion on the data.
--
-- Not modelled: the language models and their prompts, Discord's user interface, the processes of the
-- runners, git, GitHub's requests, files, logs and telemetry. They are I/O; where a modelled part depends
-- on an answer of theirs, that answer is an argument. Also not modelled: of the
-- state store the recorded failures, debug artifacts and listings; the run of a candidate, the abort of a run and
-- the payloads of the pipeline, the repository profiler, the interview, and the parsing of the events of the runners.
pub mod Base
pub mod Orchestrator
pub mod Planning
pub mod Candidates
pub mod RateLimit
pub mod Chat
pub mod Review
pub mod Scheduler
pub mod Approvals
pub mod ProofOfWork
pub mod Verification
pub mod StateStore
pub mod Processes
pub mod ProtectedConfig
pub mod Repair
pub mod Schema
pub mod Loader
pub mod Delivery
