-- ===== src/Lib.antt =====
-- The Python service of ufoundry: an assistant that answers messages with a language model and
-- tools, guarded by configurable policies, and that can hand work to teams of agents.
--
-- The parts and their files. The gateway routes the messages of the connectors and puts jobs into
-- the queue, from which the worker takes them. A request of the model to call a tool meets the
-- worker's guards one after the other: those on Gmail's tools, the declarative rules, the access
-- layer, the check of the address, and the guard of tool calls. Agents call the model and tools
-- in a loop, and teams run agents.
-- + Base: what all parts share: Python's texts as lists of code points, dictionaries as
--   association lists in order of insertion, lists, stable sorting, fnmatch, integers.
-- + Policy/Rules (ufoundry/policy/rules.py): `_compile_rules`, `_matches`, `decide_tool`,
--   `decide_intent` and `filter_tools_for_context` of DeclarativePolicyEngine. Policy/Engine
--   (ufoundry/policy/engine.py): `evaluate`, `request_confirmation` and `consume_confirmation` of
--   PolicyEngine on its table of pending confirmations.
-- + Tools/Registry (ufoundry/tools/registry.py): ToolRegistry.
-- + Security/Policy (ufoundry/security/policy.py): roles and `evaluate` of SecurityPolicy.
--   Security/Ssrf (ufoundry/security/ssrf.py): `check_ssrf`, with addresses as numbers.
-- + Llm/RateLimiter (ufoundry/llm/rate_limiter.py): TokenBucket. Its loop runs on fuel; as many
--   rounds as the window holds entries, and one more, are enough. Llm/Scheduler
--   (ufoundry/llm/scheduler.py): LLMScheduler as a step relation, with its retries.
-- + Agents/Trim and Agents/Agent (ufoundry/agents/agent.py): `_trim_messages` and the loop of
--   SpawnedAgent, by recursion on the iterations that are left. Agents/Team
--   (ufoundry/agents/team_executor.py): Telemetry, Contract (the completion policy), Snapshot,
--   Executor (the loop of `execute`, by recursion on the retries that are left) and Members
--   (`_run_structured_team`).
-- + Agents/Orchestrator (ufoundry/agents/orchestrator.py): the loop of DynamicOrchestrator, by
--   recursion on the iterations that are left, and its tools `spawn_agent`, `send_update` and
--   `request_approval`.
-- + Agents/TeamRegistry (ufoundry/agents/team_registry.py): `_prepare_team_for_runtime` and the
--   resolution of the capabilities that a team requires.
-- + Tools/Workspace (ufoundry/tools/workspace.py): workspaces, `enforce_path` and the access
--   list. A resolved path is the list of its parts. Security/Masking
--   (ufoundry/security/masking.py): `mask_secrets`.
-- + Tasks/Schedule (ufoundry/tasks/schedule.py): when a task runs next. Times on the wall clock
--   are microseconds since the midnight before some Monday, instants microseconds since some
--   moment. Tasks/Parser (ufoundry/tasks/parser.py): the commands that create tasks, with the
--   regular expressions in Tasks/Parser/Matching. Tasks/Poller (ufoundry/scheduler.py): a round of
--   TaskScheduler.
-- + Worker (ufoundry/worker.py): Jobs (`_worker_loop` and `_process_job` over the queue), Inbox
--   (with ufoundry/intent.py: the intent of a listener's message; the object that failed detections
--   share is passed on), Gate (the guards of a tool call in `_process_message`), Turn (the tools
--   that are offered and the loop over tool calls), Approval
--   (`_should_auto_approve_tool_confirmation` and `_is_auto_approve_shell_command_allowed`)
--   AgentGuard (`_build_agent_tool_guard`) TaskRun (`_process_task_run` over the tables of tasks)
--   Confirmation (`_process_confirmation`) AgentReply (`request_approval` of
--   `_run_with_orchestrator`, and `resolve_orchestrator_approval`) and Commands
--   (`_handle_control_task_commands`). Worker/Arguments holds what the guards read of a call's
--   JSON.
-- + Gateway/Panels (ufoundry/control_panel/manager.py): the owner's panels. Gateway/Router
--   (ufoundry/router.py): MessageRouter. Gateway/Events (ufoundry/gateway.py): `_on_ws_event` and
--   `reload` of Gateway, over the policy engines that the router and the worker refer to, the
--   sessions and the queue. Security/PiiFilter (ufoundry/security/pii_filter.py): `filter_pii`.
-- + Storage/Queue (ufoundry/storage/db.py): the table `queue_jobs` with its four operations. A
--   table is the list of its rows in the order of their ids (Storage/Rows); its operations hold the
--   database's lock, so a run is a sequence. Storage/Tasks: the tables `tasks` and `task_runs`,
--   from `create_task` to `release_task_lease`. Storage/Sessions: the tables of sessions, messages
--   and attachments.
-- + Connectors/Resilience (ufoundry/connectors/telegram_resilience.py): CircuitBreaker, an
--   iteration of `_wait_for_slot`, the ceiling of `backoff_delay`.
--
-- What is an argument: the language model, the handlers of tools, the guard of an agent,
-- jsonschema, JSON, SHA-256, tokens of `secrets`, URL parsing, name resolution, the parsing of
-- addresses, pathlib's resolution of paths, the substitutions of `re`, verification commands, and
-- the shortening of tool output (`compress_tool_output` of ufoundry/llm/base.py), whatever it
-- does. Clocks are natural numbers; the database compares times as texts in ISO format, which
-- agrees but for an instant with no microseconds. `lower` and `upper` are those of ASCII, as are
-- digits, letters and words in regular expressions.
--
-- What is not modelled: logging, the payloads of events, exceptions of listeners, of the database
-- and of urlparse, the cancelling of tasks, and the parts that move data (connectors, web
-- sockets, the other tables, command line, the server of the control panel) or load files
-- (skills, configuration).
pub mod Base
pub mod Policy
pub mod Tools
pub mod Security
pub mod Llm
pub mod Agents
pub mod Worker
pub mod Storage
pub mod Connectors
pub mod Tasks
pub mod Gateway
