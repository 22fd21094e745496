-- ===== src/Agents/Team/Executor.antt =====
-- ufoundry/agents/team_executor.py: `TeamExecutor.execute`, with `_capability_preflight_error` and
-- `_build_repair_task`. The work of an attempt, the verification command, SHA-256 and `json.dumps`
-- are arguments; each call of the first two gets the number of the attempt. `log` is what the
-- executor writes to the database and to its listeners, whose exceptions are not modelled.
pub mod Attempts
use ufoundry.Base.{
  ℕ, zero, suc, ◌+◌, Bool, true, false, not, ◌&&◌, ◌||◌, ◌==◌, Option, none, some, List, [], ◌∷◌,
  ◌++◌, Text, codes, text_eq, if◌then◌else◌, decimal, is_empty, strip, take, filter, map, contains,
  Dict, lookup, store, without,
}
use ufoundry.Agents.Team.Telemetry.{AgentEvent, ShellItem, Telemetry, items_of, record_events}
use ufoundry.Agents.Team.Contract.{
  Status, completed, failed, Judged, RetryPolicy, Team, Json, Payload, is_structured, is_visible,
  completion_contract_error, render_blocked_contract_reply, effective_retry_policy,
  apply_completion_policy,
}
use ufoundry.Agents.Team.Snapshot.{Snapshot, build_failure_snapshot}

-- How the work of an attempt ends: the text of the exception that it raises, or its reply, its
-- attachments and the events of its agents.
pub data Attempt (F : Type 0) : Type 0 where
  raised : Text → Attempt F
  replied : Text → List F → List AgentEvent → Attempt F

pub data Act : Type 0 where
  run_created : Act
  started : Act
  blocked_preflight : Act
  verified : Text → Bool → Act
  retrying : ℕ → Act
  run_completed : Status → Act
  emitted : Status → Act

-- `capability_preflight`, where it is a dictionary that is not empty.
pub record Preflight : Type 0 where
  pub ok : Bool
  pub missing_patterns : List Text
  pub capabilities_without_tools : List Text

pub record Outside (F J : Type 0) : Type 0 where
  pub json : Json J
  pub structured : ℕ → Text → Attempt F
  pub orchestrated : ℕ → Text → Attempt F
  pub verify : ℕ → Text → Bool × Text
  pub fingerprint : List Text → List Text → Text
  pub dump_snapshot : Snapshot J → Text

-- The variables of the loop, and the executor's telemetry.
pub record Progress (F : Type 0) : Type 0 where
  pub attempt : ℕ
  pub task : Text
  pub seen : List Text
  pub attachments : List F
  pub telemetry : Telemetry
  pub log : List Act

-- How the loop ends: `error` is the exception that `execute` raises again.
pub record Ended (F : Type 0) : Type 0 where
  pub status : Status
  pub reply : Text
  pub error : Option Text
  pub last : Progress F

abbrev pub note : {F : Type 0} → Act → Progress F → Progress F
note act p = record p { log = p.log ++ (act ∷ []) }

unfoldable pub is_completed : Status → Bool
is_completed completed = true
is_completed failed = false

module _ {F J : Type 0} (outside : Outside F J) where
  unfoldable pub capability_preflight_error : Preflight → Text
  capability_preflight_error preflight =
      let blockers =
        map (λ (i : Text). codes "missing_capability:" ++ i)
          (filter is_visible preflight.missing_patterns)
        ++ map (λ (i : Text). codes "missing_tool_for_capability:" ++ i)
            (filter is_visible preflight.capabilities_without_tools) in
      codes "Team capability preflight failed.\n\n```team_result\n"
      ++ (outside.json.dumps (record {
        status = codes "blocked";
        evidence = codes "Team capability preflight failed before execution." ∷ [];
        blockers = if is_empty blockers then codes "missing_capability:unknown" ∷ [] else blockers;
        failed_commands = [];
        mitigations =
            codes "Install/enable required MCP tools and restart/reload gateway."
            ∷ codes "Add matching tools to team.tool_pool or member tool_allowlist."
            ∷ codes "Adjust required_capabilities patterns to match available capabilities."
            ∷ [];
      })
          ++ codes "\n```\n")

  unfoldable pub build_repair_task : Text → Text → Snapshot J → ℕ → ℕ → Text
  build_repair_task original_task previous_reply snapshot attempt max_retries =
      codes "Retry attempt "
      ++ (decimal attempt
          ++ (codes "/"
              ++ (decimal max_retries
                  ++ (codes
                        ".\n\nYou are in self-healing mode. Follow this generic loop strictly:\n1) Diagnose the root cause from concrete command failures.\n2) Apply the smallest patch that addresses that root cause.\n3) Re-run the failing command(s).\n4) Re-run full verification gates before claiming completion.\n5) If still blocked, emit exact blockers with failed commands and mitigations.\n\nFailure telemetry from previous attempt:\n"
                      ++ (outside.dump_snapshot snapshot
                          ++ (codes "\n\nPrevious final reply:\n"
                              ++ (previous_reply
                                  ++ (codes "\n\nOriginal user request:\n"
                                      ++ (original_task ++ codes "\n")))))))))

  module _ (team : Team) (run_id original_task : Text) where
    -- The work of an attempt, by the type of the team.
    abbrev pub work : Progress F → Attempt F
    work p =
        if is_structured team
        then outside.structured p.attempt p.task
        else outside.orchestrated p.attempt p.task

    abbrev pub shell_items : Progress F → List ShellItem
    shell_items p = items_of (lookup run_id p.telemetry)

    -- What an attempt that replied leaves.
    unfoldable pub received : Progress F → List F → List AgentEvent → Progress F
    received p attachments events = record p {
      attachments = p.attachments ++ attachments;
      telemetry = record_events events p.telemetry;
    }

    -- The completion policy, and the verification command of the team where it passes.
    unfoldable pub judge : Progress F → Text → Judged × Progress F
    judge p reply =
        let command = strip team.verification_command in
        let verdict =
          apply_completion_policy outside.json team (effective_retry_policy team) (shell_items p)
            reply in
        let (ok, output) = outside.verify p.attempt command in
        let p1 = note (verified command ok) p in
        if is_completed verdict.0 && not (is_empty command)
        then (if ok then (verdict, p1) else (
          (
            failed,
            render_blocked_contract_reply outside.json
                (codes "Team-level verification command failed." ∷ [])
                (codes "verification_command_failed" ∷ []) (command ∷ [])
                (codes "Fix the issue reported by the verification command and retry."
                  ∷ (codes "Verification output: " ++ take 300 output)
                  ∷ []),
          ),
          p1,
        ))
        else (verdict, p)

    -- The next attempt behind a failure with the fingerprint `print`.
    unfoldable pub retry : Progress F → Text → Progress F
    retry p reply =
        let snapshot = build_failure_snapshot outside.json (shell_items p) reply in
        let max_retries = (effective_retry_policy team).max_retries in
        record (note (retrying (p.attempt + 1)) p) {
          attempt = p.attempt + 1;
          seen = outside.fingerprint snapshot.failed_commands snapshot.failure_categories ∷ p.seen;
          telemetry = store run_id [] p.telemetry;
          task = build_repair_task original_task reply snapshot (p.attempt + 1) max_retries;
        }

    -- Whether the failure is one that was retried before.
    unfoldable pub is_repeated : Progress F → Text → Bool
    is_repeated p reply =
        let snapshot = build_failure_snapshot outside.json (shell_items p) reply in
        contains p.seen (outside.fingerprint snapshot.failed_commands snapshot.failure_categories)

    unfoldable pub stop : Judged × Progress F → Ended F
    stop ((status, reply), p) = record { status = status; reply = reply; error = none; last = p }

    unfoldable pub stop_repeated : Progress F → Ended F
    stop_repeated p = record {
      status = failed;
      reply =
          completion_contract_error
            (codes "Retry loop detected repeated blocker fingerprint; no forward progress.");
      error = none;
      last = p;
    }

    unfoldable pub abort : Text → Progress F → Ended F
    abort error p = record {
      status = failed;
      reply =
          render_blocked_contract_reply outside.json
            (codes "Team execution aborted due to unhandled exception." ∷ [])
            (codes "team_execution_exception" ∷ []) [] (error ∷ []);
      error = some error;
      last = p;
    }

    -- The loop, with `left` retries left, which is max_retries - attempt.
    unfoldable pub attempt_loop : ℕ → Progress F → Ended F
    unfolding received judge retry is_repeated stop stop_repeated abort
    attempt_loop zero p = elim (work p) [
      | raised error ↦ abort error p
      | replied reply attachments events ↦ stop (judge (received p attachments events) reply)
    ]
    attempt_loop (suc left) p = elim (work p) [
      | raised error ↦ abort error p
      | replied reply attachments events ↦
          let judged = judge (received p attachments events) reply in
          let again = attempt_loop left (retry judged.1 judged.0.1) in
          if is_completed judged.0.0 || is_structured team
          then stop judged
          else if is_repeated judged.1 judged.0.1
          then stop_repeated judged.1
          else again
    ]

    unfoldable pub begin : Telemetry → Progress F
    begin telemetry = record {
      attempt = 0;
      task = original_task;
      seen = [];
      attachments = [];
      telemetry = store run_id [] telemetry;
      log = run_created ∷ started ∷ [];
    }

    -- The end of a run: its telemetry goes, its status is stored and announced.
    unfoldable pub close : Ended F → Ended F
    close e = record e {
      last = note (emitted e.status) (
          note (run_completed e.status)
            (record e.last { telemetry = without run_id e.last.telemetry }));
    }

    -- A failed preflight ends the run before any attempt.
    unfoldable pub refuse_preflight : Preflight → Telemetry → Ended F
    refuse_preflight preflight telemetry = record {
      status = failed;
      reply = capability_preflight_error preflight;
      error = none;
      last = record {
        attempt = 0;
        task = original_task;
        seen = [];
        attachments = [];
        telemetry = telemetry;
        log =
            run_created ∷ started ∷ blocked_preflight ∷ run_completed failed ∷ emitted failed ∷ [];
      };
    }

    abbrev pub is_blocked : Option Preflight → Bool
    is_blocked none = false
    is_blocked (some preflight) = not preflight.ok

    unfoldable pub execute : Option Preflight → Telemetry → Ended F
    unfolding attempt_loop begin close refuse_preflight
    execute preflight telemetry = elim preflight [
      | some report ↦
          if report.ok
          then close (attempt_loop (effective_retry_policy team).max_retries (begin telemetry))
          else refuse_preflight report telemetry
      | none ↦ close (attempt_loop (effective_retry_policy team).max_retries (begin telemetry))
    ]
