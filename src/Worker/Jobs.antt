-- ===== src/Worker/Jobs.antt =====
-- ufoundry/worker.py: `_worker_loop` and the dispatch of `_process_job`. What a job's handler does
-- is an argument: none where it returns, else the text of the exception that leaves it. Between the
-- claim of a job and its end other workers and the gateway go on with the queue.
pub mod Served
use ufoundry.Base.{ℕ, Option, none, some, Text, codes, text_eq, ◌==◌, if◌then◌else◌}
use ufoundry.Storage.Queue.{JobRow, JobTable, complete_job, fail_job}

pub record JobHandlers (P : Type 0) : Type 0 where
  pub process_confirmation : P → Option Text
  pub resolve_orchestrator_approval : P → Option Text
  pub process_task_run : P → Option Text
  pub process_message : P → Option Text

module _ {P : Type 0} where
  -- `job_type` is payload["type"], if it is there.
  pub process_job : JobHandlers P → (P → Option Text) → P → Option Text
  process_job handlers job_type payload =
      let kind : Text = elim (job_type payload) [ none ↦ codes "message" | some t ↦ t ] in
      if kind == codes "confirm"
      then handlers.process_confirmation payload
      else if kind == codes "agent_approve"
      then handlers.resolve_orchestrator_approval payload
      else if kind == codes "task_run"
      then handlers.process_task_run payload
      else handlers.process_message payload

  -- The end of an iteration of the loop, for the job that it claimed.
  pub end_job : ℕ → JobRow P → Option Text → JobTable P → JobTable P
  end_job now job none table = complete_job now job.id table
  end_job now job (some e) table = fail_job now job.id e table

  -- From the job's payload to the end of the iteration.
  pub serve : JobHandlers P → (P → Option Text) → ℕ → JobRow P → JobTable P → JobTable P
  unfolding process_job end_job
  serve handlers job_type now job table =
      end_job now job (process_job handlers job_type job.payload) table
