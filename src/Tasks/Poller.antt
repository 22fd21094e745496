-- ===== src/Tasks/Poller.antt =====
-- ufoundry/scheduler.py: one round of TaskScheduler's loop, which puts due tasks into the queue of
-- jobs. The loop's sleep and stop are asyncio's.
pub mod Once
use ufoundry.Base.{ℕ, List, [], ◌∷◌, ◌++◌, Text, codes, decimal}
use ufoundry.Storage.Queue.{JobTable, enqueue_job}
use ufoundry.Storage.Tasks.{TaskRow, TaskTables, lease_due_tasks}

module _ {P J : Type 0} (task_run : ℕ → J) where
  unfoldable pub enqueue_tasks : ℕ → List (TaskRow P) → JobTable J → JobTable J
  enqueue_tasks now [] jobs = jobs
  enqueue_tasks now (task ∷ tasks) jobs =
      enqueue_tasks now tasks
        (enqueue_job now (codes "task:" ++ decimal task.id) (codes "system") (task_run task.id)
          jobs).1

  -- `lease` is the time one minute later.
  unfoldable pub poll : ℕ → ℕ → TaskTables P × JobTable J → TaskTables P × JobTable J
  unfolding enqueue_tasks
  poll now lease (tables, jobs) =
      let (due, after) = lease_due_tasks now lease 20 tables in (after, enqueue_tasks now due jobs)
