-- ===== src/Tasks/Poller/Once.antt =====
-- ufoundry/scheduler.py: a due task is put into the queue once.
use ufoundry.Base.{ℕ, ◌≡◌, List, ◌++◌, nat_eq, map, All}
use ufoundry.Storage.Queue.{JobTable}

-- The jobs that are added for tasks, each with what is true of its task's id.
pub record AddsFor {J : Type 0} (task_run : ℕ → J) (Q : ℕ → Type 0) (before after : JobTable J)
    : Type 0 where
  pub ids : List ℕ
  pub all_ids : All Q ids
  pub payloads :
      map (λ row. row.payload) after.rows ≡ map (λ row. row.payload) before.rows ++ map task_run ids
