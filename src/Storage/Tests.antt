-- ===== src/Storage/Tests.antt =====
-- The theorems on the database at concrete inputs.
use ufoundry.Base.{
  ℕ, ◌≡◌, ◌⊎◌, refl, none, some, List, [], ◌∷◌, codes, map, take, filter, arith, false, true,
  nat_eq,
}
use ufoundry.Storage.Queue.{JobRow, JobTable, done, new_job, is_claimable, claim_job}
use ufoundry.Storage.Queue.Claims.{
  Claimed, handed_out, IsOrderedTable, claim_job-Claimed, handed_out-claimable,
}
use ufoundry.Storage.Rows.{select_first, update_where}
use ufoundry.Storage.Tasks.{
  TaskArgs, TaskTables, new_task, get_task, cancelled_row, cancel_task, complete_task_run,
  fail_task_run,
}
use ufoundry.Storage.Tasks.Outcomes.{DueAs, task_outcomes}

abbrev job : ℕ → JobRow Unit
job id = new_job id (codes "7") (codes "dm") tt 100

abbrev jobs : JobTable Unit
jobs = record { rows = job 1 ∷ record (job 2) { status = done } ∷ job 4 ∷ []; next_id = 5 }

jobs-IsOrdered : IsOrderedTable jobs
unfolding new_job
jobs-IsOrdered = (omega arith, (omega arith, (omega arith, omega arith)))

claim_job-Claimed_example :
    ((filter (is_claimable 200) jobs.rows ≡ []) × (claim_job 200 230 jobs ≡ (none, jobs)))
    ⊎ ((row : JobRow Unit) × (before : List (JobRow Unit)) × (after : List (JobRow Unit)) × Claimed
          200 230 jobs row before after)
claim_job-Claimed_example = claim_job-Claimed 200 230 jobs jobs-IsOrdered

handed_out-claimable_example :
    handed_out 200 230 5 jobs ≡ take 5 (map (λ row. row.id) (filter (is_claimable 200) jobs.rows))
handed_out-claimable_example = handed_out-claimable 200 230 5 jobs (omega arith) jobs-IsOrdered

abbrev report : TaskArgs Unit
report = record {
  name = codes "report";
  prompt = codes "write it";
  task_type = codes "one_time";
  schedule = tt;
  timezone = codes "UTC";
  next_run_at = some 150;
  created_by = codes "7";
}

abbrev planned : TaskTables Unit
planned = record { tasks = new_task 100 1 report ∷ []; next_task = 2; runs = []; next_run = 1 }

abbrev cancelled_plan : TaskTables Unit
cancelled_plan = (cancel_task 180 1 planned).1

task_outcomes_example :
    DueAs 1 (cancel_task 300 1 cancelled_plan).1 400 false
    × DueAs 1 (complete_task_run 300 1 1 (codes "ok") none true cancelled_plan) 400 false
    × DueAs 1 (complete_task_run 300 1 1 (codes "ok") none false cancelled_plan) 400 false
    × DueAs 1 (fail_task_run 300 1 1 (codes "no") none cancelled_plan) 400 true
unfolding new_task cancel_task cancelled_row get_task select_first update_where
task_outcomes_example =
    task_outcomes 300 1 cancelled_plan (cancelled_row 180 (new_task 100 1 report)) refl 1 400
      (codes "ok") (codes "no") none
