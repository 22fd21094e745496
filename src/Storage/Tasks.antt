-- ===== src/Storage/Tasks.antt =====
-- ufoundry/storage/db.py, the tables `tasks` and `task_runs`: scheduled tasks, their leases and
-- their runs. The schedule's JSON is of a type `P`.
pub mod Leases
pub mod Outcomes
use ufoundry.Base.{
  ℕ, ◌+◌, Bool, true, false, not, ◌&&◌, ◌||◌, ◌==◌, nat_eq, Option, none, some, List, [], ◌∷◌, ◌++◌,
  map, reverse, Text, ltb, leb, eqb, if◌then◌else◌, filter, take, contains, sort_by, any,
}
use ufoundry.Storage.Rows.{select_first, update_where}

pub data TaskStatus : Type 0 where
  active completed cancelled : TaskStatus

pub record TaskRow (P : Type 0) : Type 0 where
  pub id : ℕ
  pub name : Text
  pub prompt : Text
  pub task_type : Text
  pub schedule : P
  pub timezone : Text
  pub status : TaskStatus
  pub next_run_at : Option ℕ
  pub lease_until : Option ℕ
  pub last_run_at : Option ℕ
  pub last_result : Option Text
  pub last_error : Option Text
  pub created_by : Text
  pub created_at : ℕ
  pub updated_at : ℕ

pub data RunStatus : Type 0 where
  running success run_failed : RunStatus

pub record TaskRun : Type 0 where
  pub run_id : ℕ
  pub task_id : ℕ
  pub run_status : RunStatus
  pub started_at : ℕ
  pub finished_at : Option ℕ
  pub result : Option Text
  pub error : Option Text

pub record TaskTables (P : Type 0) : Type 0 where
  pub tasks : List (TaskRow P)
  pub next_task : ℕ
  pub runs : List TaskRun
  pub next_run : ℕ

pub record TaskArgs (P : Type 0) : Type 0 where
  pub name : Text
  pub prompt : Text
  pub task_type : Text
  pub schedule : P
  pub timezone : Text
  pub next_run_at : Option ℕ
  pub created_by : Text

abbrev pub is_active : TaskStatus → Bool
is_active active = true
is_active completed = false
is_active cancelled = false

abbrev pub is_cancelled : TaskStatus → Bool
is_cancelled active = false
is_cancelled completed = false
is_cancelled cancelled = true

abbrev pub has_status : TaskStatus → TaskStatus → Bool
has_status active status = is_active status
has_status cancelled status = is_cancelled status
has_status completed status = not (is_active status || is_cancelled status)

-- next_run_at IS NOT NULL AND next_run_at <= now
abbrev pub is_reached : Option ℕ → ℕ → Bool
is_reached none now = false
is_reached (some time) now = leb time now

-- lease_until IS NULL OR lease_until < now
abbrev pub is_free : Option ℕ → ℕ → Bool
is_free none now = true
is_free (some time) now = ltb time now

-- ORDER BY next_run_at, id; NULL comes first
abbrev pub time_before : Option ℕ → Option ℕ → Bool → Bool
time_before none none tie = tie
time_before none (some b) tie = true
time_before (some a) none tie = false
time_before (some a) (some b) tie = ltb a b || eqb a b && tie

abbrev pub is_run : ℕ → TaskRun → Bool
is_run id run = run.run_id == id

-- COALESCE(next_run_at, column)
abbrev pub coalesce : Option ℕ → Option ℕ → Option ℕ
coalesce none column = column
coalesce (some time) column = some time

module _ {P : Type 0} where
  abbrev pub with_tasks : TaskTables P → List (TaskRow P) → TaskTables P
  with_tasks tables tasks = record tables { tasks = tasks }

  abbrev pub is_task : ℕ → TaskRow P → Bool
  is_task id row = row.id == id

  unfoldable pub new_task : ℕ → ℕ → TaskArgs P → TaskRow P
  new_task now id args = record {
    id = id;
    name = args.name;
    prompt = args.prompt;
    task_type = args.task_type;
    schedule = args.schedule;
    timezone = args.timezone;
    status = active;
    next_run_at = args.next_run_at;
    lease_until = none;
    last_run_at = none;
    last_result = none;
    last_error = none;
    created_by = args.created_by;
    created_at = now;
    updated_at = now;
  }

  unfoldable pub create_task : ℕ → TaskArgs P → TaskTables P → ℕ × TaskTables P
  unfolding new_task
  create_task now args tables = (
    tables.next_task,
    record tables {
      tasks = tables.tasks ++ new_task now tables.next_task args ∷ [];
      next_task = tables.next_task + 1;
    },
  )

  -- Without a status all tasks; the newest first.
  pub list_tasks : Option TaskStatus → TaskTables P → List (TaskRow P)
  list_tasks none tables = reverse tables.tasks
  list_tasks (some status) tables =
      reverse (filter (λ row. has_status status row.status) tables.tasks)

  unfoldable pub get_task : ℕ → TaskTables P → Option (TaskRow P)
  get_task id tables = select_first (is_task id) tables.tasks

  unfoldable pub cancelled_row : ℕ → TaskRow P → TaskRow P
  cancelled_row now row = record row { status = cancelled; lease_until = none; updated_at = now }

  -- Whether a row was changed, and the tables.
  unfoldable pub cancel_task : ℕ → ℕ → TaskTables P → Bool × TaskTables P
  unfolding cancelled_row
  cancel_task now id tables =
      let open_task = λ (row : TaskRow P). is_task id row && not (is_cancelled row.status) in
      (
        any open_task tables.tasks,
        with_tasks tables (update_where open_task (cancelled_row now) tables.tasks),
      )

  unfoldable pub is_due : ℕ → TaskRow P → Bool
  is_due now row =
      is_active row.status && is_reached row.next_run_at now && is_free row.lease_until now

  pub runs_first : TaskRow P → TaskRow P → Bool
  runs_first a b = time_before a.next_run_at b.next_run_at (leb a.id b.id)

  pub leased_task : ℕ → ℕ → TaskRow P → TaskRow P
  leased_task now lease row = record row { lease_until = some lease; updated_at = now }

  -- The ids of the tasks that are due, at most `limit`.
  pub due_ids : ℕ → ℕ → List (TaskRow P) → List ℕ
  unfolding runs_first
  due_ids now limit tasks =
      map (λ row. row.id) (take limit (sort_by runs_first (filter (is_due now) tasks)))

  -- The loop of updates.
  pub lease_each : ℕ → ℕ → List ℕ → List (TaskRow P) → List (TaskRow P)
  unfolding leased_task
  lease_each now lease [] tasks = tasks
  lease_each now lease (id ∷ ids) tasks =
      lease_each now lease ids (update_where (is_task id) (leased_task now lease) tasks)

  unfoldable pub lease_due_tasks : ℕ → ℕ → ℕ → TaskTables P → List (TaskRow P) × TaskTables P
  unfolding due_ids lease_each runs_first
  lease_due_tasks now lease limit tables =
      let ids = due_ids now limit tables.tasks in
      let tasks = lease_each now lease ids tables.tasks in
      (sort_by runs_first (filter (λ row. contains ids row.id) tasks), with_tasks tables tasks)

  unfoldable pub create_task_run : ℕ → ℕ → TaskTables P → ℕ × TaskTables P
  create_task_run now task_id tables = (
    tables.next_run,
    record tables {
      tasks =
          update_where (is_task task_id)
            (λ row. record row { last_run_at = some now; updated_at = now }) tables.tasks;
      runs =
          tables.runs
          ++ record {
            run_id = tables.next_run;
            task_id = task_id;
            run_status = running;
            started_at = now;
            finished_at = none;
            result = none;
            error = none;
          }
            ∷ [];
      next_run = tables.next_run + 1;
    },
  )

  unfoldable pub completed_row : ℕ → Text → Option ℕ → Bool → TaskRow P → TaskRow P
  completed_row now result next_run_at terminal row = record row {
    status = if terminal then completed else active;
    next_run_at = next_run_at;
    lease_until = none;
    last_result = some result;
    last_error = none;
    updated_at = now;
  }

  unfoldable pub complete_task_run :
      ℕ → ℕ → ℕ → Text → Option ℕ → Bool → TaskTables P → TaskTables P
  unfolding completed_row
  complete_task_run now run_id task_id result next_run_at terminal tables = record tables {
    tasks =
        update_where (is_task task_id) (completed_row now result next_run_at terminal) tables.tasks;
    runs =
        update_where (is_run run_id)
          (λ run. record run { run_status = success; finished_at = some now; result = some result })
          tables.runs;
  }

  unfoldable pub failed_row : ℕ → Text → Option ℕ → TaskRow P → TaskRow P
  failed_row now error next_run_at row = record row {
    status = active;
    next_run_at = coalesce next_run_at row.next_run_at;
    lease_until = none;
    last_error = some error;
    updated_at = now;
  }

  unfoldable pub fail_task_run : ℕ → ℕ → ℕ → Text → Option ℕ → TaskTables P → TaskTables P
  unfolding failed_row
  fail_task_run now run_id task_id error next_run_at tables = record tables {
    tasks = update_where (is_task task_id) (failed_row now error next_run_at) tables.tasks;
    runs =
        update_where (is_run run_id)
          (λ run. record run {
            run_status = run_failed;
            finished_at = some now;
            error = some error;
          })
          tables.runs;
  }

  unfoldable pub release_task_lease : ℕ → ℕ → TaskTables P → TaskTables P
  release_task_lease now task_id tables = with_tasks tables (
      update_where (is_task task_id) (λ row. record row { lease_until = none; updated_at = now })
        tables.tasks)
