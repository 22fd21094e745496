-- ===== src/Worker/TaskRun.antt =====
-- ufoundry/worker.py, `_process_task_run`: the run of a scheduled task. The model's answers, the
-- tools' handlers, the callback that sends messages to the control panel and the error of a
-- schedule that cannot be read are arguments, and so is `prepared`: the exception of the code from
-- the opening message to the model's first answer, if it raises one (`skill_registry.refresh` reads
-- files of skills and passes on the errors of YAML and of the file system). What that code gives,
-- the session's recent messages and the skills, only goes into the prompt and is left out.
-- Exceptions of the database and the cancelling of the worker's tasks are not modelled.
pub mod Calls
pub mod Closing
pub mod Ends
mod Tests
use ufoundry.Base.{
  ℕ, not, Option, none, some, List, [], ◌∷◌, ◌++◌, Text, codes, if◌then◌else◌, is_empty, or_text,
  strip,
}
use ufoundry.Policy.Engine.{Origin, Pending}
use ufoundry.Storage.Tasks.{
  TaskRow, TaskTables, is_active, get_task, create_task_run, release_task_lease,
}
use ufoundry.Tasks.Schedule.{Clocks, Schedule}
use ufoundry.Worker.Arguments.{Arguments}
use ufoundry.Worker.Gate.Guards.{Settings}
use ufoundry.Worker.Turn.{Call, Handled, ToolOutput}
use Calls.{
  Effect, stored_message, Reply, reply_failed, reply, LoopEnd, stopped, interrupted, ran_all,
  run_task_calls, task_tools,
}
use Closing.{TaskEnd, Answered, answer_stopped, answer_failed, answer_given, close_run}

-- The model's part of a run.
pub record Asked (M : Type 0) : Type 0 where
  pub answer : Answered
  pub effects : List Effect
  pub pending : Pending Arguments M

-- A message of the assistant, if it has a content.
abbrev pub stored_answer : Text → List Effect
stored_answer content =
    if is_empty content then [] else stored_message (codes "assistant") content ∷ []

pub after_calls : (List ToolOutput → Reply) → Text → LoopEnd → Answered × List Effect
after_calls follow_up content (stopped text) = (answer_stopped text, [])
after_calls follow_up content (interrupted e) = (answer_failed e, [])
after_calls follow_up content (ran_all outputs) = elim (follow_up outputs) [
  | reply_failed e ↦ (answer_failed e, [])
  | reply later calls ↦ (answer_given (or_text later content), stored_answer later)
]

module _ {S H M : Type 0} (check : Arguments → S → Option Text) (handler : H → Arguments → Handled)
    (set : Settings S H) (strictness : Text) (id : ℕ) (origin : Origin Arguments M) where
  pub ask_task_model : Reply → (List ToolOutput → Reply) → Pending Arguments M → Asked M
  unfolding after_calls
  ask_task_model (reply_failed e) follow_up pending = record {
    answer = answer_failed e;
    effects = [];
    pending = pending;
  }
  ask_task_model (reply content []) follow_up pending = record {
    answer = answer_given content;
    effects = stored_message (codes "assistant") content ∷ [];
    pending = pending;
  }
  ask_task_model (reply content (call ∷ calls)) follow_up pending =
      let ran =
        run_task_calls check handler set (task_tools set strictness) id origin (call ∷ calls)
          pending in
      let (answer, stored) = after_calls follow_up content ran.ended in
      record {
        answer = answer;
        effects = stored_message (codes "assistant") content ∷ (ran.effects ++ stored);
        pending = ran.pending;
      }

  -- The message that opens the run.
  pub run_text : TaskRow Schedule → Text
  run_text task =
      let prompt = or_text (strip task.prompt) (codes "Run scheduled task.") in
      codes "Scheduled task '"
      ++ (task.name
          ++ (codes "' is due now."
              ++ (10
                  ∷ (codes "Task instruction: "
                      ++ (prompt ++ (10 ∷ codes "Execute it and provide the final result."))))))

  module _ (clocks : Clocks) (sends : Text → Option Text) (schedule_error : Text)
      (started now ended : ℕ) (first : Reply) (follow_up : List ToolOutput → Reply) where
    -- The run number `run`, from its opening message to its end. An exception before the model is
    -- asked is outside the `try`.
    pub go_on :
        Option Text → ℕ → TaskRow Schedule → TaskTables Schedule → Pending Arguments M → TaskEnd M
    unfolding ask_task_model run_text close_run
    go_on (some e) run task opened pending = record {
      tables = opened;
      effects = stored_message (codes "user") (run_text task) ∷ [];
      pending = pending;
      exception = some e;
    }
    go_on none run task opened pending =
        let asked = ask_task_model first follow_up pending in
        close_run clocks sends schedule_error id run now ended task asked.answer opened
          (stored_message (codes "user") (run_text task) ∷ asked.effects) asked.pending

    unfoldable pub run_task :
        Option Text → TaskRow Schedule → TaskTables Schedule → Pending Arguments M → TaskEnd M
    unfolding go_on
    run_task prepared task tables pending =
        let (run, opened) = create_task_run started id tables in
        go_on prepared run task opened pending

    pub untouched : TaskTables Schedule → Pending Arguments M → TaskEnd M
    untouched tables pending = record {
      tables = tables;
      effects = [];
      pending = pending;
      exception = none;
    }

    unfoldable pub process_task_run :
        Option Text → TaskTables Schedule → Pending Arguments M → TaskEnd M
    unfolding run_task untouched
    process_task_run prepared tables pending = elim (get_task id tables) [
      | none ↦ untouched tables pending
      | some task ↦
          if not (is_active task.status)
          then untouched (release_task_lease started id tables) pending
          else run_task prepared task tables pending
    ]
