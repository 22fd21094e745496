-- ===== src/Worker/Commands/Created.antt =====
-- ufoundry/worker.py, `_handle_control_task_commands`: the tasks that a command creates.
use ufoundry.Base.{
  ℕ, ◌≡◌, ◌≢◌, refl, subst, Bool, true, false, ◌&&◌, Bool-cases, inl, inr, none, some, List, [],
  ◌∷◌, ◌++◌, Text, codes, text_eq, ◌==◌, is_empty, strip, lower, starts_with, leb, eqb_iff,
}
use ufoundry.Storage.Tasks.{TaskTables, is_task, is_due, get_task, new_task, create_task}
use ufoundry.Storage.Rows.{select_first}
use ufoundry.Storage.Tasks.Outcomes.{DueAs}
use ufoundry.Tasks.Parser.{TaskDraft, parse_control_task_request}
use ufoundry.Tasks.Parser.Planned.{parse_control_task_request-IsPlannable}
use ufoundry.Tasks.Schedule.{Clocks, Schedule, next_at, compute_initial_next_run_at}
use ufoundry.Worker.Commands.{
  Commanded, handled, TaskCreated, created_reply, task_args, create_from, create_parsed,
  handle_control_task_commands,
}

select_first-last :
    {R : Type 0} (test : R → Bool) (row : R) (rows : List R)
    → select_first test rows ≡ none
    → test row ≡ true
    → select_first test (rows ++ row ∷ []) ≡ some row
unfolding select_first
select_first-last test row [] e own = rw own refl
select_first-last test row (r ∷ rows) e own = elim (Bool-cases (test r)) [
  | inl h ↦ cc (rw h at e)
  | inr h ↦ rw h (select_first-last test row rows (rw h at e) own)
]

parse_nothing : parse_control_task_request [] (codes "UTC") ≡ none
unfolding parse_control_task_request strip
parse_nothing = refl

and_true : (b : Bool) → (b && true) ≡ b
and_true true = refl
and_true false = refl

module _ (iso : ℕ → Text) (clocks : Clocks) (now created : ℕ) (chat_id message : Text)
    (tables : TaskTables Schedule) where
  abbrev commanded : Commanded
  commanded = handle_control_task_commands iso clocks now created chat_id message tables

  -- A task was created that is due exactly from the time on that its schedule has for the first run.
  pub record Creates (d : TaskDraft) : Type 0 where
    pub first : ℕ
    pub first_is :
        compute_initial_next_run_at clocks d.task_type d.schedule d.timezone now ≡ next_at first
    pub after : TaskTables Schedule
    pub reply : Text
    pub entry : TaskCreated
    pub result : commanded ≡ handled after reply (some entry)
    pub due : (later : ℕ) → DueAs tables.next_task after later (leb first later)

  module _ (d : TaskDraft) (no_list : (lower (strip message) == codes "tasks list") ≡ false)
      (no_cancel : starts_with (lower (strip message)) (codes "tasks cancel ") ≡ false)
      (understood : parse_control_task_request (strip message) (codes "UTC") ≡ some d) where
    given : is_empty (strip message) ≡ false
    given = by_text (strip message) refl
      where
        by_text : (m : Text) → strip message ≡ m → is_empty (strip message) ≡ false
        by_text [] e =
            let nothing =
              subst (λ m. parse_control_task_request m (codes "UTC") ≡ some d) e understood in
            cc (parse_nothing, nothing)
        by_text (c ∷ m) e = rw e refl

    create_from-Creates :
        (t : ℕ)
        → compute_initial_next_run_at clocks d.task_type d.schedule d.timezone now ≡ next_at t
        → get_task tables.next_task tables ≡ none
        → Creates d
    unfolding handle_control_task_commands create_parsed create_from create_task get_task task_args
        is_due new_task
    create_from-Creates t computed fresh =
        let row = new_task created tables.next_task (task_args d chat_id t) in
        record {
          first = t;
          first_is = computed;
          after = (create_task created (task_args d chat_id t) tables).1;
          reply = created_reply iso tables.next_task d t;
          entry = record {
            task_id = tables.next_task;
            name = d.name;
            task_type = d.task_type;
            next_run_at = t;
          };
          result =
              rw given
                (rw (no_list, no_cancel) (rw (understood, create_parsed) (rw computed refl)));
          due = λ later. (
            row,
            select_first-last (is_task tables.next_task) row tables.tasks fresh
                ((eqb_iff _ _).1 refl),
            and_true (leb t later),
          );
        }

    -- A command that is understood as one for a periodic task creates it: a new task is in the
    -- tables, and it is due exactly from the time on that its schedule has for the first run. No
    -- task may have the id that the table gives next.
    pub handle_control_task_commands-Creates :
        d.task_type ≢ codes "one_time" → get_task tables.next_task tables ≡ none → Creates d
    unfolding compute_initial_next_run_at
    handle_control_task_commands-Creates repeats fresh =
        elim (parse_control_task_request-IsPlannable (strip message) (codes "UTC") d understood) [
          | inl once ↦ absurd (repeats once)
          | inr plan ↦
              let (t, computed) = plan clocks false now in create_from-Creates t computed fresh
        ]
