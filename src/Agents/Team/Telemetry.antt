-- ===== src/Agents/Team/Telemetry.antt =====
-- ufoundry/agents/team_executor.py: `_record_shell_telemetry`, `_unresolved_failed_commands` and
-- `_classify_failure_text`.
pub mod Latest
use ufoundry.Base.{
  ℕ, zero, suc, ◌+◌, Bool, true, false, not, ◌&&◌, ◌||◌, ◌==◌, Option, none, some, List, [], ◌∷◌,
  ◌++◌, Text, String, codes, text_eq, if◌then◌else◌, ℤ, pos, negsuc, decimal, is_empty, is_infix,
  lower, strip, take, Dict, lookup, store,
}

-- An event of an agent, with the fields of its payload that the recording reads; a text that is
-- missing is empty, and an exit code that is no number is none.
pub record AgentEvent : Type 0 where
  pub event_name : Text
  pub run_id : Text
  pub event_type : Text
  pub node_id : Text
  pub role : Text
  pub tool : Text
  pub cmd : Text
  pub cwd : Text
  pub exit_code : Option ℤ
  pub timed_out : Bool
  pub content_preview : Text
  pub error : Text

pub record ShellItem : Type 0 where
  pub node_id : Text
  pub role : Text
  pub cmd : Text
  pub cwd : Text
  pub exit_code : Option ℤ
  pub timed_out : Bool
  pub success : Bool
  pub content_preview : Text

abbrev pub is_zero : Option ℤ → Bool
is_zero none = false
is_zero (some (pos zero)) = true
is_zero (some (pos (suc n))) = false
is_zero (some (negsuc n)) = false

abbrev pub items_of : Option (List ShellItem) → List ShellItem
items_of none = []
items_of (some items) = items

abbrev pub Telemetry : Type 0
Telemetry = Dict Text (List ShellItem)

abbrev pub append_item : Text → ShellItem → Telemetry → Telemetry
append_item run_id item telemetry =
    store run_id (items_of (lookup run_id telemetry) ++ (item ∷ [])) telemetry

unfoldable pub record_shell_telemetry : AgentEvent → Telemetry → Telemetry
record_shell_telemetry e telemetry =
    if not (e.event_name == codes "multi_agent_node_log")
    then telemetry
    else if is_empty e.run_id
    then telemetry
    else if not (e.tool == codes "shell.run")
    then telemetry
    else if e.event_type == codes "agent.tool.result"
    then append_item e.run_id
        (record {
          node_id = e.node_id;
          role = e.role;
          cmd = e.cmd;
          cwd = e.cwd;
          exit_code = e.exit_code;
          timed_out = e.timed_out;
          success = is_zero e.exit_code && not e.timed_out;
          content_preview = e.content_preview;
        })
        telemetry
    else if e.event_type == codes "agent.tool.error"
    then append_item e.run_id
        (record {
          node_id = e.node_id;
          role = e.role;
          cmd = [];
          cwd = [];
          exit_code = none;
          timed_out = false;
          success = false;
          content_preview = e.error;
        })
        telemetry
    else telemetry

unfoldable pub record_events : List AgentEvent → Telemetry → Telemetry
unfolding record_shell_telemetry
record_events [] telemetry = telemetry
record_events (e ∷ es) telemetry = record_events es (record_shell_telemetry e telemetry)

-- The last item of each command, in the order in which the commands first occurred.
unfoldable pub latest_by_cmd : List ShellItem → Dict Text ShellItem → Dict Text ShellItem
latest_by_cmd [] latest = latest
latest_by_cmd (item ∷ items) latest =
    let cmd = strip item.cmd in
    latest_by_cmd items (if is_empty cmd then latest else store cmd item latest)

abbrev pub show_ℤ : ℤ → Text
show_ℤ (pos n) = decimal n
show_ℤ (negsuc n) = codes "-" ++ decimal (suc n)

abbrev pub suffix : Option ℤ → Text
suffix none = []
suffix (some n) = codes " (exit_code=" ++ (show_ℤ n ++ codes ")")

unfoldable pub unresolved : Dict Text ShellItem → List Text
unresolved [] = []
unresolved ((cmd, item) ∷ latest) =
    let rest = unresolved latest in
    if item.success then rest else (cmd ++ suffix item.exit_code) ∷ rest

unfoldable pub unresolved_failed_commands : List ShellItem → List Text
unfolding latest_by_cmd unresolved
unresolved_failed_commands items = take 12 (unresolved (latest_by_cmd items []))

unfoldable pub classify_failure_text : Text → Text
classify_failure_text text =
    let has = λ (s : String). is_infix (codes s) (lower text) in
    if has "no module named" || has "importerror"
    then codes "import_path"
    else if has "alembic" || has "migration" || has "no such table"
    then codes "database_migration"
    else if has "readonly" || has "permission denied"
    then codes "filesystem_permissions"
    else if has "connection refused" || has "timed out"
    then codes "service_connectivity"
    else if has "assert" || has "failed" || has "traceback"
    then codes "test_failure"
    else if has "could not find a version" || has "no matching distribution"
    then codes "dependency_install"
    else codes "unknown"
