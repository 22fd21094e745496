-- ===== src/Worker/Approval.antt =====
-- ufoundry/worker.py: `_should_auto_approve_tool_confirmation` and
-- `_is_auto_approve_shell_command_allowed`, which stand in for the user's answer to a
-- confirmation.
pub mod Shell
use ufoundry.Base.{
  Bool, true, false, not, ◌&&◌, ◌||◌, ◌==◌, Option, none, some, List, [], ◌∷◌, ◌++◌, map, Text,
  codes, text_eq, if◌then◌else◌, is_empty, lower, strip, or_text, is_infix, starts_with,
  split_words, join, any, filter, contains, fnmatch,
}
use ufoundry.Tools.Workspace.{
  Paths, WorkspaceConfig, Operation, op_read, op_list, op_write, op_delete, Resolved, refused_path,
  resolved_path, enforce_path,
}
use ufoundry.Worker.Arguments.{Arguments, text_or_empty, argument}

-- The fields of PolicyConfig that the worker reads.
pub record PolicyConfig : Type 0 where
  pub approval_mode : Text
  pub auto_approve_workspaces : List Text
  pub auto_approve_tools : List Text
  pub auto_approve_shell_commands : List Text

abbrev pub is_given : Text → Bool
is_given item = not (is_empty (strip item))

-- [str(item).strip().lower() for item in items if str(item).strip()]
pub given_lowered : List Text → List Text
given_lowered items = map (λ item. lower (strip item)) (filter is_given items)

abbrev pub forbidden_tokens : List Text
forbidden_tokens =
    codes "&&"
    ∷ codes "||"
    ∷ codes "|"
    ∷ codes ";"
    ∷ codes "$("
    ∷ codes "`"
    ∷ codes ">"
    ∷ codes "<"
    ∷ (10 ∷ [])
    ∷ (13 ∷ [])
    ∷ []

-- " ".join(s.split())
pub normalized : Text → Text
normalized s = join (32 ∷ []) (split_words s)

pub prefixes_of : PolicyConfig → List Text
unfolding normalized
prefixes_of cfg =
    map (λ item. normalized (strip item)) (filter is_given cfg.auto_approve_shell_commands)

abbrev pub has_prefix : Text → Text → Bool
has_prefix command prefix =
    if command == prefix then true else starts_with command (prefix ++ codes " ")

unfoldable pub is_auto_approve_shell_command_allowed : PolicyConfig → Text → Bool
unfolding prefixes_of normalized
is_auto_approve_shell_command_allowed cfg cmd =
    let command = strip cmd in
    if is_empty command
    then false
    else if any (λ token. is_infix token command) forbidden_tokens
    then false
    else any (λ prefix. has_prefix (normalized command) prefix) (prefixes_of cfg)

pub file_op : Text → Option Operation
file_op tool_name =
    if tool_name == codes "file.read"
    then some op_read
    else if tool_name == codes "file.list"
    then some op_list
    else if tool_name == codes "file.write"
    then some op_write
    else if tool_name == codes "file.delete"
    then some op_delete
    else none

abbrev pub is_resolved : Resolved → Bool
is_resolved (refused_path e) = false
is_resolved (resolved_path p) = true

-- The checks of a file tool on its path.
pub path_approved : Paths → WorkspaceConfig → Text → Operation → Bool
path_approved paths ws path operation =
    if is_empty path then false else is_resolved (enforce_path paths path ws operation)

-- The checks of the tools that touch the shell or a file; any other tool passes.
pub arguments_approved : Paths → PolicyConfig → WorkspaceConfig → Text → Arguments → Bool
unfolding path_approved file_op
arguments_approved paths cfg ws tool_name arguments =
    if tool_name == codes "shell.run"
    then is_auto_approve_shell_command_allowed cfg
        (strip (text_or_empty (argument arguments (codes "cmd"))))
    else elim (file_op tool_name) [
      | none ↦ true
      | some operation ↦
          path_approved paths ws (strip (text_or_empty (argument arguments (codes "path"))))
            operation
    ]

-- An empty list of workspaces stands for all of them.
pub workspace_approved : PolicyConfig → WorkspaceConfig → Bool
unfolding given_lowered
workspace_approved cfg ws =
    let names = given_lowered cfg.auto_approve_workspaces in
    is_empty names || contains names (lower (strip ws.name))

pub tool_approved : PolicyConfig → Text → Bool
unfolding given_lowered
tool_approved cfg tool_name =
    any (λ pattern. fnmatch (lower (strip tool_name)) pattern)
      (given_lowered cfg.auto_approve_tools)

-- str(policy.approval_mode or "normal").strip().lower() == "auto_approve_workspace"
unfoldable pub is_auto_mode : PolicyConfig → Bool
is_auto_mode cfg =
    lower (strip (or_text cfg.approval_mode (codes "normal"))) == codes "auto_approve_workspace"

pub should_auto_approve_tool_confirmation :
    Paths → PolicyConfig → Option WorkspaceConfig → Text → Arguments → List Text → Bool
unfolding is_auto_mode workspace_approved tool_approved arguments_approved
should_auto_approve_tool_confirmation paths cfg none tool_name arguments allowed_tools = false
should_auto_approve_tool_confirmation paths cfg (some ws) tool_name arguments allowed_tools =
    is_auto_mode cfg
    && workspace_approved cfg ws
    && contains allowed_tools tool_name
    && tool_approved cfg tool_name
    && arguments_approved paths cfg ws tool_name arguments
