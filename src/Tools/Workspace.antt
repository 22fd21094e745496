-- ===== src/Tools/Workspace.antt =====
-- ufoundry/tools/workspace.py: the directories that tools may touch. Resolving a path is pathlib's
-- and the file system's, a parameter; a resolved path is the list of its parts.
pub mod Containment
use ufoundry.Base.{
  ℕ, Bool, true, false, not, ◌&&◌, ◌==◌, Option, none, some, List, [], ◌∷◌, ◌++◌, map, Text, codes,
  text_eq, if◌then◌else◌, is_empty, lower, is_infix, join,
}

pub record WorkspaceAcl : Type 0 where
  pub read : Bool
  pub write : Bool
  pub create_files : Bool
  pub delete_files : Bool
  pub shell : Bool

pub record WorkspaceConfig : Type 0 where
  pub name : Text
  pub path : Text
  pub default : Bool
  pub acl : WorkspaceAcl

-- pathlib: whether expanding and resolving `p` raises no exception (RuntimeError where the home
-- directory cannot be determined, ValueError at a null byte), `Path(p).expanduser().resolve()`,
-- `Path(p).expanduser().is_absolute()`, `(root / Path(p).expanduser()).resolve()`, and whether
-- `root.mkdir(parents=True, exist_ok=True)` succeeds.
pub record Paths : Type 0 where
  pub resolves : Text → Bool
  pub resolve : Text → List Text
  pub is_absolute : Text → Bool
  pub resolve_under : List Text → Text → List Text
  pub makes : List Text → Bool

pub data Operation : Type 0 where
  op_read op_list op_write op_create op_delete op_shell : Operation

pub data PathError : Type 0 where
  unresolved : Text → PathError
  no_directory : List Text → PathError
  outside : List Text → PathError
  not_permitted : Operation → PathError

pub data Resolved : Type 0 where
  refused_path : PathError → Resolved
  resolved_path : List Text → Resolved

-- resolved.relative_to(root) raises no ValueError
pub is_relative_to : List Text → List Text → Bool
is_relative_to path [] = true
is_relative_to [] (r ∷ root) = false
is_relative_to (p ∷ path) (r ∷ root) = p == r && is_relative_to path root

-- `_check_acl` raises no error
pub check_acl : WorkspaceAcl → Operation → Bool
check_acl acl op_read = acl.read
check_acl acl op_list = acl.read
check_acl acl op_write = acl.write
check_acl acl op_create = acl.create_files
check_acl acl op_delete = acl.delete_files
check_acl acl op_shell = acl.shell

-- The candidate, resolved.
pub candidate : Paths → WorkspaceConfig → Text → List Text
candidate paths ws path =
    if paths.is_absolute path
    then paths.resolve path
    else paths.resolve_under (paths.resolve ws.path) path

-- operation in ("write", "create", "shell")
pub needs_root : Operation → Bool
needs_root op_read = false
needs_root op_list = false
needs_root op_write = true
needs_root op_create = true
needs_root op_delete = false
needs_root op_shell = true

-- The directory that `mkdir` makes stays, also where the path is refused after it.
pub enforce_path : Paths → Text → WorkspaceConfig → Operation → Resolved
unfolding candidate is_relative_to check_acl needs_root
enforce_path paths path ws operation =
    if not (paths.resolves ws.path)
    then refused_path (unresolved ws.path)
    else if needs_root operation && not (paths.makes (paths.resolve ws.path))
    then refused_path (no_directory (paths.resolve ws.path))
    else if not (paths.resolves path)
    then refused_path (unresolved path)
    else if not (is_relative_to (candidate paths ws path) (paths.resolve ws.path))
    then refused_path (outside (candidate paths ws path))
    else if not (check_acl ws.acl operation)
    then refused_path (not_permitted operation)
    else resolved_path (candidate paths ws path)

-- `_TMP_WORKSPACE`, in the home directory `home`
pub tmp_workspace : Text → WorkspaceConfig
tmp_workspace home = record {
  name = codes "tmp";
  path = home ++ codes "/.ufoundry/tmp";
  default = true;
  acl = record {
    read = true;
    write = true;
    create_files = true;
    delete_files = false;
    shell = true;
  };
}

-- The first of the list that passes a test.
pub first_where : (WorkspaceConfig → Bool) → List WorkspaceConfig → Option WorkspaceConfig
first_where test [] = none
first_where test (ws ∷ rest) = let next = first_where test rest in if test ws then some ws else next

pub first_named : Text → List WorkspaceConfig → Option WorkspaceConfig
unfolding first_where
first_named [] workspaces = none
first_named (c ∷ s) workspaces = first_where (λ ws. ws.name == (c ∷ s)) workspaces

abbrev pub or_first : Text → List WorkspaceConfig → WorkspaceConfig
or_first home [] = tmp_workspace home
or_first home (ws ∷ rest) = ws

pub resolve_workspace : Text → Text → List WorkspaceConfig → WorkspaceConfig
unfolding first_named first_where tmp_workspace
resolve_workspace home name workspaces = elim (first_named name workspaces) [
  | some ws ↦ ws
  | none ↦ elim (first_where (λ ws. ws.default) workspaces) [
    | some ws ↦ ws
    | none ↦ or_first home workspaces
  ]
]

pub detect_workspace_from_text : Text → List WorkspaceConfig → Option WorkspaceConfig
unfolding first_where
detect_workspace_from_text text workspaces =
    first_where (λ ws. not (is_empty ws.name) && is_infix (lower ws.name) (lower text)) workspaces

abbrev flag : Bool → Text → List Text
flag true name = name ∷ []
flag false name = []

pub flags : WorkspaceAcl → List Text
flags acl =
    flag acl.read (codes "read")
    ++ (flag (if acl.write then true else acl.create_files) (codes "write")
        ++ (flag acl.delete_files (codes "delete") ++ flag acl.shell (codes "shell")))

pub summary_line : WorkspaceConfig → Text
unfolding flags
summary_line ws =
    codes "  "
    ++ (ws.name
        ++ (codes "  ("
            ++ (ws.path
                ++ (codes ")  ["
                    ++ (join (codes ", ") (flags ws.acl)
                        ++ (codes "]" ++ (if ws.default then codes "  [default]" else [])))))))

pub workspace_summary : List WorkspaceConfig → Text
unfolding summary_line
workspace_summary [] = codes "  tmp  (~/.ufoundry/tmp)  [default, rw, shell]"
workspace_summary (ws ∷ rest) = join (10 ∷ []) (map summary_line (ws ∷ rest))
