-- ===== src/Tools/Workspace/Containment.antt =====
-- ufoundry/tools/workspace.py: a path that a tool is given stays inside its workspace.
use ufoundry.Base.{
  ◌≡◌, ◌↔◌, refl, Bool, true, false, not, ◌&&◌, Bool-cases, inl, inr, ◌⊎◌, List, [], ◌∷◌, ◌++◌,
  Text, text_eq, ◌==◌, ==_iff, Option, none, some, In, is_empty, arith, ◌≢◌,
}
use ufoundry.Tools.Workspace.{
  Paths, WorkspaceAcl, WorkspaceConfig, Operation, op_read, op_list, op_write, op_create, op_delete,
  op_shell, resolved_path, candidate, is_relative_to, check_acl, needs_root, enforce_path,
  first_where, first_named, resolve_workspace, or_first,
}

-- A list of parts that continues another one.
abbrev pub Under : List Text → List Text → Type 0
Under path root = (rest : List Text) × (path ≡ root ++ rest)

pub is_relative_to-Under :
    (path root : List Text) → (is_relative_to path root ≡ true) ↔ Under path root
unfolding is_relative_to
is_relative_to-Under path [] = (λ h. (path, refl), λ h. refl)
is_relative_to-Under [] (r ∷ root) = (λ h. cc, λ h. cc h.1)
is_relative_to-Under (p ∷ path) (r ∷ root) = (
  λ h. elim (Bool-cases (p == r)) [
    | inl e ↦
        let (rest, same) = (is_relative_to-Under path root).0 (rw e at h) in
        (rest, cc (same, (==_iff p r).0 e))
    | inr e ↦ absurd (ground (arith))
  ],
  λ h. rw ((==_iff p r).1 (cc h.1)) ((is_relative_to-Under path root).1 (h.0, cc h.1)),
)

-- What the access list says of each operation: listing needs the right to read, and each other
-- operation the right of its own name.
abbrev pub Permits : WorkspaceAcl → Operation → Type 0
Permits acl op_read = acl.read ≡ true
Permits acl op_list = acl.read ≡ true
Permits acl op_write = acl.write ≡ true
Permits acl op_create = acl.create_files ≡ true
Permits acl op_delete = acl.delete_files ≡ true
Permits acl op_shell = acl.shell ≡ true

-- The root of the workspace exists or can be made, where the operation may add to it.
abbrev pub HasRoot : Paths → List Text → Operation → Type 0
HasRoot paths root op_read = Unit
HasRoot paths root op_list = Unit
HasRoot paths root op_write = paths.makes root ≡ true
HasRoot paths root op_create = paths.makes root ≡ true
HasRoot paths root op_delete = Unit
HasRoot paths root op_shell = paths.makes root ≡ true

check_acl-Permits :
    (acl : WorkspaceAcl) (operation : Operation)
    → (check_acl acl operation ≡ true) ↔ Permits acl operation
unfolding check_acl
check_acl-Permits acl op_read = (λ h. h, λ h. h)
check_acl-Permits acl op_list = (λ h. h, λ h. h)
check_acl-Permits acl op_write = (λ h. h, λ h. h)
check_acl-Permits acl op_create = (λ h. h, λ h. h)
check_acl-Permits acl op_delete = (λ h. h, λ h. h)
check_acl-Permits acl op_shell = (λ h. h, λ h. h)

no_root-HasRoot :
    (paths : Paths) (root : List Text) (operation : Operation)
    → (needs_root operation && not (paths.makes root) ≡ false) ↔ HasRoot paths root operation
unfolding needs_root
no_root-HasRoot paths root op_read = (λ h. tt, λ h. refl)
no_root-HasRoot paths root op_list = (λ h. tt, λ h. refl)
no_root-HasRoot paths root op_delete = (λ h. tt, λ h. refl)
no_root-HasRoot paths root op_write = (λ h. ground arith, λ h. rw h refl)
no_root-HasRoot paths root op_create = (λ h. ground arith, λ h. rw h refl)
no_root-HasRoot paths root op_shell = (λ h. ground arith, λ h. rw h refl)

module _ (paths : Paths) (path : Text) (ws : WorkspaceConfig) (operation : Operation) where
  abbrev root : List Text
  root = paths.resolve ws.path

  -- The checks, as the code makes them.
  abbrev Checked : Type 0
  Checked =
      (paths.resolves ws.path ≡ true)
      × (needs_root operation && not (paths.makes root) ≡ false)
      × (paths.resolves path ≡ true)
      × (is_relative_to (candidate paths ws path) root ≡ true)
      × (check_acl ws.acl operation ≡ true)

  enforce_path-Checked :
      (out : List Text)
      → enforce_path paths path ws operation ≡ resolved_path out
      → Checked × (out ≡ candidate paths ws path)
  unfolding enforce_path
  enforce_path-Checked out h = ground arith

  -- A path is given out exactly where the access list has the right that the operation needs and
  -- the resolved path lies under the resolved root of the workspace; what is given out is that
  -- resolved path. Both paths must resolve without an exception, and for writing, creating and the
  -- shell the root must exist or be made.
  pub enforce_path-Under :
      (out : List Text)
      → (enforce_path paths path ws operation ≡ resolved_path out) ↔ (
          (out ≡ candidate paths ws path)
          × Permits ws.acl operation
          × Under out (paths.resolve ws.path)
          × (paths.resolves ws.path ≡ true)
          × (paths.resolves path ≡ true)
          × HasRoot paths (paths.resolve ws.path) operation)
  unfolding enforce_path
  enforce_path-Under out = (
    λ h.
        let ((home, made, own, inside, allowed), same) = enforce_path-Checked out h in
        (
          same,
          (check_acl-Permits ws.acl operation).0 allowed,
          rw same ((is_relative_to-Under (candidate paths ws path) root).0 inside),
          home,
          own,
          (no_root-HasRoot paths root operation).0 made,
        ),
    λ h.
        let (same, permits, under, home, own, has_root) = h in
        rw
          (
            home,
            (no_root-HasRoot paths root operation).1 has_root,
            own,
            (is_relative_to-Under (candidate paths ws path) root).1 (rw same at under),
            (check_acl-Permits ws.acl operation).1 permits,
            same,
          )
          refl,
  )

first_where-In :
    (test : WorkspaceConfig → Bool) (workspaces : List WorkspaceConfig) (ws : WorkspaceConfig)
    → first_where test workspaces ≡ some ws
    → In ws workspaces × (test ws ≡ true)
unfolding first_where
first_where-In test [] ws h = cc
first_where-In test (v ∷ rest) ws h = elim (Bool-cases (test v)) [
  | inl e ↦ let same : v ≡ ws = ground arith in (inl (cc same), rw same at e)
  | inr e ↦ let (m, t) = first_where-In test rest ws (rw e at h) in (inr m, t)
]

first_where-none :
    (test : WorkspaceConfig → Bool) (workspaces : List WorkspaceConfig)
    → first_where test workspaces ≡ none
    → (ws : WorkspaceConfig) → In ws workspaces
    → test ws ≡ false
unfolding first_where
first_where-none test [] h ws m = absurd m
first_where-none test (v ∷ rest) h ws m = elim (Bool-cases (test v)) [
  | inl e ↦ absurd (ground arith)
  | inr e ↦ elim m [
    | inl same ↦ rw same e
    | inr later ↦ first_where-none test rest (rw e at h) ws later
  ]
]

-- What `resolve_workspace` may choose: the workspace of the name that is asked for; else, where
-- none has that name, a default one; else, where there is no default, the first, or the built-in
-- one where none is configured.
abbrev pub Chosen : Text → Text → List WorkspaceConfig → WorkspaceConfig → Type 0
Chosen home name workspaces ws =
    (In ws workspaces × (ws.name ≡ name) × (is_empty name ≡ false))
    ⊎ (((v : WorkspaceConfig) → In v workspaces → is_empty name ≡ false → v.name ≢ name)
        × (In ws workspaces × (ws.default ≡ true)
            ⊎ ((v : WorkspaceConfig) → In v workspaces → v.default ≡ false)
              × (ws ≡ or_first home workspaces)))

module _ (home : Text) (workspaces : List WorkspaceConfig) where
  by_default :
      (found : Option WorkspaceConfig)
      → first_where (λ ws. ws.default) workspaces ≡ found
      → (ws : WorkspaceConfig) → elim found [ some v ↦ v | none ↦ or_first home workspaces ] ≡ ws
      → In ws workspaces × (ws.default ≡ true)
        ⊎ ((v : WorkspaceConfig) → In v workspaces → v.default ≡ false)
          × (ws ≡ or_first home workspaces)
  by_default none h ws e = inr (first_where-none (λ v. v.default) workspaces h, cc e)
  by_default (some v) h ws e = inl (first_where-In (λ v. v.default) workspaces ws (cc (h, e)))

  by_name :
      (name : Text) (found : Option WorkspaceConfig)
      → first_named name workspaces ≡ found
      → Chosen home name workspaces (resolve_workspace home name workspaces)
  unfolding first_named resolve_workspace
  by_name [] found h = inr (
    λ v m e. cc e,
    by_default (first_where (λ v. v.default) workspaces) refl (resolve_workspace home [] workspaces)
        refl,
  )
  by_name (c ∷ s) none h = inr (
    λ v m e same. cc (
      (==_iff v.name (c ∷ s)).1 same,
      first_where-none (λ v. v.name == (c ∷ s)) workspaces h v m,
    ),
    by_default (first_where (λ v. v.default) workspaces) refl
        (resolve_workspace home (c ∷ s) workspaces) (rw (h, resolve_workspace) refl),
  )
  by_name (c ∷ s) (some ws) h =
      let (m, t) = first_where-In (λ v. v.name == (c ∷ s)) workspaces ws h in
      rw (h, resolve_workspace) (inl (m, (==_iff ws.name (c ∷ s)).0 t, refl))

  -- `resolve_workspace` gives the workspace that bears the name asked for, if one does. If none
  -- does or no name is given it gives a default workspace; if there is none either, the first of
  -- the list, or the built-in one when the list is empty.
  pub resolve_workspace-Chosen :
      (name : Text) → Chosen home name workspaces (resolve_workspace home name workspaces)
  resolve_workspace-Chosen name = by_name name (first_named name workspaces) refl
