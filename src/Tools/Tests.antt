-- ===== src/Tools/Tests.antt =====
-- The theorems on workspaces at concrete inputs.
use ufoundry.Base.{◌≡◌, ◌↔◌, true, false, List, [], ◌∷◌, ◌++◌, Text, codes, text_eq}
use ufoundry.Tools.Workspace.{
  Paths, op_write, resolved_path, candidate, enforce_path, tmp_workspace,
}
use ufoundry.Tools.Workspace.Containment.{Permits, HasRoot, Under, enforce_path-Under}

-- Each path is one part of a name; none is absolute.
abbrev flat_paths : Paths
flat_paths = record {
  resolves = λ p. true;
  resolve = λ p. p ∷ [];
  is_absolute = λ p. false;
  resolve_under = λ root p. root ++ p ∷ [];
  makes = λ root. true;
}

abbrev home : Text
home = codes "/home/u"

abbrev note_path : Text
note_path = codes "notes"

abbrev note : List Text
note = codes "/home/u/.ufoundry/tmp" ∷ note_path ∷ []

enforce_path-Under_example :
    (enforce_path flat_paths note_path (tmp_workspace home) op_write ≡ resolved_path note) ↔ (
      (note ≡ candidate flat_paths (tmp_workspace home) note_path)
      × Permits (tmp_workspace home).acl op_write
      × Under note (flat_paths.resolve (tmp_workspace home).path)
      × (flat_paths.resolves (tmp_workspace home).path ≡ true)
      × (flat_paths.resolves note_path ≡ true)
      × HasRoot flat_paths (flat_paths.resolve (tmp_workspace home).path) op_write)
enforce_path-Under_example =
    enforce_path-Under flat_paths note_path (tmp_workspace home) op_write note
