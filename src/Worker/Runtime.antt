-- ===== src/Worker/Runtime.antt =====
-- src/worker/workspace-runtime.ts: the directories of workspaces, prepared once. The adapter is an
-- argument, with the path or the message of an error for each workspace.
use opencode_master.Base.{
  String, Option, none, some, List, ◌==◌, if◌then◌else◌, get_entry, set_entry,
}

pub data Prepared : Type 0 where
  refused : String → Prepared
  directory : String → Prepared

abbrev existing_path : Option String → Option String
existing_path none = none
existing_path (some path) = if path == "" then none else some path

abbrev stored_path : List (String × String) → String → Prepared → List (String × String) × Prepared
stored_path paths id (refused message) = (paths, refused message)
stored_path paths id (directory path) = (set_entry paths id path, directory path)

unfoldable pub prepare :
    (String → Prepared) → List (String × String) → String → List (String × String) × Prepared
prepare adapter paths id = elim (existing_path (get_entry paths id)) [
  | some path ↦ (paths, directory path)
  | none ↦ stored_path paths id (adapter id)
]

unfoldable pub path_for : List (String × String) → String → Option String
path_for paths id = get_entry paths id
