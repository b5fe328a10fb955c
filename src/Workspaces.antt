-- ===== src/Workspaces.antt =====
-- src/services/workspace-service.ts: one workspace for each path.
pub mod Laws
use opencode_master.Base.{
  ℕ, String, Option, none, some, Bool, [], ◌∷◌, ◌++◌, find?, ◌==◌, or_else, template,
}
use opencode_master.Types.{WorkspaceRow}
use opencode_master.Database.{Database}

abbrev pub has_path : String → WorkspaceRow → Bool
has_path path row = row.path == path

pub record WorkspaceInput : Type 0 where
  pub user_id : String
  pub tenant_id : String
  pub path : Option String

abbrev pub workspace_path : WorkspaceInput → String
workspace_path input = or_else input.path (template ("/workspace/" ∷ input.user_id ∷ []))

abbrev pub new_workspace : WorkspaceInput → String → ℕ → WorkspaceRow
new_workspace input id now = record {
  id = id;
  user_id = input.user_id;
  tenant_id = input.tenant_id;
  path = workspace_path input;
  created_at = now;
  updated_at = now;
}

unfoldable pub get_or_create : Database → WorkspaceInput → String → ℕ → Database × WorkspaceRow
get_or_create db input id now = elim (find? (has_path (workspace_path input)) db.workspaces) [
  | some existing ↦ (db, existing)
  | none ↦
      let workspace = new_workspace input id now in
      (record db { workspaces = db.workspaces ++ workspace ∷ [] }, workspace)
]
