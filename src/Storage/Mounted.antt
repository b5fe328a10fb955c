-- ===== src/Storage/Mounted.antt =====
-- src/workspace/mounted-adapter.ts: workspaces in folders of a mounted file system. Whether the adapter
-- is ready is its state; what the probes and `mkdir` find is an argument.
use opencode_master.Base.{
  String, Bool, true, false, not, [], ◌∷◌, ◌==◌, ◌&&◌, ◌||◌, if◌then◌else◌, starts_with,
}
use opencode_master.Storage.{
  Node, Outcome, done, failed, path_error, mount_error, safe_workspace_id, and_then, missing,
}

pub record MountedWorkspaceOptions : Type 0 where
  pub root : String
  pub requires_existing_mount : Bool
  pub has_probe : Bool

-- What the adapter finds outside: the answer of the probe, whether the root is a folder, and whether
-- the root, and the folder of a workspace, can be made.
pub record Mount : Type 0 where
  pub is_mounted : Bool
  pub is_directory : Bool
  pub can_make_root : Bool
  pub can_make : Bool

abbrev checked : (String → String) → String → Outcome String
checked normalize id =
    if not (normalize id == id) || starts_with ".." (normalize id)
    then failed path_error
    else done id

unfoldable pub mounted_workspace_id : (String → String) → String → Outcome String
mounted_workspace_id normalize id = and_then (safe_workspace_id id) (checked normalize)

module _ (node : Node) (options : MountedWorkspaceOptions) where
  -- The state after `start`, and how it ends.
  unfoldable pub start : Bool → Mount → Bool × Outcome (Unit {0})
  start is_ready mount =
      let mounted = if options.has_probe then mount.is_mounted else mount.is_directory in
      if is_ready
      then (true, done tt)
      else if not mounted && (options.has_probe || options.requires_existing_mount)
      then (false, failed mount_error)
      else if not mounted && not mount.can_make_root
      then (false, failed missing)
      else (true, done tt)

  unfoldable pub path_for : String → Outcome String
  path_for id =
      and_then (mounted_workspace_id node.normalize id)
        (λ id. done (node.join (options.root ∷ id ∷ [])))

  unfoldable pub prepare : Bool → Mount → String → Bool × Outcome String
  prepare is_ready mount id =
      let (ready, outcome) = start is_ready mount in
      elim outcome [
        | failed e ↦ (ready, failed e)
        | done _ ↦ (
          ready,
          and_then (path_for id)
              (λ directory. if mount.can_make then done directory else failed missing),
        )
      ]
