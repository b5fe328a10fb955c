-- ===== src/Storage/Manifests.antt =====
-- src/workspace/local-store.ts: `LocalWorkspaceManifestStore`, the versions of a workspace and its head.
use opencode_master.Base.{
  ℕ, String, Option, none, some, Bool, List, [], ◌∷◌, ◌==◌, if◌then◌else◌, trim, template,
  get_entry, set_entry, map_some, true, false,
}
use opencode_master.Storage.{
  Node, Files, Content, manifest, text, Outcome, done, failed, version_conflict, WorkspaceObject,
  WorkspaceVersion, and_then, safe_workspace_id, sort_paths, given,
}

abbrev pub manifest_of : Option Content → Option WorkspaceVersion
manifest_of (some (manifest value)) = some value
manifest_of _ = none

-- `===` of two versions, either of which may be undefined.
abbrev pub same_version : Option String → Option String → Bool
same_version none none = true
same_version (some a) (some b) = a == b
same_version _ _ = false

module _ (node : Node) (root : String) where
  unfoldable pub manifest_root : String → Outcome String
  manifest_root id =
      and_then (safe_workspace_id id) (λ id. done (node.join (root ∷ "manifests" ∷ id ∷ [])))

  abbrev pub manifest_below : String → String → String
  manifest_below base version = node.join (base ∷ template (version ∷ ".json" ∷ []) ∷ [])

  abbrev pub head_below : String → String
  head_below base = node.join (base ∷ "HEAD" ∷ [])

  -- An error of the path, of the reading or of the JSON gives no version.
  unfoldable pub read : Files → String → String → Option WorkspaceVersion
  read files id version = elim (manifest_root id) [
    | failed _ ↦ none
    | done base ↦ manifest_of (get_entry files (manifest_below base version))
  ]

  abbrev pub read_named : Files → String → Option Content → Option WorkspaceVersion
  read_named files id (some (text name)) =
      let version = trim name in if version == "" then none else read files id version
  read_named files id _ = none

  unfoldable pub head : Files → String → Option WorkspaceVersion
  head files id = elim (manifest_root id) [
    | failed _ ↦ none
    | done base ↦ read_named files id (get_entry files (head_below base))
  ]

  abbrev pub value_of : String → Option String → List WorkspaceObject → ℕ → WorkspaceVersion
  value_of id parent_version objects now =
      let ordered = sort_paths node.before objects in
      record {
        workspace_id = id;
        version = node.hash_text (node.describe id parent_version ordered);
        parent_version = given parent_version;
        objects = ordered;
        created_at = now;
      }

  abbrev pub write_version :
      Files → Outcome String → WorkspaceVersion → Files × Outcome WorkspaceVersion
  write_version files (failed e) value = (files, failed e)
  write_version files (done base) value = (
    set_entry (set_entry files (manifest_below base value.version) (manifest value))
        (head_below base) (text value.version),
    done value,
  )

  unfoldable pub commit :
      Files → String → Option String → List WorkspaceObject → ℕ → Files × Outcome WorkspaceVersion
  commit files id parent_version objects now =
      let current = map_some (λ (value : WorkspaceVersion). value.version) (head files id) in
      if same_version current parent_version
      then write_version files (manifest_root id) (value_of id parent_version objects now)
      else (files, failed version_conflict)
