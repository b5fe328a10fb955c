-- ===== src/Workspaces/Laws.antt =====
-- src/services/workspace-service.ts: the path of a workspace is its key.
use opencode_master.Base.{
  ℕ, String, none, some, List, [], ◌∷◌, ◌++◌, find?, ◌≡◌, arith, HasUniqueKeys,
  HasUniqueKeys-append, Option-cases, inr, inl,
}
use opencode_master.Types.{WorkspaceRow}
use opencode_master.Database.{Database}
use opencode_master.Workspaces.{
  WorkspaceInput, workspace_path, get_or_create, has_path, new_workspace,
}

abbrev path_of : WorkspaceRow → String
path_of row = row.path

-- No two workspaces have the same path.
abbrev pub HasUniquePaths : Database → Type 0
HasUniquePaths db = HasUniqueKeys path_of db.workspaces

found-path :
    (path : String) (xs : List WorkspaceRow) (row : WorkspaceRow)
    → find? (has_path path) xs ≡ some row
    → row.path ≡ path
found-path path [] row e = cc
found-path path (x ∷ xs) row e = ground (arith, found-path path xs row)

found-appended :
    (path : String) (xs : List WorkspaceRow) (row : WorkspaceRow)
    → find? (has_path path) xs ≡ none
    → row.path ≡ path
    → find? (has_path path) (xs ++ row ∷ []) ≡ some row
found-appended path [] row e h = ground arith
found-appended path (x ∷ xs) row e h = ground (arith, found-appended path xs row)

-- Where paths are unique, a workspace is created once for each path: the answer has the path asked for, asking again for it,
-- for any user and tenant, answers the same workspace and stores nothing, and paths stay unique.
get_or_create-idempotent :
    (db : Database) (input again : WorkspaceInput) (id id' : String) (now later : ℕ)
    → HasUniquePaths db
    → workspace_path again ≡ workspace_path input
    → ((get_or_create db input id now).1.path ≡ workspace_path input)
      × (get_or_create (get_or_create db input id now).0 again id' later
          ≡ get_or_create db input id now)
      × HasUniquePaths (get_or_create db input id now).0
unfolding get_or_create
get_or_create-idempotent db input again id id' now later u same =
    elim (Option-cases (find? (has_path (workspace_path input)) db.workspaces)) [
      | inr (row, found) ↦ (
        ground (arith, found-path (workspace_path input) db.workspaces row),
        ground arith,
        ground arith,
      )
      | inl new ↦ (
        ground arith,
        ground (
          arith,
          found-appended (workspace_path input) db.workspaces (new_workspace input id now) new,
        ),
        ground (arith, HasUniqueKeys-append path_of db.workspaces (new_workspace input id now) u),
      )
    ]
