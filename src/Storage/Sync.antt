-- ===== src/Storage/Sync.antt =====
-- src/workspace/sync.ts: `WorkspaceSync`, between a folder of the worker and the store. The folder that
-- is committed is a tree, and the folder that is hydrated is a map from paths to contents. The path of a
-- file below the source folder is its names with slashes between them.
use opencode_master.Base.{
  ℕ, String, Option, none, some, List, [], ◌∷◌, ◌++◌, if◌then◌else◌, split, starts_with, join, map,
  set_entry,
}
use opencode_master.Storage.{
  Node, Files, Outcome, done, failed, manifest_missing, WorkspaceObject, WorkspaceVersion,
  normalize_path, put, get,
}
use opencode_master.Storage.Manifests.{read, commit}

mutual
  pub data Item : Type 0 where
    file : List ℕ → Item
    folder : Items → Item
    other : Item

  pub data Items : Type 0 where
    end : Items
    item : String → Item → Items → Items

pub record SourceFile : Type 0 where
  pub names : List String
  pub content : List ℕ

abbrev below : String → SourceFile → SourceFile
below name found = record found { names = name ∷ found.names }

-- The files of a folder; what has a name that starts with a dot is left out.
unfoldable mutual
  pub files_of : Items → List SourceFile
  files_of end = []
  files_of (item name here rest) =
      let others = files_of rest in
      if starts_with "." name then others else files_at name here ++ others

  pub files_at : String → Item → List SourceFile
  files_at name (file content) = record { names = name ∷ []; content = content } ∷ []
  files_at name (folder items) = map (below name) (files_of items)
  files_at name other = []

-- The folder that is hydrated.
abbrev pub Target : Type 0
Target = List (String × List ℕ)

module _ (node : Node) (root : String) where
  abbrev write_target : Target → String → Outcome (List ℕ) → String → Target × Outcome (Unit {0})
  write_target target directory (failed e) path = (target, failed e)
  write_target target directory (done content) path =
      (set_entry target (node.join (directory ∷ split b'/' path)) content, done tt)

  abbrev pub hydrate_at :
      Files
      → String
      → String
      → Target
      → WorkspaceObject
      → Outcome String
      → Target × Outcome (Unit {0})
  hydrate_at files id directory target object (failed e) = (target, failed e)
  hydrate_at files id directory target object (done path) =
      write_target target directory (get node root files id object.path) path

  -- The contents are read by path, as the store has them now.
  unfoldable pub hydrate_all :
      Files → String → String → List WorkspaceObject → Target → Target × Outcome (Unit {0})
  hydrate_all files id directory [] target = (target, done tt)
  hydrate_all files id directory (object ∷ objects) target =
      let (written, outcome) =
        hydrate_at files id directory target object (normalize_path node.normalize object.path) in
      elim outcome [
        | failed e ↦ (written, failed e)
        | done _ ↦ hydrate_all files id directory objects written
      ]

  abbrev pub hydrated :
      WorkspaceVersion → Target × Outcome (Unit {0}) → Target × Outcome WorkspaceVersion
  hydrated value (target, failed e) = (target, failed e)
  hydrated value (target, done _) = (target, done value)

  unfoldable pub hydrate :
      Files → String → String → String → Target → Target × Outcome WorkspaceVersion
  hydrate files id version directory target = elim (read node root files id version) [
    | none ↦ (target, failed manifest_missing)
    | some value ↦ hydrated value (hydrate_all files id directory value.objects target)
  ]

  abbrev put_file : Files → String → SourceFile → Outcome String → Files × Outcome WorkspaceObject
  put_file files id found (failed e) = (files, failed e)
  put_file files id found (done path) = put node root files id path found.content none

  abbrev add_ref :
      WorkspaceObject
      → Files × Outcome (List WorkspaceObject)
      → Files × Outcome (List WorkspaceObject)
  add_ref object (files, failed e) = (files, failed e)
  add_ref object (files, done objects) = (files, done (object ∷ objects))

  unfoldable pub put_all : Files → String → List SourceFile → Files × Outcome (List WorkspaceObject)
  put_all files id [] = (files, done [])
  put_all files id (found ∷ others) =
      let (stored, outcome) =
        put_file files id found (normalize_path node.normalize (join "/" found.names)) in
      elim outcome [
        | failed e ↦ (stored, failed e)
        | done object ↦ add_ref object (put_all stored id others)
      ]

  unfoldable pub commit_folder :
      Files → String → Option String → Items → ℕ → Files × Outcome WorkspaceVersion
  commit_folder files id parent_version source now =
      let (stored, outcome) = put_all files id (files_of source) in
      elim outcome [
        | failed e ↦ (stored, failed e)
        | done refs ↦ commit node root stored id parent_version refs now
      ]
