-- ===== src/Storage/Contents.antt =====
-- src/workspace/sync.ts: what `hydrate` writes to the folder.
use opencode_master.Base.{
  String, Option, none, some, false, List, [], ◌∷◌, ◌≡◌, ◌==◌, ap, sym, subst, ◌∙◌, arith, All, inl,
  inr, Option-cases, split, set_entry, get_entry, get-set_same, get-set_other, ℕ,
}
use opencode_master.Storage.{
  Node, Files, Outcome, done, failed, WorkspaceObject, WorkspaceVersion, normalize_path, get,
  manifest_missing,
}
use opencode_master.Storage.Manifests.{read}
use opencode_master.Storage.Objects.{Outcome-cases}
use opencode_master.Storage.Sync.{Target, hydrate_all, hydrate, hydrated}

module _ (node : Node) (root : String) (files : Files) (id directory : String) where
  abbrev place : String → String
  place path = node.join (directory ∷ split b'/' path)

  -- The object is not written to this file.
  abbrev IsOff : String → WorkspaceObject → Type 0
  IsOff file object =
      (path : String)
      → normalize_path node.normalize object.path ≡ done path
      → (place path == file) ≡ false

  -- No two objects are written to the same file.
  abbrev pub HasOwnFiles : List WorkspaceObject → Type 0
  HasOwnFiles [] = Unit
  HasOwnFiles (object ∷ objects) =
      ((path : String)
        → normalize_path node.normalize object.path ≡ done path
        → All (IsOff (place path)) objects)
      × HasOwnFiles objects

  -- The file of an object has the content that the store gives for the object's path.
  pub record IsWritten (after : Target) (object : WorkspaceObject) : Type 0 where
    pub path : String
    pub content : List ℕ
    pub is_path : normalize_path node.normalize object.path ≡ done path
    pub is_stored : get node root files id object.path ≡ done content
    pub is_there : get_entry after (place path) ≡ some content

  -- The objects are written, and no other file changes.
  abbrev pub Wrote : Target → Target → List WorkspaceObject → Type 0
  Wrote target after objects =
      All (IsWritten after) objects
      × ((file : String) → All (IsOff file) objects → get_entry after file ≡ get_entry target file)

  hydrate_all-step :
      (object : WorkspaceObject) (objects : List WorkspaceObject) (target : Target) (path : String)
      (content : List ℕ)
      → normalize_path node.normalize object.path ≡ done path
      → get node root files id object.path ≡ done content
      → hydrate_all node root files id directory (object ∷ objects) target
        ≡ hydrate_all node root files id directory objects (set_entry target (place path) content)
  unfolding hydrate_all
  hydrate_all-step object objects target path content n g = ground (arith, n, g)

  hydrate_all-failed :
      (object : WorkspaceObject) (objects : List WorkspaceObject) (target after : Target)
      → hydrate_all node root files id directory (object ∷ objects) target ≡ (after, done tt)
      → (path : String) × (content : List ℕ) × (normalize_path node.normalize object.path
          ≡ done path)
        × (get node root files id object.path ≡ done content)
  unfolding hydrate_all
  hydrate_all-failed object objects target after e =
      elim (Outcome-cases (normalize_path node.normalize object.path)) [
        | inl (bad, n) ↦ ground (arith, n, e)
        | inr (path, n) ↦ elim (Outcome-cases (get node root files id object.path)) [
          | inl (bad, g) ↦ ground (arith, n, g, e)
          | inr (content, g) ↦ (path, content, n, g)
        ]
      ]

  hydrate_all-Wrote :
      (objects : List WorkspaceObject) (target after : Target)
      → HasOwnFiles objects
      → hydrate_all node root files id directory objects target ≡ (after, done tt)
      → Wrote target after objects
  unfolding hydrate_all
  hydrate_all-Wrote [] target after own e = (tt, λ file off. ground (arith, e))
  hydrate_all-Wrote (object ∷ objects) target after (own, rest) e =
      let (path, content, n, g) = hydrate_all-failed object objects target after e in
      let next = set_entry target (place path) content in
      let (written, kept) =
        hydrate_all-Wrote objects next after rest
          (sym (hydrate_all-step object objects target path content n g) ∙ e) in
      (
        (
          record {
            path = path;
            content = content;
            is_path = n;
            is_stored = g;
            is_there = kept (place path) (own path n) ∙ get-set_same target (place path) content;
          },
          written,
        ),
        λ file (off, others).
            kept file others ∙ get-set_other target (place path) file content (off path n),
      )

  abbrev hydrate_of : Option WorkspaceVersion → Target → Target × Outcome WorkspaceVersion
  hydrate_of o target = elim o [
    | none ↦ (target, failed manifest_missing)
    | some value ↦
        hydrated node root value (hydrate_all node root files id directory value.objects target)
  ]

  hydrated-done :
      (value found : WorkspaceVersion) (r : Target × Outcome (Unit {0})) (after : Target)
      → hydrated node root value r ≡ (after, done found)
      → (value ≡ found) × (r ≡ (after, done tt))
  hydrated-done value found (target, failed e) after h = ground (arith, h)
  hydrated-done value found (target, done _) after h = ground (arith, h)

  -- A hydration that returns a version has read it from the store, and has written each of its objects
  -- to its file, with the content that the store has for the object's path now, and no other file has
  -- changed. No two objects of the version are written to the same file.
  pub hydrate-Wrote :
      (v : String) (value : WorkspaceVersion) (target after : Target)
      → HasOwnFiles value.objects
      → hydrate node root files id v directory target ≡ (after, done value)
      → (read node root files id v ≡ some value) × Wrote target after value.objects
  unfolding hydrate
  hydrate-Wrote v value target after own e = elim (Option-cases (read node root files id v)) [
    | inl missing ↦ ground (arith, missing, e)
    | inr (found, there) ↦
        let read_it = sym (ap (λ o. hydrate_of o target) there) ∙ e in
        let (same, all_done) =
          hydrated-done found value (hydrate_all node root files id directory found.objects target)
            after read_it in
        let written =
          hydrate_all-Wrote found.objects target after
            (subst (λ (w : WorkspaceVersion). HasOwnFiles w.objects) (sym same) own) all_done in
        (
          there ∙ ap some same,
          subst (λ (w : WorkspaceVersion). Wrote target after w.objects) same written,
        )
  ]
