-- ===== src/Storage/Heads.antt =====
-- src/workspace/local-store.ts: the head of a workspace after commits.
use opencode_master.Base.{
  ℕ, String, Option, none, some, List, [], ◌∷◌, ◌≡◌, ◌==◌, refl, sym, ap, ◌∙◌, arith, get_entry,
  set_entry, get-set_same, get-set_other, false, true, trim, map_some, if◌then◌else◌, text_dec,
}
use opencode_master.Storage.{
  Node, Files, manifest, text, Outcome, done, failed, version_conflict, WorkspaceObject,
  WorkspaceVersion, safe_workspace_id,
}
use opencode_master.Storage.Manifests.{
  manifest_root, manifest_below, head_below, write_version, same_version, manifest_of, read_named,
  read, head, commit, value_of,
}

same_version_lem : (a b : Option String) → a ≡ b → same_version a b ≡ true
same_version_lem none none h = refl
same_version_lem none (some b) h = ground (arith, h)
same_version_lem (some a) none h = ground (arith, h)
same_version_lem (some a) (some b) h = ground (arith, h)

other_version : (a b : Option String) → (a ≡ b → ⊥) → same_version a b ≡ false
other_version none none h = absurd (h refl)
other_version none (some b) h = refl
other_version (some a) none h = refl
other_version (some a) (some b) h = elim (text_dec a b) [
  | yes same ↦ absurd (h (ap some same))
  | no other ↦ ground (arith, other)
]

module _ (node : Node) (root id : String) where
  -- The version that `commit` compares.
  abbrev head_version : Files → Option String
  head_version files =
      map_some (λ (value : WorkspaceVersion). value.version) (head node root files id)

  commit-refused :
      (files : Files) (parent_version : Option String) (objects : List WorkspaceObject) (now : ℕ)
      → (head_version files ≡ parent_version → ⊥)
      → commit node root files id parent_version objects now ≡ (files, failed version_conflict)
  unfolding commit
  commit-refused files parent_version objects now h =
      ap
        (λ b.
          if b
          then write_version node root files (manifest_root node root id)
              (value_of node root id parent_version objects now)
          else (files, failed version_conflict))
        (other_version (head_version files) parent_version h)

  module _ (files : Files) (parent_version : Option String) (objects : List WorkspaceObject)
      (now : ℕ) (safe : safe_workspace_id id ≡ done id)
      (apart : (head_below node root (node.join (root ∷ "manifests" ∷ id ∷ []))
          == manifest_below node root
              (node.join (root ∷ "manifests" ∷ id ∷ []))
              (value_of node root id parent_version objects now).version)
        ≡ false)
      (current : head_version files ≡ parent_version) where
    abbrev base : String
    base = node.join (root ∷ "manifests" ∷ id ∷ [])

    abbrev value : WorkspaceVersion
    value = value_of node root id parent_version objects now

    abbrev with_manifest : Files
    with_manifest = set_entry files (manifest_below node root base value.version) (manifest value)

    abbrev after : Files
    after = set_entry with_manifest (head_below node root base) (text value.version)

    root-base : manifest_root node root id ≡ done base
    unfolding manifest_root
    root-base = ground (arith, safe)

    commit-writes : commit node root files id parent_version objects now ≡ (after, done value)
    unfolding commit
    commit-writes =
        ap
          (λ b.
            if b
            then write_version node root files (manifest_root node root id) value
            else (files, failed version_conflict))
          (same_version_lem (head_version files) parent_version current)
        ∙ ap (λ o. write_version node root files o value) root-base

    read-after : read node root after id value.version ≡ some value
    unfolding read
    read-after =
        ap
          (λ (o : Outcome String). elim o as (λ _. Option WorkspaceVersion) [
            | failed _ ↦ none
            | done base ↦
                manifest_of (get_entry after (manifest_below node root base value.version))
          ])
          root-base
        ∙ ap manifest_of (
            get-set_other with_manifest (head_below node root base)
              (manifest_below node root base value.version) (text value.version) apart
            ∙ get-set_same files (manifest_below node root base value.version) (manifest value))

    head-after :
        trim value.version ≡ value.version
        → (value.version == "") ≡ false
        → head node root after id ≡ some value
    unfolding head
    head-after t f =
        ap
          (λ (o : Outcome String). elim o as (λ _. Option WorkspaceVersion) [
            | failed _ ↦ none
            | done base ↦
                read_named node root after id (get_entry after (head_below node root base))
          ])
          root-base
        ∙ ap (read_named node root after id)
            (get-set_same with_manifest (head_below node root base) (text value.version))
        ∙ ap (λ version. if version == "" then none else read node root after id version) t
        ∙ ap (λ b. if b then none else read node root after id value.version) f
        ∙ read-after

    -- A commit on the head of a workspace makes the new version its head, which can be read back, and
    -- from then on a second commit on the same parent is refused and writes nothing, if the new version
    -- is not that parent: the later of two writers that start from the same version loses. The name of
    -- the version is a text without white space at its ends, and the file of the head is no manifest's.
    pub commit-head :
        trim value.version ≡ value.version
        → (value.version == "") ≡ false
        → (some value.version ≡ parent_version → ⊥)
        → (others : List WorkspaceObject) (later : ℕ)
        → (commit node root files id parent_version objects now ≡ (after, done value))
          × (head node root after id ≡ some value)
          × (read node root after id value.version ≡ some value)
          × (commit node root after id parent_version others later
              ≡ (after, failed version_conflict))
    commit-head t f fresh others later = (
      commit-writes,
      head-after t f,
      read-after,
      commit-refused after parent_version others later (λ e.
          fresh (
            sym (ap (map_some (λ (value : WorkspaceVersion). value.version)) (head-after t f))
            ∙ e)),
    )
