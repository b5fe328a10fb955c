-- ===== src/Storage/Objects.antt =====
-- src/workspace/local-store.ts: what is put is got back, and the stored objects do not change.
use opencode_master.Base.{
  ℕ, String, Option, none, some, List, [], ◌∷◌, ◌≡◌, ◌==◌, refl, sym, subst, ap, ◌∙◌, arith, inl,
  inr, Option-cases, get_entry, set_entry, get-set_entry, get-set_same, get-set_other, false, true,
  is_some, template, split, if◌then◌else◌, ◌⊎◌, text_dec,
}
use opencode_master.Storage.{
  Node, Files, Content, bytes, ref, manifest, text, Outcome, done, failed, WorkspaceObject,
  StoreError, path_error, is_digest, safe_workspace_id, object_of, object_path, ref_path,
  normalize_path, put, get, write_missing, and_then, read_ref, read_bytes, put_at, write_object,
  write_ref, refs_root,
}

-- How an outcome ends.
pub Outcome-cases {ℓ} :
    {A : Type ℓ} (o : Outcome A) → ((e : StoreError) × (o ≡ failed e)) ⊎ ((a : A) × (o ≡ done a))
Outcome-cases (done a) = inr (a, refl)
Outcome-cases (failed e) = inl (e, refl)

module _ (node : Node) (root : String) where
  -- What stands at the path of an object has the object's digest.
  abbrev Fits : String → Option Content → Type 0
  Fits digest none = Unit
  Fits digest (some (bytes blob)) = node.hash_bytes blob ≡ digest
  Fits digest (some (ref _)) = ⊥
  Fits digest (some (manifest _)) = ⊥
  Fits digest (some (text _)) = ⊥

  abbrev IsAddressed : Files → Type 0
  IsAddressed files =
      (digest path : String)
      → object_path node root digest ≡ done path
      → Fits digest (get_entry files path)

  -- Different digests have different paths, and no reference stands at the path of an object.
  abbrev HasPlaces : Type 0
  HasPlaces =
      ((d e path : String)
        → object_path node root d ≡ done path
        → object_path node root e ≡ done path
        → d ≡ e)
      × ((d id relative_path path name : String)
          → object_path node root d ≡ done path
          → ref_path node root id relative_path ≡ done name
          → (name == path) ≡ false)

  missing-Fits :
      (places : HasPlaces) (files : Files) (digest other path stored : String) (blob : List ℕ)
      → object_path node root digest ≡ done path
      → object_path node root other ≡ done stored
      → node.hash_bytes blob ≡ digest
      → IsAddressed files
      → Fits other (get_entry (write_missing files path (bytes blob)) stored)
  missing-Fits places files digest other path stored blob h k e v =
      elim (Option-cases (get_entry files path)) [
        | inr (old, there) ↦ subst (Fits other) (ground (arith, there)) (v other stored k)
        | inl absent ↦ elim (text_dec path stored) [
          | yes same ↦
              subst (Fits other) {x = some (bytes blob)}
                (ground (arith, absent, same, get-set_entry files path stored (bytes blob)))
                (e ∙ places.0 digest other path h (k ∙ ap done (sym same)))
          | no other_path ↦
              subst (Fits other) {x = get_entry files stored}
                (ground (arith, absent, other_path, get-set_entry files path stored (bytes blob)))
                (v other stored k)
        ]
      ]

  -- The files after a reference is written are the same at the paths of objects.
  write_ref-IsAddressed :
      (places : HasPlaces) (files : Files) (id relative_path : String) (object : WorkspaceObject)
      → IsAddressed files
      → IsAddressed (write_ref node root files (ref_path node root id relative_path) object).0
  write_ref-IsAddressed places files id relative_path object v =
      elim (Outcome-cases (ref_path node root id relative_path)) [
        | inl (e, wrong) ↦
            subst (λ o. IsAddressed (write_ref node root files o object).0) (sym wrong) v
        | inr (name, right) ↦
            subst (λ o. IsAddressed (write_ref node root files o object).0) (sym right)
              (λ digest path h.
                subst (Fits digest)
                  (ground (
                    arith,
                    places.1 digest id relative_path path name h right,
                    get-set_entry files name path (ref object),
                  ))
                  (v digest path h))
      ]

  write_object-IsAddressed :
      (places : HasPlaces) (files : Files) (id digest : String) (blob : List ℕ)
      (object : WorkspaceObject)
      → node.hash_bytes blob ≡ digest
      → IsAddressed files
      → IsAddressed (write_object node root files (object_path node root digest) id blob object).0
  write_object-IsAddressed places files id digest blob object e v =
      elim (Outcome-cases (object_path node root digest)) [
        | inl (error, wrong) ↦
            subst (λ o. IsAddressed (write_object node root files o id blob object).0) (sym wrong) v
        | inr (path, right) ↦
            subst (λ o. IsAddressed (write_object node root files o id blob object).0) (sym right)
              (write_ref-IsAddressed places (write_missing files path (bytes blob)) id object.path
                object
                (λ other stored k.
                  missing-Fits places files digest other path stored blob right k e v))
      ]

  put-IsAddressed :
      (places : HasPlaces) (files : Files) (id relative_path : String) (blob : List ℕ)
      (content_type : Option String)
      → IsAddressed files
      → IsAddressed (put node root files id relative_path blob content_type).0
  unfolding put
  put-IsAddressed places files id relative_path blob content_type v =
      elim (Outcome-cases (normalize_path node.normalize relative_path)) [
        | inl (error, wrong) ↦
            subst (λ o. IsAddressed (put_at node root files id o blob content_type).0) (sym wrong) v
        | inr (path, right) ↦
            subst (λ o. IsAddressed (put_at node root files id o blob content_type).0) (sym right)
              (write_object-IsAddressed places files id (node.hash_bytes blob) blob
                (object_of node path blob content_type) refl v)
      ]

  -- The object stands at its path after it was written, whether or not it was there before.
  missing-holds :
      (files : Files) (path : String) (blob : List ℕ)
      → (get_entry files path ≡ none) ⊎ (get_entry files path ≡ some (bytes blob))
      → get_entry (write_missing files path (bytes blob)) path ≡ some (bytes blob)
  missing-holds files path blob (inl absent) =
      ap
        (λ (o : Option Content).
          get_entry (if is_some o then files else set_entry files path (bytes blob)) path)
        absent
      ∙ get-set_same files path (bytes blob)
  missing-holds files path blob (inr there) =
      ap
        (λ (o : Option Content).
          get_entry (if is_some o then files else set_entry files path (bytes blob)) path)
        there
      ∙ there

  module _ (id relative_path path : String) (blob : List ℕ) (content_type : Option String)
      (safe : safe_workspace_id id ≡ done id) (hex : is_digest 64 (node.hash_bytes blob) ≡ true)
      (normal : normalize_path node.normalize relative_path ≡ done path)
      (again : normalize_path node.normalize path ≡ done path) where
    abbrev stored : String
    stored = node.join (root ∷ "objects" ∷ node.hash_bytes blob ∷ [])

    abbrev name : String
    name =
        template (node.join (node.join (root ∷ "refs" ∷ id ∷ []) ∷ split b'/' path) ∷ ".json" ∷ [])

    object_path-stored : object_path node root (node.hash_bytes blob) ≡ done stored
    unfolding object_path
    object_path-stored = ap (λ b. if b then done stored else failed path_error) hex

    ref_path-name :
        (given_path : String)
        → normalize_path node.normalize given_path ≡ done path
        → ref_path node root id given_path ≡ done name
    unfolding ref_path refs_root
    ref_path-name given_path h = ground (arith, safe, h)

    abbrev object : WorkspaceObject
    object = object_of node path blob content_type

    put-stores :
        (files : Files)
        → put node root files id relative_path blob content_type
          ≡ (set_entry (write_missing files stored (bytes blob)) name (ref object), done object)
    unfolding put
    put-stores files =
        ap (λ o. put_at node root files id o blob content_type) normal
        ∙ ap (λ o. write_object node root files o id blob object) object_path-stored
        ∙ ap (λ o. write_ref node root (write_missing files stored (bytes blob)) o object)
            (ref_path-name path again)

    -- The rest of `get`, after a reference was read.
    abbrev get_bytes : Files → WorkspaceObject → Outcome (List ℕ)
    get_bytes files found =
        and_then (object_path node root found.digest) (λ path. read_bytes (get_entry files path))

    get-name :
        (files : Files)
        → get node root files id relative_path
          ≡ and_then (read_ref (get_entry files name)) (get_bytes files)
    unfolding get
    get-name files =
        ap
          (λ o. and_then o (λ found. and_then (read_ref (get_entry files found)) (get_bytes files)))
          (ref_path-name relative_path normal)

    -- What is put under a path is got back from it, byte by byte, also where the object was in the store
    -- before and is not written again. The id and the path are accepted, the normal path stays as it is,
    -- the digest has 64 hexadecimal digits, its path holds nothing or the same bytes, and it is not the
    -- path of the reference.
    pub get-put :
        (files : Files)
        → (name == stored) ≡ false
        → (get_entry files stored ≡ none) ⊎ (get_entry files stored ≡ some (bytes blob))
        → ((put node root files id relative_path blob content_type).1 ≡ done object)
          × (get node root
                (put node root files id relative_path blob content_type).0
                id
                relative_path
              ≡ done blob)
    unfolding get
    get-put files apart held =
        let there = missing-holds files stored blob held in
        let after = write_missing files stored (bytes blob) in
        (
          ap (λ k. k.1) (put-stores files),
          ap (λ (k : Files × Outcome WorkspaceObject). get node root k.0 id relative_path)
                (put-stores files)
              ∙ get-name (set_entry after name (ref object))
              ∙ ap (λ o. and_then (read_ref o) (get_bytes (set_entry after name (ref object))))
                  (get-set_same after name (ref object))
              ∙ ap
                  (λ o.
                    and_then o
                      (λ path. read_bytes (get_entry (set_entry after name (ref object)) path)))
                  object_path-stored
              ∙ ap read_bytes (get-set_other after name stored (ref object) apart ∙ there),
        )
