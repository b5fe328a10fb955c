-- ===== src/Storage.antt =====
-- src/workspace/store.ts and src/workspace/local-store.ts: the objects of workspaces, stored by digest in
-- files. The files are a map from paths to contents, before they are printed as JSON; folders are not
-- modelled, and a file with another content than is asked for counts as malformed. What the store calls
-- of Node and Bun is the record `Node`.
pub mod Manifests
pub mod Sync
pub mod Mounted
pub mod Objects
pub mod Heads
pub mod Contents
mod Tests
use Prim.Native.Char.{code}
use Prim.Native.String
use Prim.Native.String.{String}
use opencode_master.Base.{
  ℕ, Option, none, some, Bool, false, List, [], ◌∷◌, ◌==◌, ◌&&◌, ◌||◌, if◌then◌else◌, eqb, leb,
  length, split, starts_with, template, get_entry, set_entry, delete_entry, is_some, select, ◌-◌,
  not,
}

pub record WorkspaceObject : Type 0 where
  pub path : String
  pub digest : String
  pub size : ℕ
  pub content_type : Option String

pub record WorkspaceVersion : Type 0 where
  pub workspace_id : String
  pub version : String
  pub parent_version : Option String
  pub objects : List WorkspaceObject
  pub created_at : ℕ

pub data Content : Type 0 where
  bytes : List ℕ → Content
  ref : WorkspaceObject → Content
  manifest : WorkspaceVersion → Content
  text : String → Content

abbrev Files : Type 0
Files = List (String × Content)

-- `path_error`, `version_conflict` and `mount_error` are the classes of the source, and
-- `manifest_missing` is the error of `hydrate`; a file may be missing or malformed.
pub data StoreError : Type 0 where
  path_error version_conflict missing malformed manifest_missing mount_error : StoreError

pub data Outcome {ℓ} (A : Type ℓ) : Type ℓ where
  done : A → Outcome A
  failed : StoreError → Outcome A

-- `join` and `normalize` of `node:path`, the hashes of bytes and of a text, the text of a manifest's
-- descriptor, and whether `localeCompare` puts a text before another or leaves them as they are.
pub record Node : Type 0 where
  pub join : List String → String
  pub normalize : String → String
  pub hash_bytes : List ℕ → String
  pub hash_text : String → String
  pub describe : String → Option String → List WorkspaceObject → String
  pub before : String → String → Bool

abbrev and_then {ℓ κ} : {A : Type ℓ} {B : Type κ} → Outcome A → (A → Outcome B) → Outcome B
and_then (done a) f = f a
and_then (failed e) f = failed e

-- `replaceAll("\\", "/")`.
unfoldable pub to_slashes : String → String
to_slashes String.[] = ""
to_slashes (String.◌∷◌ c s) =
    let rest = to_slashes s in if eqb (code c) b'\\' then String.◌∷◌ "/" rest else String.◌∷◌ c rest

-- `includes` of a character.
unfoldable pub has_char : ℕ → String → Bool
has_char mark String.[] = false
has_char mark (String.◌∷◌ c s) = let rest = has_char mark s in eqb (code c) mark || rest

unfoldable pub normalize_path : (String → String) → String → Outcome String
normalize_path normalize relative_path =
    let candidate = to_slashes relative_path in
    let normalized = normalize candidate in
    if candidate == "" || starts_with "/" candidate || has_char 0 candidate
    then failed path_error
    else if normalized == "." || normalized == ".." || starts_with "../" normalized
    then failed path_error
    else done normalized

unfoldable pub safe_workspace_id : String → Outcome String
safe_workspace_id id =
    if id == "" || id == "." || id == ".." || has_char b'/' id || has_char b'\\' id || has_char 0 id
    then failed path_error
    else done id

-- The test of `/^[a-f0-9]{64}$/`.
abbrev is_hex : ℕ → Bool
is_hex c = (leb b'a' c && leb c b'f') || (leb b'0' c && leb c b'9')

unfoldable pub is_digest : ℕ → String → Bool
is_digest n String.[] = eqb n 0
is_digest n (String.◌∷◌ c s) =
    let rest = is_digest (n - 1) s in is_hex (code c) && not (eqb n 0) && rest

-- `contentType ? { contentType } : {}`.
abbrev pub given : Option String → Option String
given none = none
given (some s) = if s == "" then none else some s

abbrev pub object_of : Node → String → List ℕ → Option String → WorkspaceObject
object_of node path blob content_type = record {
  path = path;
  digest = node.hash_bytes blob;
  size = length blob;
  content_type = given content_type;
}

abbrev write_missing : Files → String → Content → Files
write_missing files path content =
    if is_some (get_entry files path) then files else set_entry files path content

abbrev read_ref : Option Content → Outcome WorkspaceObject
read_ref none = failed missing
read_ref (some (ref object)) = done object
read_ref (some _) = failed malformed

abbrev read_bytes : Option Content → Outcome (List ℕ)
read_bytes none = failed missing
read_bytes (some (bytes blob)) = done blob
read_bytes (some _) = failed malformed

-- `sort`: stable, so any stable method gives the same list.
abbrev insert_path :
    (String → String → Bool) → WorkspaceObject → List WorkspaceObject → List WorkspaceObject
insert_path before x [] = x ∷ []
insert_path before x (y ∷ ys) =
    if before x.path y.path then x ∷ (y ∷ ys) else y ∷ insert_path before x ys

unfoldable pub sort_paths : (String → String → Bool) → List WorkspaceObject → List WorkspaceObject
sort_paths before [] = []
sort_paths before (x ∷ xs) = insert_path before x (sort_paths before xs)

-- `endsWith`.
unfoldable pub ends_with : String → String → Bool
ends_with end String.[] = end == ""
ends_with end (String.◌∷◌ c s) = let rest = ends_with end s in String.◌∷◌ c s == end || rest

abbrev read_refs : List (String × Content) → Outcome (List WorkspaceObject)
read_refs [] = done []
read_refs ((path, content) ∷ files) =
    and_then (read_ref (some content))
      (λ object. and_then (read_refs files) (λ objects. done (object ∷ objects)))

module _ (node : Node) (root : String) where
  unfoldable pub refs_root : String → Outcome String
  refs_root id = and_then (safe_workspace_id id) (λ id. done (node.join (root ∷ "refs" ∷ id ∷ [])))

  unfoldable pub object_path : String → Outcome String
  object_path digest =
      if is_digest 64 digest
      then done (node.join (root ∷ "objects" ∷ digest ∷ []))
      else failed path_error

  unfoldable pub ref_path : String → String → Outcome String
  ref_path id relative_path = and_then (refs_root id) (λ base.
      and_then (normalize_path node.normalize relative_path)
        (λ path. done (template (node.join (base ∷ split b'/' path) ∷ ".json" ∷ []))))

  -- What was written before an error stays written.
  abbrev write_ref : Files → Outcome String → WorkspaceObject → Files × Outcome WorkspaceObject
  write_ref files (failed e) object = (files, failed e)
  write_ref files (done path) object = (set_entry files path (ref object), done object)

  abbrev write_object :
      Files → Outcome String → String → List ℕ → WorkspaceObject → Files × Outcome WorkspaceObject
  write_object files (failed e) id blob object = (files, failed e)
  write_object files (done path) id blob object =
      write_ref (write_missing files path (bytes blob)) (ref_path id object.path) object

  abbrev put_at :
      Files → String → Outcome String → List ℕ → Option String → Files × Outcome WorkspaceObject
  put_at files id (failed e) blob content_type = (files, failed e)
  put_at files id (done path) blob content_type =
      let object = object_of node path blob content_type in
      write_object files (object_path object.digest) id blob object

  unfoldable pub put :
      Files → String → String → List ℕ → Option String → Files × Outcome WorkspaceObject
  put files id relative_path blob content_type =
      put_at files id (normalize_path node.normalize relative_path) blob content_type

  unfoldable pub get : Files → String → String → Outcome (List ℕ)
  get files id relative_path = and_then (ref_path id relative_path) (λ path.
      and_then (read_ref (get_entry files path)) (λ object.
        and_then (object_path object.digest) (λ stored. read_bytes (get_entry files stored))))

  -- The files below the folder of the workspace, whose order does not matter.
  unfoldable pub list : Files → String → Outcome (List WorkspaceObject)
  list files id = and_then (refs_root id) (λ base.
      let inside = λ (file : String × Content). starts_with (template (base ∷ "/" ∷ [])) file.0 in
      let found = select (λ file. inside file && ends_with ".json" file.0) files in
      and_then (read_refs found) (λ objects. done (sort_paths node.before objects)))

  unfoldable pub delete : Files → String → String → Files × Outcome (Unit {0})
  delete files id relative_path = elim (ref_path id relative_path) [
    | failed e ↦ (files, failed e)
    | done path ↦ (delete_entry files path, done tt)
  ]
