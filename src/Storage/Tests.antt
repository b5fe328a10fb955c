-- ===== src/Storage/Tests.antt =====
-- src/workspace/local-store.ts and src/workspace/sync.ts, run on a small store.
use opencode_master.Base.{
  String, none, some, List, [], ◌∷◌, ◌≡◌, refl, text_dec, Bool-cases, split, trim, template,
  starts_with, true, inl, arith,
}
use opencode_master.Storage.{
  Node, Files, manifest, text, ref, bytes, done, failed, version_conflict, WorkspaceObject,
  WorkspaceVersion, safe_workspace_id, has_char, sort_paths, is_digest, ref_path, refs_root,
  object_path, normalize_path, to_slashes, put, get,
}
use opencode_master.Storage.Manifests.{read, head, commit, manifest_root}
use opencode_master.Storage.Sync.{hydrate, hydrate_all}
use opencode_master.Storage.Heads.{commit-head}
use opencode_master.Storage.Objects.{get-put}
use opencode_master.Storage.Contents.{hydrate-Wrote, Wrote}

abbrev joined : List String → String
joined [] = ""
joined (part ∷ parts) = template (part ∷ "/" ∷ joined parts ∷ [])

-- Paths are joined and kept as they are, and each descriptor is named after its workspace.
abbrev node : Node
node = record {
  join = joined;
  normalize = λ path. path;
  hash_bytes = λ blob. "d";
  hash_text = λ s. s;
  describe = λ id parent objects. id;
  before = λ a b. true;
}

abbrev version : WorkspaceVersion
version = record {
  workspace_id = "w";
  version = "w";
  parent_version = none;
  objects = [];
  created_at = 5;
}

abbrev committed : Files
committed = ("r/manifests/w//w.json/", manifest version) ∷ ("r/manifests/w//HEAD/", text "w") ∷ []

commit-head_example :
    (commit node "r" [] "w" none [] 5 ≡ (committed, done version))
    × (head node "r" committed "w" ≡ some version)
    × (read node "r" committed "w" "w" ≡ some version)
    × (commit node "r" committed "w" none [] 6 ≡ (committed, failed version_conflict))
unfolding safe_workspace_id text_dec Bool-cases has_char sort_paths head manifest_root trim
commit-head_example =
    commit-head node "r" "w" [] none [] 5 refl refl refl refl refl (λ e. ground (arith, e)) [] 6

abbrev object : String → WorkspaceObject
object digest = record { path = "a"; digest = digest; size = 1; content_type = none }

abbrev with_object : String → WorkspaceVersion
with_object digest = record version { objects = object digest ∷ [] }

abbrev digest : String
digest = "0123456789abcdef0123456789abcdef0123456789abcdef0123456789abcdef"

abbrev hashing : Node
hashing = record node { hash_bytes = λ blob. digest }

abbrev stored : Files
stored =
    ("r/manifests/w//v.json/", manifest (with_object digest))
    ∷ ("r/refs/w//a/.json", ref (object digest))
    ∷ (template ("r/objects/" ∷ digest ∷ "/" ∷ []), bytes (7 ∷ []))
    ∷ []

hydrate-Wrote_example :
    (read node "r" stored "w" "v" ≡ some (with_object digest))
    × Wrote node "r" stored "w" "t" [] (("t/a/", 7 ∷ []) ∷ []) (with_object digest).objects
unfolding read manifest_root safe_workspace_id text_dec Bool-cases has_char is_digest normalize_path
    to_slashes starts_with split hydrate hydrate_all get ref_path refs_root object_path
hydrate-Wrote_example =
    hydrate-Wrote node "r" stored "w" "t" "v" (with_object digest) [] (("t/a/", 7 ∷ []) ∷ [])
      ((λ path h. tt), tt) refl

get-put_example :
    ((put hashing "r" [] "w" "a" (7 ∷ []) none).1 ≡ done (object digest))
    × (get hashing "r" (put hashing "r" [] "w" "a" (7 ∷ []) none).0 "w" "a" ≡ done (7 ∷ []))
unfolding safe_workspace_id text_dec Bool-cases has_char is_digest normalize_path to_slashes
    starts_with split
get-put_example =
    get-put hashing "r" "w" "a" "a" (7 ∷ []) none refl refl refl refl [] refl (inl refl)
