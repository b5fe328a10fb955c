-- ===== src/Worker/Snapshots.antt =====
-- src/worker/session-snapshot.ts: the exports of native sessions, and their files. The files are a map
-- from names below the root; a temporary file is gone when `save` ends. What the native opencode prints,
-- or the message of its error, and `JSON.parse`, are arguments.
pub mod Saved
use Prim.Native.Char.{code}
use Prim.Native.String
use Prim.Native.String.{String}
use opencode_master.Base.{
  ℕ, Option, none, some, List, [], ◌∷◌, ◌==◌, ◌||◌, if◌then◌else◌, eqb, template, get_entry,
  set_entry,
}
use opencode_master.Types.{Json, Fields}
use opencode_master.Journal.History.{find_field}
use opencode_master.Storage.{has_char}
use opencode_master.Worker.Executor.{SafePoint}

pub record SessionSnapshot : Type 0 where
  pub session_id : String
  pub safe_point : SafePoint
  pub exported_at : ℕ
  pub payload : String

abbrev SnapshotFiles : Type 0
SnapshotFiles = List (String × SessionSnapshot)

-- What the runner ends with: its output, or the message of an error.
pub data RunOutput : Type 0 where
  printed : String → RunOutput
  run_failed : String → RunOutput

-- What an operation returns or throws.
pub data Attempt {ℓ} (A : Type ℓ) : Type ℓ where
  gives : A → Attempt A
  throws : String → Attempt A

abbrev invalid_id : String → String
invalid_id id = template ("invalid session id: " ∷ id ∷ [])

unfoldable pub safe_session_id : String → Attempt String
safe_session_id id =
    if id == "" || id == "." || id == ".." || has_char b'/' id || has_char b'\\' id || has_char 0 id
    then throws (invalid_id id)
    else gives id

abbrev file_name : String → String
file_name id = template (id ∷ ".json" ∷ [])

unfoldable pub save : SnapshotFiles → SessionSnapshot → SnapshotFiles × Attempt (Unit {0})
save files snapshot = elim (safe_session_id snapshot.session_id) [
  | throws message ↦ (files, throws message)
  | gives id ↦ (set_entry files (file_name id) snapshot, gives tt)
]

-- What throws in it gives no snapshot.
unfoldable pub load : SnapshotFiles → String → Option SessionSnapshot
load files session_id = elim (safe_session_id session_id) [
  | throws message ↦ none
  | gives id ↦ get_entry files (file_name id)
]

-- The output from its first bracket or brace on.
unfoldable pub from_bracket : String → Option String
from_bracket String.[] = none
from_bracket (String.◌∷◌ c s) =
    let rest = from_bracket s in
    if eqb (code c) b'[' || eqb (code c) b'{' then some (String.◌∷◌ c s) else rest

abbrev filled : Option Json → Option String
filled (some (Json.str s)) = if s == "" then none else some s
filled _ = none

abbrev first_id : List String → Fields → Option String
first_id [] fields = none
first_id (key ∷ keys) fields = elim (filled (find_field key fields)) [
  | none ↦ first_id keys fields
  | some id ↦ some id
]

abbrev id_in : Option Json → Option String
id_in (some (Json.obj fields)) = first_id ("id" ∷ "sessionID" ∷ "sessionId" ∷ []) fields
id_in _ = none

unfoldable pub parse_imported_session_id : (String → Option Json) → String → Option String
parse_imported_session_id parse output = elim (from_bracket output) [
  | none ↦ none
  | some text ↦ id_in (parse text)
]

abbrev saved :
    SessionSnapshot → SnapshotFiles × Attempt (Unit {0}) → SnapshotFiles × Attempt SessionSnapshot
saved snapshot (files, throws message) = (files, throws message)
saved snapshot (files, gives _) = (files, gives snapshot)

unfoldable pub export :
    SnapshotFiles → String → SafePoint → RunOutput → ℕ → SnapshotFiles × Attempt SessionSnapshot
export files session_id safe_point (run_failed message) now = (files, throws message)
export files session_id safe_point (printed payload) now =
    let snapshot : SessionSnapshot = record {
      session_id = session_id;
      safe_point = safe_point;
      exported_at = now;
      payload = payload;
    } in
    saved snapshot (save files snapshot)

abbrev imported : SessionSnapshot → Option String → Option (SessionSnapshot × String)
imported snapshot none = none
imported snapshot (some id) = some (snapshot, id)

-- `run` is what the import prints, by the payload that is imported.
unfoldable pub restore :
    (String → Option Json)
    → (String → RunOutput)
    → SnapshotFiles
    → String
    → Attempt (Option (SessionSnapshot × String))
restore parse run files session_id = elim (load files session_id) [
  | none ↦ gives none
  | some snapshot ↦ elim (run snapshot.payload) [
    | run_failed message ↦ throws message
    | printed output ↦ gives (imported snapshot (parse_imported_session_id parse output))
  ]
]
