-- ===== src/Worker/Proxy.antt =====
-- src/worker/proxy-server.ts: the private API of a worker. A request is the answer of `authorize`, its
-- method, the path of its URL, its header `last-event-id`, and its body where it is JSON. What a request
-- sets off is returned with its answer: the caller's `prompt`, `control` and `history` are not run here.
pub mod Requests
pub mod Controls
use opencode_master.Base.{
  ℕ, String, Option, none, some, Bool, true, false, not, List, [], ◌∷◌, ◌==◌, ◌&&◌, ◌||◌,
  if◌then◌else◌, split, trim, decimal, template, map,
}
use opencode_master.Types.{Json, Items, Fields}
use opencode_master.Journal.History.{find_field}
use opencode_master.StreamHub.{Hub, StreamEvent, replay, subscribe}
use opencode_master.Http.Sse.{event_frame}

pub record WorkerPromptInput : Type 0 where
  pub session_id : String
  pub workspace_id : Option String
  pub content : String
  pub turn_id : String
  pub lease_epoch : ℕ
  pub history : Items

-- `request` is the body without the three fields that are taken from it.
pub record WorkerControlInput : Type 0 where
  pub session_id : String
  pub workspace_id : Option String
  pub turn_id : String
  pub lease_epoch : ℕ
  pub request : Fields

pub record ProxyRequest : Type 0 where
  pub is_authorized : Bool
  pub method : String
  pub pathname : String
  pub last_event_id : Option ℕ
  pub body : Option Json

-- An answer with an error, what is called before 202 is answered, or a session whose history or stream
-- is read.
pub data Proxied : Type 0 where
  refuses : ℕ → Proxied
  prompts : WorkerPromptInput → Proxied
  controls : WorkerControlInput → Proxied
  reads_history : String → Proxied
  streams : String → Option ℕ → Proxied

abbrev text_at : String → Fields → Option String
text_at name fields = elim (find_field name fields) [ some (Json.str s) ↦ some s | _ ↦ none ]

-- A text that is not empty.
abbrev filled_text : Option String → Option String
filled_text none = none
filled_text (some s) = if s == "" then none else some s

-- `typeof … === "number" && Number.isInteger(…)`.
abbrev integer_at : String → Fields → Option ℕ
integer_at name fields = elim (find_field name fields) [ some (Json.num n) ↦ some n | _ ↦ none ]

abbrev items_at : String → Fields → Items
items_at name fields = elim (find_field name fields) [
  | some (Json.arr items) ↦ items
  | _ ↦ Items.nil
]

abbrev fields_of : Option Json → Option Fields
fields_of (some (Json.obj fields)) = some fields
fields_of _ = none

abbrev content_at : Fields → Option String
content_at fields = elim (text_at "content" fields) [
  | none ↦ none
  | some content ↦ if trim content == "" then none else some content
]

-- The turn and the epoch of a body, if it has both.
abbrev lease_at : Fields → Option (String × ℕ)
lease_at fields = elim (filled_text (text_at "turnID" fields)) [
  | none ↦ none
  | some turn_id ↦ elim (integer_at "leaseEpoch" fields) [
    | none ↦ none
    | some epoch ↦ some (turn_id, epoch)
  ]
]

abbrev prompt_with : String → Fields → Option String → Option (String × ℕ) → Proxied
prompt_with session_id fields (some content) (some (turn_id, lease_epoch)) = prompts (record {
  session_id = session_id;
  workspace_id = text_at "workspaceID" fields;
  content = content;
  turn_id = turn_id;
  lease_epoch = lease_epoch;
  history = items_at "history" fields;
})
prompt_with session_id fields _ _ = refuses 400

unfoldable pub prompt : String → Option Json → Proxied
prompt session_id body = elim (fields_of body) [
  | none ↦ refuses 400
  | some fields ↦ prompt_with session_id fields (content_at fields) (lease_at fields)
]

abbrev is_control : Option String → Bool
is_control none = false
is_control (some type) =
    type == "question.reply" || type == "session.abort" || type == "session.force"

-- `!body.data || typeof body.data !== "object"`: an array is an object too.
abbrev is_object : Option Json → Bool
is_object (some (Json.obj _)) = true
is_object (some (Json.arr _)) = true
is_object _ = false

unfoldable pub without_field : String → Fields → Fields
without_field name Fields.end = Fields.end
without_field name (Fields.field k v fields) =
    let rest = without_field name fields in if k == name then rest else Fields.field k v rest

abbrev control_with : String → Fields → Option (String × ℕ) → Proxied
control_with session_id fields none = refuses 400
control_with session_id fields (some (turn_id, lease_epoch)) =
    if is_control (text_at "type" fields) && is_object (find_field "data" fields)
    then controls (record {
      session_id = session_id;
      workspace_id = text_at "workspaceID" fields;
      turn_id = turn_id;
      lease_epoch = lease_epoch;
      request =
          without_field "leaseEpoch" (without_field "turnID" (without_field "workspaceID" fields));
    })
    else refuses 400

unfoldable pub control : String → Option Json → Proxied
control session_id body = elim (fields_of body) [
  | none ↦ refuses 400
  | some fields ↦ control_with session_id fields (lease_at fields)
]

abbrev is_action : String → Bool
is_action action =
    action == "prompt" || action == "control" || action == "stream" || action == "history"

-- The match of the regular expression on the path: the session and the action.
abbrev matched_parts : List String → Option (String × String)
matched_parts (first ∷ (sessions ∷ (id ∷ (action ∷ [])))) =
    if first == "" && sessions == "sessions" && not (id == "") && is_action action
    then some (id, action)
    else none
matched_parts _ = none

abbrev acted : ProxyRequest → String → String → Proxied
acted request id action =
    if action == "stream" && request.method == "GET"
    then streams id request.last_event_id
    else if action == "history" && request.method == "GET"
    then reads_history id
    else if action == "prompt" && request.method == "POST"
    then prompt id request.body
    else if action == "control" && request.method == "POST"
    then control id request.body
    else refuses 405

unfoldable pub fetch : ProxyRequest → Proxied
fetch request =
    if not request.is_authorized
    then refuses 401
    else elim (matched_parts (split b'/' request.pathname)) [
      | none ↦ refuses 404
      | some (id, action) ↦ acted request id action
    ]

-- The text of a stream when it starts, and the hub that it has subscribed to.
abbrev event_number : StreamEvent → String
event_number event = decimal event.id

unfoldable pub stream : (StreamEvent → String) → Hub → String → Option ℕ → String → String × Hub
stream print hub session_id after subscriber = (
  template (": connected\n\n" ∷ map (event_frame print event_number) (replay hub session_id after)),
  subscribe hub session_id subscriber,
)
