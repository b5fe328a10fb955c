-- ===== src/Gateway/Messages.antt =====
-- src/services/opencode-gateway.ts: what is read of the context of a native session: its transcript, the
-- reply to a prompt, and a question or a tool that is pending. A content that is no array has no parts.
pub mod Replies
use opencode_master.Base.{
  ℕ, suc, String, Option, none, some, Bool, true, false, not, List, [], ◌∷◌, ◌++◌, ◌==◌, ◌&&◌, ◌||◌,
  if◌then◌else◌, select, join, trim, template, decimal, contains, or_else,
}
use opencode_master.Types.{Json, Items, Fields}
use opencode_master.Sessions.{is_text}
use opencode_master.Journal.History.{member}

-- The state of a tool's part; `undefined` is no input.
pub record ToolState : Type 0 where
  pub status : Option String
  pub input : Option Json

pub record Part : Type 0 where
  pub type : Option String
  pub id : Option String
  pub text : Option String
  pub name : Option String
  pub state : Option ToolState

pub record Message : Type 0 where
  pub type : String
  pub id : Option String
  pub text : Option String
  pub finish : Option String
  pub parts : List Part

-- The texts of the parts of a type.
abbrev texts_of : String → List Part → List String
texts_of type [] = []
texts_of type (p ∷ parts) =
    let rest = texts_of type parts in
    elim p.text [ none ↦ rest | some text ↦ if is_text p.type type then text ∷ rest else rest ]

abbrev newline : String
newline = "\n"

abbrev pub truthy : Option String → Option String
truthy none = none
truthy (some s) = if s == "" then none else some s

abbrev pub is_conversation : Message → Bool
is_conversation m = m.type == "user" || m.type == "assistant" || m.type == "tool"

-- A message of the browser's transcript.
pub record Projected : Type 0 where
  pub id : String
  pub role : String
  pub content : String
  pub name : Option String
  pub reasoning : Option String

abbrev content_of : Message → String
content_of m = trim (or_else m.text (join newline (texts_of "text" m.parts)))

unfoldable pub reasoning_of : List String → String
reasoning_of texts = trim (join newline texts)

abbrev name_in : List Part → Option String
name_in [] = none
name_in (p ∷ parts) = elim p.name [ none ↦ name_in parts | some name ↦ some name ]

abbrev projected : String → ℕ → Message → Projected
projected session_id index m = record {
  id = or_else m.id (template (session_id ∷ ":" ∷ decimal index ∷ []));
  role = m.type;
  content = content_of m;
  name = truthy (name_in m.parts);
  reasoning = truthy (some (reasoning_of (texts_of "reasoning" m.parts)));
}

abbrev is_shown : Message → Bool
is_shown m =
    is_conversation m
    && not (content_of m == "" && reasoning_of (texts_of "reasoning" m.parts) == "")

abbrev project_from : String → ℕ → List Message → List Projected
project_from session_id index [] = []
project_from session_id index (m ∷ messages) =
    let rest = project_from session_id (suc index) messages in
    if is_shown m then projected session_id index m ∷ rest else rest

unfoldable pub project_context_messages : String → List Message → List Projected
project_context_messages session_id messages = project_from session_id 0 messages

pub record CompletedReply : Type 0 where
  pub id : String
  pub text : String
  pub reasoning : String

-- The id of an assistant's message that is not known yet.
unfoldable pub new_id : List String → Message → Option String
new_id known m =
    if m.type == "assistant"
    then elim (truthy m.id) [ none ↦ none | some id ↦ if contains known id then none else some id ]
    else none

abbrev is_filled : String → Bool
is_filled text = not (trim text == "")

abbrev pub reasoning_texts : Message → List String
reasoning_texts m = select is_filled (texts_of "reasoning" m.parts)

abbrev pub reply_text : Message → String
reply_text m = trim (join newline (texts_of "text" m.parts))

unfoldable pub ends_reply : Message → Bool
ends_reply m = is_text m.finish "stop" && not (reply_text m == "")

-- The loop, with the reasoning and the reply so far.
unfoldable pub completed_from :
    List String → List String → Option CompletedReply → List Message → Option CompletedReply
completed_from known thoughts reply [] = reply
completed_from known thoughts reply (m ∷ messages) = elim (new_id known m) [
  | none ↦ completed_from known thoughts reply messages
  | some id ↦
      let thought = thoughts ++ reasoning_texts m in
      let found : CompletedReply = record {
        id = id;
        text = reply_text m;
        reasoning = reasoning_of thought;
      } in
      completed_from known thought (if ends_reply m then some found else reply) messages
]

unfoldable pub extract_completed_assistant_reply :
    List Message → List String → Option CompletedReply
extract_completed_assistant_reply messages known = completed_from known [] none messages

pub record Question : Type 0 where
  pub id : String
  pub questions : Json

-- `input?.questions ?? []`.
abbrev pub questions_of : Option Json → Json
questions_of none = Json.arr Items.nil
questions_of (some Json.null) = Json.arr Items.nil
questions_of (some questions) = questions

abbrev member_of : String → Option Json → Option Json
member_of name none = none
member_of name (some value) = member name value

abbrev question_input : Option ToolState → Option Question → Option Question
question_input none found = none
question_input (some state) found = if is_text state.status "running" then found else none

abbrev state_input : Option ToolState → Option Json
state_input none = none
state_input (some state) = state.input

abbrev pub asked : Part → Option String → Option Question
asked p none = none
asked p (some id) =
    if is_text p.type "tool" && is_text p.name "question"
    then question_input p.state (
        some (record {
          id = id;
          questions = questions_of (member_of "questions" (state_input p.state));
        }))
    else none

abbrev question_in : List Part → Option Question
question_in [] = none
question_in (p ∷ parts) =
    let rest = question_in parts in
    elim (asked p (truthy p.id)) [ none ↦ rest | some question ↦ some question ]

unfoldable pub extract_pending_question : List Message → Option Question
extract_pending_question [] = none
extract_pending_question (m ∷ messages) =
    let rest = extract_pending_question messages in
    elim (if m.type == "assistant" then question_in m.parts else none) [
      | none ↦ rest
      | some question ↦ some question
    ]

pub record PendingTool : Type 0 where
  pub id : String
  pub name : String
  pub status : String
  pub empty_input : Bool

-- Undefined, an empty text, or an object or an array without elements.
abbrev is_empty_input : Option Json → Bool
is_empty_input none = true
is_empty_input (some (Json.str s)) = s == ""
is_empty_input (some (Json.obj Fields.end)) = true
is_empty_input (some (Json.arr Items.nil)) = true
is_empty_input (some _) = false

abbrev pending_state : String → Part → ToolState → Option String → Option PendingTool
pending_state id p state none = none
pending_state id p state (some status) =
    if status == "pending" || status == "running"
    then some (record {
      id = id;
      name = or_else p.name "tool";
      status = status;
      empty_input = is_empty_input state.input;
    })
    else none

abbrev pending_part : Part → Option String → Option ToolState → Option PendingTool
pending_part p (some id) (some state) =
    if is_text p.type "tool" && not (is_text p.name "question")
    then pending_state id p state state.status
    else none
pending_part p _ _ = none

-- The last one that is pending, since the lists are read in reverse.
abbrev tool_in : List Part → Option PendingTool
tool_in [] = none
tool_in (p ∷ parts) = elim (tool_in parts) [
  | none ↦ pending_part p (truthy p.id) p.state
  | some tool ↦ some tool
]

unfoldable pub extract_pending_tool : List Message → Option PendingTool
extract_pending_tool [] = none
extract_pending_tool (m ∷ messages) = elim (extract_pending_tool messages) [
  | none ↦ if m.type == "assistant" then tool_in m.parts else none
  | some tool ↦ some tool
]
