-- ===== src/Gateway/Calls.antt =====
-- src/services/opencode-gateway.ts: `prompt`, `resume` and `reconcile`, from what the native opencode
-- answers. They are `none` where the rounds that are given end before the loop does.
pub mod Answers
use opencode_master.Base.{
  ℕ, String, Option, none, some, Bool, true, false, List, [], ◌∷◌, ◌++◌, ◌+◌, ◌==◌, if◌then◌else◌,
  select, map, join, trim, template, or_else, ltb, length,
}
use opencode_master.Types.{Json, Fields, HistoryItem, HistoryRole}
use opencode_master.Gateway.{GatewayMessage, RunResult, Outcome, resulted, failed, optional_field}
use opencode_master.Gateway.Messages.{
  Message, Question, CompletedReply, PendingTool, truthy, is_conversation, extract_pending_tool,
  extract_completed_assistant_reply,
}
use opencode_master.Gateway.Frames.{Heard}
use opencode_master.Gateway.Native.{
  Fetched, unreachable, fetched, Context, context_failed, context_read, QuestionEntry,
  pending_questions, first_question, Poll, Waited, waiting, aborted, suspended, timed_out, asked,
  replied, broke, wait, error_of, create_error,
}

-- The ids of the assistant's messages that were there before.
abbrev pub known_assistant : List Message → List String
known_assistant [] = []
known_assistant (m ∷ messages) =
    let rest = known_assistant messages in
    elim m.id [ none ↦ rest | some id ↦ if m.type == "assistant" then id ∷ rest else rest ]

abbrev pub role_text : HistoryRole → String
role_text HistoryRole.user = "user"
role_text HistoryRole.assistant = "assistant"
role_text HistoryRole.tool = "tool"

abbrev name_text : Option String → String
name_text none = ""
name_text (some name) = template (":" ∷ name ∷ [])

abbrev pub item_text : HistoryItem → String
item_text item =
    template ("[" ∷ role_text item.role ∷ name_text (truthy item.name) ∷ "]\n" ∷ item.content ∷ [])

abbrev pub preamble : String
preamble =
    "This is the durable transcript from before this OpenCode session was restored. Treat it as prior conversation; answer only the new user message below."

-- The prompt that is sent: the content, with the history before it where the native session knows less.
unfoldable pub prompt_text : List HistoryItem → List Message → String → String
prompt_text history context content =
    if ltb (length (select is_conversation context)) (length history)
    then join "\n\n" (
        ("<conversation-history>" ∷ preamble ∷ map item_text history)
        ++ "</conversation-history>" ∷ "<new-user-message>" ∷ content ∷ "</new-user-message>" ∷ [])
    else content

abbrev suspended_result : RunResult
suspended_result = record { messages = []; interaction = none; is_completed = false }

abbrev request_json : String → Question → Option String → Json
request_json session_id question reason = Json.obj (
    Fields.field "requestID" (Json.str question.id) (
      Fields.field "sessionID" (Json.str session_id)
        (Fields.field "questions" question.questions (optional_field "reason" reason Fields.end))))

abbrev pub question_result : String → Question → Option String → RunResult
question_result session_id question reason = record {
  messages = [];
  interaction =
      some (record { id = question.id; request = request_json session_id question reason });
  is_completed = false;
}

-- `completed.reasoning || replyReasoning`, trimmed, if anything is left.
abbrev pub reply_reasoning : CompletedReply → Heard → Option String
reply_reasoning reply heard =
    truthy (some (trim (or_else (truthy (some reply.reasoning)) heard.reply_reasoning)))

abbrev assistant_message : String → Option String → Option String → GatewayMessage
assistant_message content reasoning source_id = record {
  role = "assistant";
  content = some content;
  reasoning = reasoning;
  source_id = source_id;
  name = none;
}

abbrev pub reply_result : CompletedReply → Heard → RunResult
reply_result reply heard = record {
  messages =
      assistant_message reply.text (reply_reasoning reply heard) (truthy (some reply.id)) ∷ [];
  interaction = none;
  is_completed = true;
}

-- `prompt` passes on why a step failed, with the question; `resume` does not.
abbrev pub outcome_of : Bool → String → Waited → Option Outcome
outcome_of with_reason session_id waiting = none
outcome_of with_reason session_id aborted = some (resulted suspended_result)
outcome_of with_reason session_id suspended = some (resulted suspended_result)
outcome_of with_reason session_id timed_out =
    some (failed "timed out waiting for assistant reply from opencode")
outcome_of with_reason session_id (asked question reason) =
    some (resulted (question_result session_id question (if with_reason then reason else none)))
outcome_of with_reason session_id (replied reply heard) = some (resulted (reply_result reply heard))
outcome_of with_reason session_id (broke message) = some (failed message)

-- What is answered before the loop: the session is created, its context is read, the stream of events
-- is opened, and the prompt, or the answer to a question, is sent.
pub record Opening : Type 0 where
  pub created : Fetched
  pub context : Context
  pub has_stream : Bool
  pub sent : Fetched
  pub now : ℕ

abbrev pub patience : ℕ
patience = 600000

-- The ids that are known from the context, or the error that ends the run before its loop.
pub data Opened : Type 0 where
  unopened : String → Opened
  opened : List String → Opened

abbrev pub sent_or : Option String → List Message → Opened
sent_or (some message) context = unopened message
sent_or none context = opened (known_assistant context)

abbrev pub opened_with : (Fetched → Option String) → Opening → Context → Opened
opened_with send_error o (context_failed message) = unopened message
opened_with send_error o (context_read messages) =
    if o.has_stream
    then sent_or (send_error o.sent) messages
    else unopened "opencode event stream unavailable"

abbrev open_run : (Fetched → Option String) → Opening → Opened
open_run send_error o = elim (create_error o.created) [
  | some message ↦ unopened message
  | none ↦ opened_with send_error o o.context
]

-- An answer to a question that is refused is only logged.
abbrev pub reply_error : Fetched → Option String
reply_error (unreachable message) = some message
reply_error (fetched status text) = none

abbrev pub run_opened : Bool → String → ℕ → ℕ → (ℕ → Poll) → Opened → Option Outcome
run_opened with_reason session_id rounds now polls (unopened message) = some (failed message)
run_opened with_reason session_id rounds now polls (opened known) =
    outcome_of with_reason session_id (wait rounds (now + patience) known polls 0)

unfoldable pub native_prompt : String → Opening → ℕ → (ℕ → Poll) → Option Outcome
native_prompt session_id o rounds polls =
    run_opened true session_id rounds o.now polls (open_run (error_of "opencode prompt failed") o)

unfoldable pub native_resume : String → Opening → ℕ → (ℕ → Poll) → Option Outcome
native_resume session_id o rounds polls =
    run_opened false session_id rounds o.now polls (open_run reply_error o)

-- The notes in the transcript for a tool that is pending.
abbrev tool_note : PendingTool → String
tool_note tool =
    if tool.empty_input
    then template ("工具 " ∷ tool.name ∷ " 正在等待输入，尚未开始执行。" ∷ [])
    else template ("正在执行工具 " ∷ tool.name ∷ "。" ∷ [])

abbrev pub tool_result : PendingTool → RunResult
tool_result tool = record {
  messages =
      record {
        role = "tool";
        content = some (tool_note tool);
        reasoning = none;
        source_id = some tool.id;
        name = some tool.name;
      }
      ∷ [];
  interaction = none;
  is_completed = false;
}

abbrev pub recovered_result : CompletedReply → RunResult
recovered_result reply = record {
  messages = assistant_message reply.text (truthy (some reply.reasoning)) (some reply.id) ∷ [];
  interaction = none;
  is_completed = true;
}

abbrev recovered : List Message → Option Outcome
recovered context = elim (extract_pending_tool context) [
  | some tool ↦ some (resulted (tool_result tool))
  | none ↦ elim (extract_completed_assistant_reply context []) [
    | some reply ↦ some (resulted (recovered_result reply))
    | none ↦ none
  ]
]

abbrev recovered_from : Context → Option Outcome
recovered_from (context_failed message) =
    if message == "opencode context failed: 404" then none else some (failed message)
recovered_from (context_read messages) = recovered messages

-- `none` where there is nothing to recover.
unfoldable pub reconcile : String → Option (List QuestionEntry) → Context → Context → Option Outcome
reconcile session_id questions scan context =
    elim (first_question (pending_questions questions scan)) [
      | some question ↦ some (resulted (question_result session_id question none))
      | none ↦ recovered_from context
    ]
