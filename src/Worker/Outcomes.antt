-- ===== src/Worker/Outcomes.antt =====
-- src/worker/opencode-executor.ts: what `execute` and `resume` read before their loop, the questions that
-- are pending, and the objects that they return.
use opencode_master.Base.{
  String, Option, none, some, Bool, true, false, List, [], ◌∷◌, ◌==◌, if◌then◌else◌, trim,
}
use opencode_master.Types.{Json, Fields}
use opencode_master.Gateway.{RunResult, Outcome, resulted, failed}
use opencode_master.Gateway.Messages.{
  Message, Question, CompletedReply, questions_of, extract_pending_question,
}
use opencode_master.Gateway.Frames.{Heard}
use opencode_master.Gateway.Native.{
  Fetched, unreachable, fetched, Context, context_failed, context_read, QuestionEntry, Waited,
  waiting, aborted, suspended, timed_out, asked, replied, broke,
}

-- `knownAssistant`.
abbrev known_id : Message → Option String → List String → List String
known_id m none ids = ids
known_id m (some id) ids = if m.type == "assistant" then id ∷ ids else ids

abbrev pub known_ids : List Message → List String
known_ids [] = []
known_ids (m ∷ messages) = known_id m m.id (known_ids messages)

-- `pendingQuestions`.
abbrev listed_with : Option String → Option Json → List Question → List Question
listed_with none questions pending = pending
listed_with (some id) questions pending =
    record { id = id; questions = questions_of questions } ∷ pending

abbrev pub listed : List QuestionEntry → List Question
listed [] = []
listed (entry ∷ entries) = listed_with entry.id entry.questions (listed entries)

abbrev pushed_question : Option Question → List Question
pushed_question none = []
pushed_question (some question) = question ∷ []

abbrev pub scanned_in : List Question → Context → List Question
scanned_in (question ∷ pending) context = question ∷ pending
scanned_in [] (context_failed _) = []
scanned_in [] (context_read messages) = pushed_question (extract_pending_question messages)

unfoldable pub pending_in : Option (List QuestionEntry) → Context → List Question
pending_in none context = scanned_in [] context
pending_in (some entries) context = scanned_in (listed entries) context

-- An answer to a question that is refused is only logged.
abbrev pub answer_error : Fetched → Option String
answer_error (fetched status text) = none
answer_error (unreachable message) = some message

-- The object for a question that is pending, with the reason that `execute` adds.
abbrev reason_fields : Bool → Option String → Fields
reason_fields with_reason none = Fields.end
reason_fields with_reason (some reason) =
    if with_reason then Fields.field "reason" (Json.str reason) Fields.end else Fields.end

abbrev asked_result : Bool → String → Question → Option String → RunResult
asked_result with_reason session_id question reason = record {
  messages = [];
  interaction = some (record {
    id = question.id;
    request = Json.obj (
        Fields.field "requestID" (Json.str question.id) (
          Fields.field "sessionID" (Json.str session_id)
            (Fields.field "questions" question.questions (reason_fields with_reason reason))));
  });
  is_completed = false;
}

abbrev yielded_result : RunResult
yielded_result = record { messages = []; interaction = none; is_completed = false }

-- `completed.reasoning || replyReasoning`.
abbrev reasoning_heard : CompletedReply → Heard → String
reasoning_heard reply heard =
    if reply.reasoning == "" then heard.reply_reasoning else reply.reasoning

abbrev if_any : String → Option String
if_any text = if text == "" then none else some text

-- The object for a reply. It has no status.
abbrev answer_result : CompletedReply → Heard → RunResult
answer_result reply heard = record {
  messages =
      record {
        role = "assistant";
        content = some reply.text;
        reasoning = if_any (trim (reasoning_heard reply heard));
        source_id = if_any reply.id;
        name = none;
      }
      ∷ [];
  interaction = none;
  is_completed = true;
}

-- How the loop of `execute` or `resume` ends.
abbrev pub result_of : Bool → String → Waited → Option Outcome
result_of with_reason session_id waiting = none
result_of with_reason session_id aborted = some (resulted yielded_result)
result_of with_reason session_id suspended = some (resulted yielded_result)
result_of with_reason session_id timed_out =
    some (failed "timed out waiting for assistant reply from opencode")
result_of with_reason session_id (asked question reason) =
    some (resulted (asked_result with_reason session_id question reason))
result_of with_reason session_id (replied reply heard) = some (resulted (answer_result reply heard))
result_of with_reason session_id (broke message) = some (failed message)
