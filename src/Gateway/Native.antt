-- ===== src/Gateway/Native.antt =====
-- src/services/opencode-gateway.ts: `prompt`, `resume` and `reconcile`. What the native opencode answers,
-- what the stream has brought by then, and the clock, are arguments.
pub mod Waiting
pub mod Fresh
use Prim.Native.Nat.{ℕ, zero, suc}
use opencode_master.Base.{
  String, Option, none, some, Bool, false, List, [], ◌∷◌, if◌then◌else◌, template, decimal, ltb,
  starts_with, strip_end, is_success, is_some, first_of_both,
}
use opencode_master.Types.{Json, Fields}
use opencode_master.Gateway.{optional_field}
use opencode_master.Gateway.Messages.{
  Message, Question, CompletedReply, truthy, questions_of, extract_pending_question,
  extract_completed_assistant_reply,
}
use opencode_master.Gateway.Frames.{Heard}

-- What a request ends with: an error of `fetch`, or a status and a text.
pub data Fetched : Type 0 where
  unreachable : String → Fetched
  fetched : ℕ → String → Fetched

-- What `context` ends with.
pub data Context : Type 0 where
  context_failed : String → Context
  context_read : List Message → Context

pub record Options : Type 0 where
  pub username : Option String
  pub model : Option (String × String)
  pub workspace_root : Option String

abbrev auth_header : (String → String) → Option String → Option String
auth_header base64 username = elim (truthy username) [
  | none ↦ none
  | some name ↦ some (template ("Basic " ∷ base64 (template (name ∷ ":slave-internal" ∷ [])) ∷ []))
]

unfoldable pub resolve_directory : Options → String → String
resolve_directory opts directory = elim (truthy opts.workspace_root) [
  | none ↦ directory
  | some root ↦ if starts_with "/workspace/" directory then strip_end b'/' root else directory
]

abbrev pub health : Fetched → Bool
health (unreachable _) = false
health (fetched status _) = is_success status

abbrev model_field : Option (String × String) → Fields → Fields
model_field none fields = fields
model_field (some (provider, id)) fields =
    Fields.field "model"
      (Json.obj (
        Fields.field "providerID" (Json.str provider) (Fields.field "id" (Json.str id) Fields.end)))
      fields

-- The body of the request that creates or adopts a session.
abbrev session_body : Options → String → String → Option String → Option (String × String) → Json
session_body opts session_id directory agent model = Json.obj (
    Fields.field "id" (Json.str session_id) (
      Fields.field "location"
        (Json.obj
          (Fields.field "directory" (Json.str (resolve_directory opts directory)) Fields.end))
        (optional_field "agent" (truthy agent)
          (model_field (first_of_both model opts.model) Fields.end))))

-- The message of the error that a request that has to succeed ends with, if it does not.
abbrev pub error_of : String → Fetched → Option String
error_of what (unreachable message) = some message
error_of what (fetched status text) =
    if is_success status
    then none
    else some (template (what ∷ ": " ∷ decimal status ∷ " " ∷ text ∷ []))

abbrev pub create_error : Fetched → Option String
create_error = error_of "opencode session create failed"

pub record QuestionEntry : Type 0 where
  pub id : Option String
  pub questions : Option Json

abbrev pub entries_with_id : List QuestionEntry → List Question
entries_with_id [] = []
entries_with_id (e ∷ entries) =
    let rest = entries_with_id entries in
    elim e.id [
      | none ↦ rest
      | some id ↦ record { id = id; questions = questions_of e.questions } ∷ rest
    ]

abbrev question_list : Option Question → List Question
question_list none = []
question_list (some question) = question ∷ []

abbrev pub scanned : Context → List Question
scanned (context_failed _) = []
scanned (context_read messages) = question_list (extract_pending_question messages)

abbrev pub or_scanned : List Question → Context → List Question
or_scanned [] context = scanned context
or_scanned (question ∷ questions) context = question ∷ questions

-- The questions that are listed, or `none` where the request fails, and the context that is scanned if
-- there are none.
unfoldable pub pending_questions : Option (List QuestionEntry) → Context → List Question
pending_questions none context = scanned context
pending_questions (some entries) context = or_scanned (entries_with_id entries) context

abbrev pub first_question : List Question → Option Question
first_question [] = none
first_question (question ∷ _) = some question

-- What one round of the loop sees. The stream goes on while its requests are answered: `early` is what
-- was heard before the context is read, and `late` what was heard then.
pub record Poll : Type 0 where
  pub is_aborted : Bool
  pub questions : Option (List QuestionEntry)
  pub scan : Context
  pub early : Heard
  pub context : Context
  pub late : Heard
  pub now : ℕ

-- How a round ends; the loop goes on only after `waiting`. Where it ends `aborted`, the session is no
-- longer to be aborted.
pub data Waited : Type 0 where
  waiting aborted suspended timed_out : Waited
  asked : Question → Option String → Waited
  replied : CompletedReply → Heard → Waited
  broke : String → Waited

abbrev idle : ℕ → Poll → Waited
idle deadline poll =
    if is_some poll.late.suspend_reason
    then suspended
    else if ltb deadline poll.now
    then timed_out
    else waiting

abbrev pub reply_in : ℕ → List String → Poll → Context → Waited
reply_in deadline known poll (context_failed message) = broke message
reply_in deadline known poll (context_read messages) =
    elim (extract_completed_assistant_reply messages known) [
      | none ↦ idle deadline poll
      | some reply ↦ replied reply poll.late
    ]

unfoldable pub poll_once : ℕ → List String → Poll → Waited
poll_once deadline known poll =
    if poll.is_aborted
    then aborted
    else elim (first_question (pending_questions poll.questions poll.scan)) [
      | some question ↦ asked question poll.early.suspend_reason
      | none ↦ reply_in deadline known poll poll.context
    ]

abbrev pub or_next : Waited → Waited → Waited
or_next waiting next = next
or_next ended next = ended

-- The loop, for as many rounds as the first argument says.
unfoldable pub wait : ℕ → ℕ → List String → (ℕ → Poll) → ℕ → Waited
wait zero deadline known polls k = waiting
wait (suc rounds) deadline known polls k =
    or_next (poll_once deadline known (polls k)) (wait rounds deadline known polls (suc k))
