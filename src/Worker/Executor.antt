-- ===== src/Worker/Executor.antt =====
-- src/worker/opencode-executor.ts: the executor of a worker, which drives its native opencode: its state,
-- `execute`, `resume`, `reconcile`, `history`, `snapshot` and `load`. What the native opencode answers,
-- what the stream has brought by then, and the clock, are arguments. What is read of a context, and the
-- stream of events, are the same code as in src/services/opencode-gateway.ts, and are taken from Gateway.
-- A reply of the executor has no status, where the gateway's is `completed`: both are read as complete.
pub mod Reads
pub mod Same
pub mod Results
pub mod Endings
pub mod Points
pub mod Kept
pub mod Restoring
mod Tests
use Prim.Native.Nat.{ℕ, zero, suc}
use opencode_master.Worker.Outcomes.{pending_in, known_ids, result_of, answer_error}
use opencode_master.Base.{
  Option, none, some, Bool, true, false, not, String, List, [], ◌∷◌, ◌++◌, ◌+◌, ◌&&◌, if◌then◌else◌,
  ltb, length, select, map, join, template, contains, get_entry, set_entry, or_else, first_of_both,
  is_some,
}
use opencode_master.Types.{HistoryItem}
use opencode_master.Gateway.{Outcome, failed}
use opencode_master.Gateway.Messages.{Message, is_conversation, extract_completed_assistant_reply}
use opencode_master.Gateway.Native.{
  Fetched, Context, context_failed, context_read, Poll, Waited, waiting, suspended, timed_out,
  asked, replied, broke, create_error, error_of, first_question,
}
use opencode_master.Gateway.Calls.{Opening, item_text, preamble, patience}

pub data SafePoint : Type 0 where
  idle waiting_input : SafePoint

-- The sessions whose history was sent, their directories, and the safe points that they reached.
pub record ExecutorState : Type 0 where
  pub hydrated : List String
  pub directories : List (String × String)
  pub safe_points : List (String × SafePoint)

pub record ExecutorOptions : Type 0 where
  pub directory : String
  pub has_snapshotter : Bool

pub record ExecuteInput : Type 0 where
  pub session_id : String
  pub workspace_path : Option String
  pub prompt : String
  pub history : List HistoryItem

abbrev with_directory : String → String → ExecutorState → ExecutorState
with_directory id directory st = record st { directories = set_entry st.directories id directory }

abbrev with_hydrated : String → ExecutorState → ExecutorState
with_hydrated id st = record st {
  hydrated = if contains st.hydrated id then st.hydrated else st.hydrated ++ id ∷ [];
}

abbrev with_safe_point : String → SafePoint → ExecutorState → ExecutorState
with_safe_point id point st = record st { safe_points = set_entry st.safe_points id point }

-- `waitHealthy`: whether a round finds it healthy, and the clock after that; the loop runs for as many
-- rounds as are given, and says whether it found it healthy, or nothing where the rounds end before.
pub record Health : Type 0 where
  pub is_ok : Bool
  pub now : ℕ

unfoldable pub wait_healthy : ℕ → ℕ → (ℕ → Health) → ℕ → Option Bool
wait_healthy zero deadline rounds k = none
wait_healthy (suc left) deadline rounds k =
    let rest = wait_healthy left deadline rounds (suc k) in
    if (rounds k).is_ok then some true else if ltb deadline (rounds k).now then some false else rest

-- `restoreHistory`, and the text of the prompt.
unfoldable pub restores_history : ExecutorState → ExecuteInput → List Message → Bool
restores_history st input context =
    not (contains st.hydrated input.session_id)
    && ltb (length (select is_conversation context)) (length input.history)

unfoldable pub prompt_of : ExecutorState → ExecuteInput → List Message → String
prompt_of st input context =
    if restores_history st input context
    then join "\n\n" (
        ("<conversation-history>" ∷ preamble ∷ map item_text input.history)
        ++ "</conversation-history>" ∷ "<new-user-message>" ∷ input.prompt ∷ "</new-user-message>"
          ∷ [])
    else input.prompt

-- `postJson`.
abbrev prompt_error : String → Fetched → Option String
prompt_error id = error_of (template ("opencode POST /api/session/" ∷ id ∷ "/prompt failed" ∷ []))

-- One round of the loop. It has no abort; the rest is as in a round of the gateway.
abbrev unanswered : ℕ → Poll → Waited
unanswered deadline poll =
    if is_some poll.late.suspend_reason
    then suspended
    else if ltb deadline poll.now
    then timed_out
    else waiting

abbrev pub answered : ℕ → List String → Poll → Context → Waited
answered deadline known poll (context_failed message) = broke message
answered deadline known poll (context_read messages) =
    elim (extract_completed_assistant_reply messages known) [
      | some reply ↦ replied reply poll.late
      | none ↦ unanswered deadline poll
    ]

unfoldable pub round_of : ℕ → List String → Poll → Waited
round_of deadline known poll = elim (first_question (pending_in poll.questions poll.scan)) [
  | some question ↦ asked question poll.early.suspend_reason
  | none ↦ answered deadline known poll poll.context
]

abbrev or_later : Waited → Waited → Waited
or_later waiting later = later
or_later ended later = ended

unfoldable pub settle : ℕ → ℕ → List String → (ℕ → Poll) → ℕ → Waited
settle zero deadline known polls k = waiting
settle (suc rounds) deadline known polls k =
    or_later (round_of deadline known (polls k)) (settle rounds deadline known polls (suc k))

-- The safe point that a run has reached when its loop has ended.
abbrev reached : String → Waited → ExecutorState → ExecutorState
reached id (asked question reason) st = with_safe_point id waiting_input st
reached id (replied reply heard) st = with_safe_point id idle st
reached id suspended st = with_safe_point id idle st
reached id _ st = st

-- The loop of `execute` and of `resume`, after what they sent.
abbrev pub finished :
    Bool
    → String
    → ℕ
    → ℕ
    → List String
    → (ℕ → Poll)
    → ExecutorState
    → ExecutorState × Option Outcome
finished with_reason id rounds now known polls st =
    let ended = settle rounds (now + patience) known polls 0 in
    (reached id ended st, result_of with_reason id ended)

abbrev stream_error : Outcome
stream_error = failed "opencode event stream unavailable"

module _ (opts : ExecutorOptions) where
  abbrev workspace_of : ExecuteInput → String
  workspace_of input = or_else input.workspace_path opts.directory

  abbrev after_prompt :
      ExecutorState
      → ExecuteInput
      → Opening
      → List Message
      → ℕ
      → (ℕ → Poll)
      → Option String
      → ExecutorState × Option Outcome
  after_prompt st input o context rounds polls (some message) = (st, some (failed message))
  after_prompt st input o context rounds polls none =
      finished true input.session_id rounds o.now (known_ids context) polls
        (with_hydrated input.session_id st)

  abbrev with_context :
      ExecutorState
      → ExecuteInput
      → Opening
      → ℕ
      → (ℕ → Poll)
      → Context
      → ExecutorState × Option Outcome
  with_context st input o rounds polls (context_failed message) = (st, some (failed message))
  with_context st input o rounds polls (context_read context) =
      if o.has_stream
      then after_prompt st input o context rounds polls (prompt_error input.session_id o.sent)
      else (st, some stream_error)

  -- `ensureSession`, and what follows it.
  abbrev after_create :
      ExecutorState
      → String
      → String
      → Option String
      → (ExecutorState → ExecutorState × Option Outcome)
      → ExecutorState × Option Outcome
  after_create st id directory (some message) next = (st, some (failed message))
  after_create st id directory none next = next (with_directory id directory st)

  abbrev when_healthy :
      ExecutorState
      → Option Bool
      → (ExecutorState × Option Outcome)
      → ExecutorState × Option Outcome
  when_healthy st (some true) next = next
  when_healthy st (some false) next = (st, some (failed "opencode not healthy"))
  when_healthy st none next = (st, none)

  unfoldable pub execute :
      ExecutorState
      → ExecuteInput
      → Option Bool
      → Opening
      → ℕ
      → (ℕ → Poll)
      → ExecutorState × Option Outcome
  execute st input healthy o rounds polls = when_healthy st healthy (
      after_create st input.session_id (workspace_of input) (create_error o.created)
        (λ next. with_context next input o rounds polls o.context))

  -- `input.workspacePath`, or the directory that the session has.
  abbrev resume_directory : ExecutorState → String → Option String → String
  resume_directory st id workspace_path =
      or_else (first_of_both workspace_path (get_entry st.directories id)) opts.directory

  -- An answer to a question that is refused is only logged.
  abbrev after_reply :
      ExecutorState
      → String
      → Opening
      → List Message
      → ℕ
      → (ℕ → Poll)
      → Option String
      → ExecutorState × Option Outcome
  after_reply st id o context rounds polls (some message) = (st, some (failed message))
  after_reply st id o context rounds polls none =
      finished false id rounds o.now (known_ids context) polls st

  abbrev resume_context :
      ExecutorState → String → Opening → ℕ → (ℕ → Poll) → Context → ExecutorState × Option Outcome
  resume_context st id o rounds polls (context_failed message) = (st, some (failed message))
  resume_context st id o rounds polls (context_read context) =
      if o.has_stream
      then after_reply st id o context rounds polls (answer_error o.sent)
      else (st, some stream_error)

  unfoldable pub resume :
      ExecutorState
      → String
      → Option String
      → Option Bool
      → Opening
      → ℕ
      → (ℕ → Poll)
      → ExecutorState × Option Outcome
  resume st id workspace_path healthy o rounds polls = when_healthy st healthy (
      after_create st id (resume_directory st id workspace_path) (create_error o.created)
        (λ next. resume_context next id o rounds polls o.context))
