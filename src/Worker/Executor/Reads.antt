-- ===== src/Worker/Executor/Reads.antt =====
-- src/worker/opencode-executor.ts: `reconcile`, `history`, `snapshot` and `load`. The wait for a healthy
-- opencode, with which the first two begin, is left out.
use opencode_master.Worker.Outcomes.{pending_in}
use opencode_master.Base.{
  ℕ, Option, none, some, Bool, String, List, [], ◌==◌, if◌then◌else◌, map, get_entry, or_else,
  sort_by,
}
use opencode_master.Types.{WorkerLoad}
use opencode_master.Gateway.{Outcome, resulted, failed}
use opencode_master.Gateway.Messages.{
  Message, Projected, project_context_messages, extract_pending_tool,
  extract_completed_assistant_reply,
}
use opencode_master.Gateway.Native.{
  Context, context_failed, context_read, QuestionEntry, first_question,
}
use opencode_master.Gateway.Calls.{question_result, tool_result, recovered_result}
use opencode_master.Worker.Executor.{
  ExecutorState, ExecutorOptions, SafePoint, idle, waiting_input, with_safe_point,
}

-- `isMissingOpenCodeSessionError`.
abbrev is_missing_session : String → Bool
is_missing_session message = message == "opencode context failed: 404"

abbrev pub completed_in : ExecutorState → String → List Message → ExecutorState × Option Outcome
completed_in st id context = elim (extract_completed_assistant_reply context []) [
  | some reply ↦ (with_safe_point id idle st, some (resulted (recovered_result reply)))
  | none ↦ (st, none)
]

abbrev pub found_in : ExecutorState → String → Context → ExecutorState × Option Outcome
found_in st id (context_failed message) =
    (st, if is_missing_session message then none else some (failed message))
found_in st id (context_read context) = elim (extract_pending_tool context) [
  | some tool ↦ (st, some (resulted (tool_result tool)))
  | none ↦ completed_in st id context
]

-- `none` where there is nothing to recover, or no session.
unfoldable pub reconcile :
    ExecutorState
    → String
    → Option (List QuestionEntry)
    → Context
    → Context
    → ExecutorState × Option Outcome
reconcile st id questions scan context = elim (first_question (pending_in questions scan)) [
  | some question ↦
      (with_safe_point id waiting_input st, some (resulted (question_result id question none)))
  | none ↦ found_in st id context
]

-- What `messages` ends with: the message of an error, or the messages with their times.
pub data Listed : Type 0 where
  unlisted : String → Listed
  listed : List (Option ℕ × Message) → Listed

abbrev created_at : Option ℕ × Message → ℕ
created_at (time, message) = or_else time 0

abbrev message_of : Option ℕ × Message → Message
message_of (time, message) = message

-- What `history` returns or throws.
pub data History : Type 0 where
  shown : List Projected → History
  unreadable : String → History

unfoldable pub history : String → Listed → History
history id (unlisted message) =
    if message == "opencode messages failed: 404" then shown [] else unreadable message
history id (listed messages) =
    shown (project_context_messages id (map message_of (sort_by created_at messages)))

-- The safe point that a snapshot is exported at, if one is.
unfoldable pub snapshot_point : ExecutorOptions → ExecutorState → String → Option SafePoint
snapshot_point opts st id = if opts.has_snapshotter then get_entry st.safe_points id else none

abbrev load_with : ℕ → ℕ → ℕ → WorkerLoad
load_with cpu mem drains = record {
  cpu_pct = cpu;
  mem_pct = mem;
  active_drains = drains;
  pending_steer = 0;
  pending_queue = 0;
  tool_processes = 0;
}

-- From the number of active sessions, if it could be read.
unfoldable pub load : Option ℕ → WorkerLoad
load none = load_with 10 15 0
load (some active) = load_with 15 20 active
