-- ===== src/Worker/Executor/Tests.antt =====
-- src/worker/opencode-executor.ts: runs of a native opencode that has the reply at once.
use opencode_master.Worker.Outcomes.{pending_in}
use opencode_master.Types.{HistoryRole}
use opencode_master.Gateway.{RunResult}
use opencode_master.Gateway.Messages.{
  Message, extract_pending_question, extract_completed_assistant_reply, completed_from, new_id,
  ends_reply, reasoning_of,
}
use opencode_master.Gateway.Frames.{nothing_heard}
use opencode_master.Gateway.Native.{Poll, fetched, context_read}
use opencode_master.Gateway.Calls.{Opening, native_prompt, native_resume, reply_result}
use opencode_master.Worker.Executor.{
  ExecutorOptions, ExecutorState, ExecuteInput, execute, resume, settle, round_of, prompt_of,
}
use opencode_master.Worker.Executor.Results.{execute-native_prompt}
use opencode_master.Worker.Executor.Restoring
use opencode_master.Worker.Executor.Restoring.{execute-prompt_of}
use opencode_master.Base.{
  trim, text_dec, Bool-cases, some, none, true, false, List, [], ◌∷◌, ◌≡◌, refl,
}
use Prim.Native.Nat.{ℕ}

-- A native opencode that has the reply at once.
abbrev reply_message : Message
reply_message = record {
  type = "assistant";
  id = some "b";
  text = none;
  finish = some "stop";
  parts =
      record { type = some "text"; id = none; text = some "42"; name = none; state = none } ∷ [];
}

abbrev opening : Opening
opening = record {
  created = fetched 200 "";
  context = context_read [];
  has_stream = true;
  sent = fetched 200 "";
  now = 5;
}

abbrev polls : ℕ → Poll
polls k = record {
  is_aborted = false;
  questions = some [];
  scan = context_read [];
  early = nothing_heard;
  context = context_read (reply_message ∷ []);
  late = nothing_heard;
  now = 6;
}

abbrev executor_options : ExecutorOptions
executor_options = record { directory = "w"; has_snapshotter = true }

abbrev fresh_state : ExecutorState
fresh_state = record { hydrated = []; directories = []; safe_points = [] }

abbrev question_input : ExecuteInput
question_input = record {
  session_id = "s";
  workspace_path = none;
  prompt = "what is it?";
  history =
      record { id = none; role = HistoryRole.user; content = "hi"; name = none; reasoning = none }
      ∷ [];
}

abbrev reply : RunResult
reply = reply_result (record { id = "b"; text = "42"; reasoning = "" }) nothing_heard

execute-native_prompt_example :
    ((execute executor_options fresh_state question_input (some true) opening 1 polls).1
      ≡ native_prompt "s" opening 1 polls)
    × ((resume executor_options fresh_state "s" none (some true) opening 1 polls).1
        ≡ native_resume "s" opening 1 polls)
execute-native_prompt_example =
    execute-native_prompt executor_options 1 polls opening "" 200 refl refl (λ i. refl) fresh_state
      question_input

abbrev later_operations : List Restoring.Operation
later_operations =
    Restoring.reconciles "s" none (context_read []) (context_read [])
    ∷ (Restoring.executes question_input (some false) opening 1 polls ∷ [])

execute-prompt_of_example :
    prompt_of
      (Restoring.perform_all executor_options
        (execute executor_options fresh_state question_input (some true) opening 1 polls).0
        later_operations)
      question_input
      []
    ≡ "what is it?"
unfolding execute settle round_of pending_in extract_pending_question
    extract_completed_assistant_reply completed_from new_id text_dec Bool-cases ends_reply trim
    reasoning_of
execute-prompt_of_example =
    execute-prompt_of executor_options fresh_state question_input (some true) opening 1 polls reply
      later_operations question_input [] refl refl
