-- ===== src/Worker/Executor/Endings.antt =====
-- src/worker/opencode-executor.ts: the ways in which `execute` ends. What holds of each holds of it.
use opencode_master.Worker.Outcomes.{known_ids}
use opencode_master.Base.{
  ℕ, Option, none, some, Bool, true, false, String, List, sym, subst, inl, inr, Bool-cases,
  if◌then◌else◌,
}
use opencode_master.Gateway.{Outcome, failed}
use opencode_master.Gateway.Messages.{Message}
use opencode_master.Gateway.Native.{Poll, Context, context_failed, context_read, create_error}
use opencode_master.Gateway.Calls.{Opening}
use opencode_master.Worker.Executor.{
  ExecutorState, ExecutorOptions, ExecuteInput, finished, execute, with_context, after_prompt,
  after_create, with_directory, with_hydrated, prompt_error, stream_error, workspace_of,
}

module _ (opts : ExecutorOptions) (st : ExecutorState) (input : ExecuteInput) (o : Opening)
    (rounds : ℕ) (polls : ℕ → Poll) where
  abbrev pub created_state : ExecutorState
  created_state = with_directory input.session_id (workspace_of opts input) st

  abbrev pub run : List Message → ExecutorState × Option Outcome
  run context =
      finished true input.session_id rounds o.now (known_ids context) polls
        (with_hydrated input.session_id created_state)

  module _ (P : ExecutorState × Option Outcome → Type 0)
      (before : (message : String) → P (st, some (failed message)))
      (created : (message : String) → P (created_state, some (failed message)))
      (endless : P (st, none)) (ran : (context : List Message) → P (run context)) where
    prompt-ends :
        (context : List Message) (e : Option String)
        → P (after_prompt opts created_state input o context rounds polls e)
    prompt-ends context (some message) = created message
    prompt-ends context none = ran context

    context-ends :
        (context : Context) → P (with_context opts created_state input o rounds polls context)
    context-ends (context_failed message) = created message
    context-ends (context_read context) = elim (Bool-cases o.has_stream) [
      | inl present ↦
          subst
            (λ b. P (
              if b
              then after_prompt opts created_state input o context rounds polls
                  (prompt_error input.session_id o.sent)
              else (created_state, some stream_error)))
            (sym present) (prompt-ends context (prompt_error input.session_id o.sent))
      | inr absent ↦
          subst
            (λ b. P (
              if b
              then after_prompt opts created_state input o context rounds polls
                  (prompt_error input.session_id o.sent)
              else (created_state, some stream_error)))
            (sym absent) (created "opencode event stream unavailable")
    ]

    create-ends :
        (e : Option String)
        → P (
            after_create opts st input.session_id
              (workspace_of opts input)
              e
              (λ next. with_context opts next input o rounds polls o.context))
    create-ends (some message) = before message
    create-ends none = context-ends o.context

    pub execute-ends : (healthy : Option Bool) → P (execute opts st input healthy o rounds polls)
    unfolding execute
    execute-ends (some true) = create-ends (create_error o.created)
    execute-ends (some false) = before "opencode not healthy"
    execute-ends none = endless
