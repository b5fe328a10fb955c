-- ===== src/Worker/Executor/Restoring.antt =====
-- src/worker/opencode-executor.ts: the sessions whose history was sent, over the life of the executor
-- from one start of the native opencode to the next.
use opencode_master.Worker.Outcomes.{result_of, known_ids}
use opencode_master.Base.{
  ℕ, Option, none, some, Bool, true, String, List, [], ◌∷◌, ◌++◌, ◌+◌, ◌∙◌, ◌≡◌, ap, arith,
  contains, inl, inr, Bool-cases,
}
use opencode_master.Gateway.{Outcome, RunResult, resulted, failed}
use opencode_master.Gateway.Messages.{Message}
use opencode_master.Gateway.Native.{
  Poll, Waited, waiting, aborted, suspended, timed_out, asked, replied, broke, Context,
  QuestionEntry,
}
use opencode_master.Gateway.Calls.{Opening, patience}
use opencode_master.Worker.Executor.{
  ExecutorState, ExecutorOptions, ExecuteInput, reached, settle, execute, resume, with_hydrated,
  prompt_of, restores_history,
}
use opencode_master.Worker.Executor.Reads.{reconcile}
use opencode_master.Worker.Executor.Endings.{created_state, execute-ends}
use opencode_master.Worker.Executor.Kept.{reached-hydrated, resume-hydrated, reconcile-hydrated}

contains-append : (ids : List String) (id : String) → contains (ids ++ id ∷ []) id ≡ true
contains-append [] id = ground arith
contains-append (x ∷ ids) id = ground (arith, contains-append ids id)

contains-append_left :
    (ids more : List String) (id : String)
    → contains ids id ≡ true
    → contains (ids ++ more) id ≡ true
contains-append_left [] more id h = absurd (ground (arith, h))
contains-append_left (x ∷ ids) more id h = ground (arith, h, contains-append_left ids more id)

module _ (opts : ExecutorOptions) (st : ExecutorState) (input : ExecuteInput) (o : Opening)
    (rounds : ℕ) (polls : ℕ → Poll) where
  abbrev sent_state : ExecutorState
  sent_state = with_hydrated input.session_id (created_state opts st input o rounds polls)

  abbrev IsRestored : ExecutorState × Option Outcome → Type 0
  IsRestored (after, none) = Unit
  IsRestored (after, some (failed message)) = Unit
  IsRestored (after, some (resulted result)) = contains after.hydrated input.session_id ≡ true

  hydrated-contains : contains sent_state.hydrated input.session_id ≡ true
  hydrated-contains = elim (Bool-cases (contains st.hydrated input.session_id)) [
    | inl known ↦ ground (arith, known)
    | inr new ↦ ground (arith, new, contains-append st.hydrated input.session_id)
  ]

  reached-IsRestored :
      (ended : Waited)
      → IsRestored
          (reached input.session_id ended sent_state, result_of true input.session_id ended)
  reached-IsRestored waiting = tt
  reached-IsRestored aborted = hydrated-contains
  reached-IsRestored suspended = hydrated-contains
  reached-IsRestored timed_out = tt
  reached-IsRestored (asked question reason) = hydrated-contains
  reached-IsRestored (replied reply heard) = hydrated-contains
  reached-IsRestored (broke message) = tt

  is_restored :
      (r : ExecutorState × Option Outcome) (result : RunResult)
      → IsRestored r
      → r.1 ≡ some (resulted result)
      → contains r.0.hydrated input.session_id ≡ true
  is_restored (after, none) result k h = ground (arith, h)
  is_restored (after, some (failed message)) result k h = ground (arith, h)
  is_restored (after, some (resulted other)) result k h = k

  restored_after :
      (healthy : Option Bool) (result : RunResult)
      → (execute opts st input healthy o rounds polls).1 ≡ some (resulted result)
      → contains (execute opts st input healthy o rounds polls).0.hydrated input.session_id ≡ true
  restored_after healthy result h =
      is_restored (execute opts st input healthy o rounds polls) result
        (execute-ends opts st input o rounds polls IsRestored (λ message. tt) (λ message. tt) tt
          (λ context.
            reached-IsRestored (settle rounds (o.now + patience) (known_ids context) polls 0))
          healthy)
        h

  module _ (id : String) (known : contains st.hydrated id ≡ true) where
    sent-contains : contains sent_state.hydrated id ≡ true
    sent-contains = elim (Bool-cases (contains st.hydrated input.session_id)) [
      | inl old ↦ ground (arith, old, known)
      | inr new ↦
          ground (arith, new, contains-append_left st.hydrated (input.session_id ∷ []) id known)
    ]

    execute-contains :
        (healthy : Option Bool)
        → contains (execute opts st input healthy o rounds polls).0.hydrated id ≡ true
    execute-contains healthy =
        execute-ends opts st input o rounds polls (λ r. contains r.0.hydrated id ≡ true)
          (λ message. known) (λ message. known) known
          (λ context.
            ap (λ ids. contains ids id)
              (reached-hydrated input.session_id
                (settle rounds (o.now + patience) (known_ids context) polls 0) sent_state)
            ∙ sent-contains)
          healthy

-- What is asked of an executor while its native opencode lives.
pub data Operation : Type 0 where
  executes : ExecuteInput → Option Bool → Opening → ℕ → (ℕ → Poll) → Operation
  resumes : String → Option String → Option Bool → Opening → ℕ → (ℕ → Poll) → Operation
  reconciles : String → Option (List QuestionEntry) → Context → Context → Operation

abbrev pub perform : ExecutorOptions → ExecutorState → Operation → ExecutorState
perform opts st (executes input healthy o rounds polls) =
    (execute opts st input healthy o rounds polls).0
perform opts st (resumes id path healthy o rounds polls) =
    (resume opts st id path healthy o rounds polls).0
perform opts st (reconciles id questions scan context) = (reconcile st id questions scan context).0

abbrev pub perform_all : ExecutorOptions → ExecutorState → List Operation → ExecutorState
perform_all opts st [] = st
perform_all opts st (op ∷ ops) = perform_all opts (perform opts st op) ops

perform-contains :
    (opts : ExecutorOptions) (st : ExecutorState) (op : Operation) (id : String)
    → contains st.hydrated id ≡ true
    → contains (perform opts st op).hydrated id ≡ true
perform-contains opts st (executes input healthy o rounds polls) id h =
    execute-contains opts st input o rounds polls id h healthy
perform-contains opts st (resumes other path healthy o rounds polls) id h =
    ap (λ ids. contains ids id) (resume-hydrated opts st other path healthy o rounds polls) ∙ h
perform-contains opts st (reconciles other questions scan context) id h =
    ap (λ ids. contains ids id) (reconcile-hydrated st other questions scan context) ∙ h

perform_all-contains :
    (opts : ExecutorOptions) (st : ExecutorState) (ops : List Operation) (id : String)
    → contains st.hydrated id ≡ true
    → contains (perform_all opts st ops).hydrated id ≡ true
perform_all-contains opts st [] id h = h
perform_all-contains opts st (op ∷ ops) id h =
    perform_all-contains opts (perform opts st op) ops id (perform-contains opts st op id h)

-- The history is sent to the native opencode at most once while it lives: after a run of a session that
-- gave a result, and any sequence of runs, resumptions and reconciliations, of this session and of
-- others, the prompt of the next run of the session is its content alone, however long the history that
-- comes with it is and whatever the native session remembers.
pub execute-prompt_of :
    (opts : ExecutorOptions) (st : ExecutorState) (input : ExecuteInput) (healthy : Option Bool)
    (o : Opening) (rounds : ℕ) (polls : ℕ → Poll) (result : RunResult) (ops : List Operation)
    (next : ExecuteInput) (context : List Message)
    → (execute opts st input healthy o rounds polls).1 ≡ some (resulted result)
    → next.session_id ≡ input.session_id
    → prompt_of (perform_all opts (execute opts st input healthy o rounds polls).0 ops) next context
      ≡ next.prompt
unfolding prompt_of restores_history
execute-prompt_of opts st input healthy o rounds polls result ops next context h same =
    let known =
      perform_all-contains opts (execute opts st input healthy o rounds polls).0 ops
        input.session_id (restored_after opts st input o rounds polls healthy result h) in
    ground (arith, known, same)
