-- ===== src/Worker/Executor/Results.antt =====
-- src/worker/opencode-executor.ts: a run of the executor ends as one of the gateway does, and the safe
-- point that it has reached says how.
use Prim.Native.Nat.{ℕ, zero, suc}
use opencode_master.Base.{
  Option, none, some, Bool, true, false, String, List, [], ◌∷◌, ◌≡◌, refl, sym, ap, ◌∙◌, arith, ◌+◌,
  inl, inr, is_success, Option-cases, Bool-cases, if◌then◌else◌, template, decimal,
}
use opencode_master.Gateway.Messages.{Message, extract_completed_assistant_reply}
use opencode_master.Gateway.{Outcome}
use opencode_master.Worker.Outcomes.{known_ids, answer_error}
use opencode_master.Worker.Executor.Same.{
  known_ids-known_assistant, pending_in-pending_questions, result_of-outcome_of,
}
use opencode_master.Gateway.Native.{
  Poll, Waited, waiting, aborted, suspended, timed_out, asked, replied, broke, wait, poll_once,
  or_next, reply_in, fetched, Fetched, create_error, error_of, Context, context_failed,
  context_read, pending_questions, first_question,
}
use opencode_master.Gateway.Calls.{
  Opening, native_prompt, native_resume, patience, outcome_of, run_opened, opened_with, sent_or,
  Opened, opened, unopened, reply_error, known_assistant,
}
use opencode_master.Worker.Executor.{
  ExecutorState, ExecutorOptions, ExecuteInput, answered, round_of, settle, or_later, finished,
  execute, resume, with_context, resume_context, after_prompt, after_reply, after_create,
  with_directory, with_hydrated, prompt_error, stream_error, resume_directory, workspace_of,
}

answered-reply_in :
    (deadline : ℕ) (known : List String) (poll : Poll) (context : Context)
    → answered deadline known poll context ≡ reply_in deadline known poll context
answered-reply_in deadline known poll (context_failed message) = refl
answered-reply_in deadline known poll (context_read messages) =
    elim (Option-cases (extract_completed_assistant_reply messages known)) [
      | inl silent ↦ ground (arith, silent)
      | inr (reply, found) ↦ ground (arith, found)
    ]

-- A round without an abort.
round_of-poll_once :
    (deadline : ℕ) (known : List String) (poll : Poll)
    → poll.is_aborted ≡ false
    → round_of deadline known poll ≡ poll_once deadline known poll
unfolding round_of poll_once
round_of-poll_once deadline known poll h =
    let same = pending_in-pending_questions poll.questions poll.scan in
    elim (Option-cases (first_question (pending_questions poll.questions poll.scan))) [
      | inl quiet ↦
          ground (arith, same, quiet, h, answered-reply_in deadline known poll poll.context)
      | inr (question, found) ↦ ground (arith, same, found, h)
    ]

or_later-or_next : (r next : Waited) → or_later r next ≡ or_next r next
or_later-or_next waiting next = refl
or_later-or_next aborted next = refl
or_later-or_next suspended next = refl
or_later-or_next timed_out next = refl
or_later-or_next (asked question reason) next = refl
or_later-or_next (replied reply heard) next = refl
or_later-or_next (broke message) next = refl

settle-wait :
    (rounds deadline : ℕ) (known : List String) (polls : ℕ → Poll) (k : ℕ)
    → ((i : ℕ) → (polls i).is_aborted ≡ false)
    → settle rounds deadline known polls k ≡ wait rounds deadline known polls k
unfolding settle wait
settle-wait zero deadline known polls k h = refl
settle-wait (suc rounds) deadline known polls k h =
    or_later-or_next (round_of deadline known (polls k))
      (settle rounds deadline known polls (suc k))
    ∙ ap (λ r. or_next r (settle rounds deadline known polls (suc k)))
        (round_of-poll_once deadline known (polls k) (h k))
    ∙ ap (or_next (poll_once deadline known (polls k)))
        (settle-wait rounds deadline known polls (suc k) h)

error_of-taken :
    (what text : String) (status : ℕ) (sent : Fetched)
    → sent ≡ fetched status text
    → is_success status ≡ true
    → error_of what sent ≡ none
error_of-taken what text status sent h taken =
    ap (error_of what) h
    ∙ ap (λ b. if b then none else some (template (what ∷ ": " ∷ decimal status ∷ " " ∷ text ∷ [])))
        taken

finished-run :
    (with_reason : Bool) (id : String) (rounds now : ℕ) (messages : List Message) (polls : ℕ → Poll)
    (st : ExecutorState)
    → ((i : ℕ) → (polls i).is_aborted ≡ false)
    → (finished with_reason id rounds now (known_ids messages) polls st).1
      ≡ run_opened with_reason id rounds now polls (opened (known_assistant messages))
finished-run with_reason id rounds now messages polls st h =
    result_of-outcome_of with_reason id
      (settle rounds (now + patience) (known_ids messages) polls 0)
    ∙ ap (outcome_of with_reason id) (
        settle-wait rounds (now + patience) (known_ids messages) polls 0 h
        ∙ ap (λ known. wait rounds (now + patience) known polls 0)
            (known_ids-known_assistant messages))

module _ (opts : ExecutorOptions) (rounds : ℕ) (polls : ℕ → Poll) (o : Opening) (text : String)
    (status : ℕ) (sent : o.sent ≡ fetched status text) (taken : is_success status ≡ true)
    (h : (i : ℕ) → (polls i).is_aborted ≡ false) where
  with_context-opened :
      (st : ExecutorState) (input : ExecuteInput) (context : Context)
      → (with_context opts st input o rounds polls context).1
        ≡ run_opened true input.session_id rounds o.now polls
            (opened_with (error_of "opencode prompt failed") o context)
  with_context-opened st input (context_failed message) = refl
  with_context-opened st input (context_read messages) =
      let id = input.session_id in
      let path = template ("opencode POST /api/session/" ∷ id ∷ "/prompt failed" ∷ []) in
      elim (Bool-cases o.has_stream) [
        | inr absent ↦ ground (arith, absent)
        | inl present ↦
            ap
              (λ b.
                (if b
                  then after_prompt opts st input o messages rounds polls (prompt_error id o.sent)
                  else (st, some stream_error)).1)
              present
            ∙ ap (λ e. (after_prompt opts st input o messages rounds polls e).1)
                (error_of-taken path text status o.sent sent taken)
            ∙ finished-run true id rounds o.now messages polls (with_hydrated id st) h
            ∙ sym (
                ap
                  (λ b. run_opened true id rounds o.now polls (
                    if b
                    then sent_or (error_of "opencode prompt failed" o.sent) messages
                    else unopened "opencode event stream unavailable"))
                  present
                ∙ ap (λ e. run_opened true id rounds o.now polls (sent_or e messages))
                    (error_of-taken "opencode prompt failed" text status o.sent sent taken))
      ]

  resume_context-opened :
      (st : ExecutorState) (id : String) (context : Context)
      → (resume_context opts st id o rounds polls context).1
        ≡ run_opened false id rounds o.now polls (opened_with reply_error o context)
  resume_context-opened st id (context_failed message) = refl
  resume_context-opened st id (context_read messages) = elim (Bool-cases o.has_stream) [
    | inr absent ↦ ground (arith, absent)
    | inl present ↦
        ap
          (λ b.
            (if b
              then after_reply opts st id o messages rounds polls (answer_error o.sent)
              else (st, some stream_error)).1)
          present
        ∙ ap (λ e. (after_reply opts st id o messages rounds polls e).1) (ap answer_error sent)
        ∙ finished-run false id rounds o.now messages polls st h
        ∙ sym (
            ap
              (λ b. run_opened false id rounds o.now polls (
                if b
                then sent_or (reply_error o.sent) messages
                else unopened "opencode event stream unavailable"))
              present
            ∙ ap (λ e. run_opened false id rounds o.now polls (sent_or e messages))
                (ap reply_error sent))
  ]

  after_create-opened :
      (st : ExecutorState) (id directory : String)
      (next : ExecutorState → ExecutorState × Option Outcome) (with_reason : Bool) (rest : Opened)
      (created : Option String)
      → ((after : ExecutorState)
          → (next after).1 ≡ run_opened with_reason id rounds o.now polls rest)
      → (after_create opts st id directory created next).1
        ≡ run_opened with_reason id rounds o.now polls
            (elim created [ some message ↦ unopened message | none ↦ rest ])
  after_create-opened st id directory next with_reason rest (some message) k = refl
  after_create-opened st id directory next with_reason rest none k =
      k (with_directory id directory st)

  -- The outcomes of a worker's executor are those of the gateway of the master: for the same answers of
  -- the native opencode, the same rounds and the same clock, a healthy opencode that is not aborted,
  -- and a prompt that is taken, `execute` and the gateway's `prompt` end in the same way, be it with a
  -- reply, a question, a suspended run or an error, and so do `resume` and the gateway's `resume`.
  -- A reply without a status is read as complete.
  pub execute-native_prompt :
      (st : ExecutorState) (input : ExecuteInput)
      → ((execute opts st input (some true) o rounds polls).1
          ≡ native_prompt input.session_id o rounds polls)
        × ((resume opts st input.session_id input.workspace_path (some true) o rounds polls).1
            ≡ native_resume input.session_id o rounds polls)
  unfolding execute resume native_prompt native_resume
  execute-native_prompt st input = (
    after_create-opened st input.session_id (workspace_of opts input)
        (λ next. with_context opts next input o rounds polls o.context) true
        (opened_with (error_of "opencode prompt failed") o o.context) (create_error o.created)
        (λ after. with_context-opened after input o.context),
    after_create-opened st input.session_id
        (resume_directory opts st input.session_id input.workspace_path)
        (λ next. resume_context opts next input.session_id o rounds polls o.context) false
        (opened_with reply_error o o.context) (create_error o.created)
        (λ after. resume_context-opened after input.session_id o.context),
  )
