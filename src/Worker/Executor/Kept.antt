-- ===== src/Worker/Executor/Kept.antt =====
-- src/worker/opencode-executor.ts: the sessions whose history was sent stay the same in `resume` and
-- `reconcile`.
use opencode_master.Worker.Outcomes.{pending_in, known_ids, answer_error}
use opencode_master.Base.{
  ℕ, Option, none, some, Bool, true, false, String, List, [], ◌+◌, ◌≡◌, refl, arith, inl, inr,
  Option-cases, Bool-cases,
}
use opencode_master.Gateway.Messages.{
  Message, extract_completed_assistant_reply, extract_pending_tool,
}
use opencode_master.Gateway.Native.{
  Poll, Waited, waiting, aborted, suspended, timed_out, asked, replied, broke, Context,
  context_failed, context_read, create_error, QuestionEntry, first_question,
}
use opencode_master.Gateway.Calls.{Opening, patience}
use opencode_master.Worker.Executor.{
  ExecutorState, ExecutorOptions, reached, settle, resume, resume_context, after_reply,
  after_create,
}
use opencode_master.Worker.Executor.Reads.{reconcile, found_in, completed_in}

pub reached-hydrated :
    (id : String) (ended : Waited) (st : ExecutorState)
    → (reached id ended st).hydrated ≡ st.hydrated
reached-hydrated id waiting st = refl
reached-hydrated id aborted st = refl
reached-hydrated id suspended st = refl
reached-hydrated id timed_out st = refl
reached-hydrated id (asked question reason) st = refl
reached-hydrated id (replied reply heard) st = refl
reached-hydrated id (broke message) st = refl

module _ (opts : ExecutorOptions) (st : ExecutorState) (id : String) where
  after_reply-hydrated :
      (next : ExecutorState) (o : Opening) (context : List Message) (rounds : ℕ) (polls : ℕ → Poll)
      (e : Option String)
      → (after_reply opts next id o context rounds polls e).0.hydrated ≡ next.hydrated
  after_reply-hydrated next o context rounds polls (some message) = refl
  after_reply-hydrated next o context rounds polls none =
      reached-hydrated id (settle rounds (o.now + patience) (known_ids context) polls 0) next

  resume_context-hydrated :
      (next : ExecutorState) (o : Opening) (rounds : ℕ) (polls : ℕ → Poll) (context : Context)
      → (resume_context opts next id o rounds polls context).0.hydrated ≡ next.hydrated
  resume_context-hydrated next o rounds polls (context_failed message) = refl
  resume_context-hydrated next o rounds polls (context_read context) =
      elim (Bool-cases o.has_stream) [
        | inl present ↦
            rw present (after_reply-hydrated next o context rounds polls (answer_error o.sent))
        | inr absent ↦ rw absent refl
      ]

  after_create-hydrated :
      (directory : String) (o : Opening) (rounds : ℕ) (polls : ℕ → Poll) (e : Option String)
      → (after_create opts st id directory e
          (λ next. resume_context opts next id o rounds polls o.context)).0.hydrated
        ≡ st.hydrated
  after_create-hydrated directory o rounds polls (some message) = refl
  after_create-hydrated directory o rounds polls none =
      resume_context-hydrated _ o rounds polls o.context

  pub resume-hydrated :
      (path : Option String) (healthy : Option Bool) (o : Opening) (rounds : ℕ) (polls : ℕ → Poll)
      → (resume opts st id path healthy o rounds polls).0.hydrated ≡ st.hydrated
  unfolding resume
  resume-hydrated path (some true) o rounds polls =
      after_create-hydrated _ o rounds polls (create_error o.created)
  resume-hydrated path (some false) o rounds polls = refl
  resume-hydrated path none o rounds polls = refl

completed_in-hydrated :
    (st : ExecutorState) (id : String) (context : List Message)
    → (completed_in st id context).0.hydrated ≡ st.hydrated
completed_in-hydrated st id context =
    elim (Option-cases (extract_completed_assistant_reply context [])) [
      | inl silent ↦ ground (arith, silent)
      | inr (reply, found) ↦ ground (arith, found)
    ]

found_in-hydrated :
    (st : ExecutorState) (id : String) (context : Context)
    → (found_in st id context).0.hydrated ≡ st.hydrated
found_in-hydrated st id (context_failed message) = refl
found_in-hydrated st id (context_read context) =
    elim (Option-cases (extract_pending_tool context)) [
      | inl absent ↦ ground (arith, absent, completed_in-hydrated st id context)
      | inr (tool, found) ↦ ground (arith, found)
    ]

pub reconcile-hydrated :
    (st : ExecutorState) (id : String) (questions : Option (List QuestionEntry))
    (scan context : Context)
    → (reconcile st id questions scan context).0.hydrated ≡ st.hydrated
unfolding reconcile
reconcile-hydrated st id questions scan context =
    elim (Option-cases (first_question (pending_in questions scan))) [
      | inl quiet ↦ ground (arith, quiet, found_in-hydrated st id context)
      | inr (question, found) ↦ ground (arith, found)
    ]
