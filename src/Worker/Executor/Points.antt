-- ===== src/Worker/Executor/Points.antt =====
-- src/worker/opencode-executor.ts: the safe point of a session after a run.
use Prim.Native.Nat.{ℕ, zero, suc}
use opencode_master.Worker.Outcomes.{pending_in, result_of, known_ids}
use opencode_master.Base.{
  Option, none, some, Bool, true, String, List, ◌+◌, ltb, ◌≡◌, refl, subst, ap, arith, get_entry,
  get-set_same, inl, inr, Option-cases, Bool-cases, if◌then◌else◌, is_some,
}
use opencode_master.Gateway.{Outcome, resulted, failed}
use opencode_master.Gateway.Messages.{extract_completed_assistant_reply}
use opencode_master.Gateway.Native.{
  Poll, Waited, waiting, aborted, suspended, timed_out, asked, replied, broke, Context,
  context_failed, context_read, first_question,
}
use opencode_master.Gateway.Calls.{Opening, patience}
use opencode_master.Worker.Executor.{
  ExecutorState, ExecutorOptions, ExecuteInput, SafePoint, idle, waiting_input, reached, round_of,
  or_later, answered, unanswered, settle, execute, with_hydrated,
}
use opencode_master.Worker.Executor.Endings.{created_state, execute-ends}

-- The loop of the executor does not end aborted.
abbrev NotAborted : Waited → Type 0
NotAborted aborted = ⊥
NotAborted _ = Unit

unanswered-NotAborted : (deadline : ℕ) (poll : Poll) → NotAborted (unanswered deadline poll)
unanswered-NotAborted deadline poll = elim (Bool-cases (is_some poll.late.suspend_reason)) [
  | inl failing ↦ subst NotAborted {x = suspended} (ground (arith, failing)) tt
  | inr going ↦ elim (Bool-cases (ltb deadline poll.now)) [
    | inl late ↦ subst NotAborted {x = timed_out} (ground (arith, going, late)) tt
    | inr early ↦ subst NotAborted {x = waiting} (ground (arith, going, early)) tt
  ]
]

answered-NotAborted :
    (deadline : ℕ) (known : List String) (poll : Poll) (context : Context)
    → NotAborted (answered deadline known poll context)
answered-NotAborted deadline known poll (context_failed message) = tt
answered-NotAborted deadline known poll (context_read messages) =
    elim (Option-cases (extract_completed_assistant_reply messages known)) [
      | inl silent ↦ subst NotAborted (ground (arith, silent)) (unanswered-NotAborted deadline poll)
      | inr (reply, found) ↦
          subst NotAborted {x = replied reply poll.late} (ground (arith, found)) tt
    ]

round_of-NotAborted :
    (deadline : ℕ) (known : List String) (poll : Poll) → NotAborted (round_of deadline known poll)
unfolding round_of
round_of-NotAborted deadline known poll =
    elim (Option-cases (first_question (pending_in poll.questions poll.scan))) [
      | inl quiet ↦
          subst NotAborted (ground (arith, quiet))
            (answered-NotAborted deadline known poll poll.context)
      | inr (question, found) ↦
          subst NotAborted {x = asked question poll.early.suspend_reason} (ground (arith, found)) tt
    ]

or_later-NotAborted :
    (r next : Waited) → NotAborted r → NotAborted next → NotAborted (or_later r next)
or_later-NotAborted waiting next n k = k
or_later-NotAborted aborted next n k = absurd n
or_later-NotAborted suspended next n k = tt
or_later-NotAborted timed_out next n k = tt
or_later-NotAborted (asked question reason) next n k = tt
or_later-NotAborted (replied reply heard) next n k = tt
or_later-NotAborted (broke message) next n k = tt

settle-NotAborted :
    (rounds deadline : ℕ) (known : List String) (polls : ℕ → Poll) (k : ℕ)
    → NotAborted (settle rounds deadline known polls k)
unfolding settle
settle-NotAborted zero deadline known polls k = tt
settle-NotAborted (suc rounds) deadline known polls k =
    or_later-NotAborted (round_of deadline known (polls k))
      (settle rounds deadline known polls (suc k)) (round_of-NotAborted deadline known (polls k))
      (settle-NotAborted rounds deadline known polls (suc k))

-- The safe point of a session after an outcome: an error keeps it.
abbrev point_after : Option SafePoint → Outcome → Option SafePoint
point_after old (failed message) = old
point_after old (resulted result) =
    if is_some result.interaction then some waiting_input else some idle

module _ (opts : ExecutorOptions) (st : ExecutorState) (input : ExecuteInput) (o : Opening)
    (rounds : ℕ) (polls : ℕ → Poll) where
  -- What holds of a run that has an outcome.
  abbrev HasPoint : ExecutorState × Option Outcome → Type 0
  HasPoint (after, none) = Unit
  HasPoint (after, some outcome) =
      get_entry after.safe_points input.session_id
      ≡ point_after (get_entry st.safe_points input.session_id) outcome

  has_point :
      (r : ExecutorState × Option Outcome) (outcome : Outcome)
      → HasPoint r
      → r.1 ≡ some outcome
      → get_entry r.0.safe_points input.session_id
        ≡ point_after (get_entry st.safe_points input.session_id) outcome
  has_point (after, none) outcome k h = ground (arith, h)
  has_point (after, some other) outcome k h = ground (arith, k, h)

  reached-point :
      (ended : Waited) (hydrated : ExecutorState)
      → NotAborted ended
      → hydrated.safe_points ≡ st.safe_points
      → HasPoint (reached input.session_id ended hydrated, result_of true input.session_id ended)
  reached-point waiting hydrated n h = tt
  reached-point aborted hydrated n h = absurd n
  reached-point suspended hydrated n h = get-set_same hydrated.safe_points input.session_id idle
  reached-point timed_out hydrated n h = ap (λ points. get_entry points input.session_id) h
  reached-point (asked question reason) hydrated n h =
      get-set_same hydrated.safe_points input.session_id waiting_input
  reached-point (replied reply heard) hydrated n h =
      get-set_same hydrated.safe_points input.session_id idle
  reached-point (broke message) hydrated n h = ap (λ points. get_entry points input.session_id) h

  -- After a run of the executor that ends, the safe point of its session says how it ended: the session
  -- waits for input if there is a question, and is idle if there is a reply or the run is suspended. A
  -- run that fails leaves the safe point that the session had before, also where its prompt was sent.
  pub execute-safe_point :
      (healthy : Option Bool) (outcome : Outcome)
      → (execute opts st input healthy o rounds polls).1 ≡ some outcome
      → get_entry (execute opts st input healthy o rounds polls).0.safe_points input.session_id
        ≡ point_after (get_entry st.safe_points input.session_id) outcome
  execute-safe_point healthy outcome h =
      has_point (execute opts st input healthy o rounds polls) outcome
        (execute-ends opts st input o rounds polls HasPoint (λ message. refl) (λ message. refl) tt
          (λ context.
            reached-point (settle rounds (o.now + patience) (known_ids context) polls 0)
              (with_hydrated input.session_id (created_state opts st input o rounds polls))
              (settle-NotAborted rounds (o.now + patience) (known_ids context) polls 0) refl)
          healthy)
        h
