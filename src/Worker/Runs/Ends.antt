-- ===== src/Worker/Runs/Ends.antt =====
-- src/worker/index.ts: the last report of a run whose deltas all come before its result.
use opencode_master.Base.{
  ℕ, String, Option, none, some, Bool, true, false, List, [], ◌∷◌, ◌++◌, ◌≡◌, ◌==◌, ◌||◌, refl,
  is_some, if◌then◌else◌, text_dec, Bool-cases,
}
use opencode_master.Gateway.{Outcome, resulted, failed, RunResult}
use opencode_master.Worker.Runtime.{Prepared, refused, directory}
use opencode_master.Worker.Runs.{
  Envelope, WorkerState, Turn, Emission, Snapped, Executed, resolved_emission, envelope_of, publish,
  and_next, conclude, executed, caught, prompt_task, reply_task, error_emission, last_emission,
}

abbrev last_report : List Envelope → Option Envelope
last_report [] = none
last_report (e ∷ []) = some e
last_report (e ∷ (f ∷ rest)) = last_report (f ∷ rest)

last_report-append : (es : List Envelope) (e : Envelope) → last_report (es ++ e ∷ []) ≡ some e
last_report-append [] e = refl
last_report-append (x ∷ []) e = refl
last_report-append (x ∷ (y ∷ es)) e = last_report-append (y ∷ es) e

-- Whether the type of the last report fits how the executor ended.
abbrev fits : Outcome → String → Bool
fits (failed message) type = type == "worker.execution.error"
fits (resulted result) type =
    type == "worker.execution.error"
    || type == (if is_some result.interaction then "session.waiting_input" else "session.idle")

fits-error : (outcome : Outcome) → fits outcome "worker.execution.error" ≡ true
unfolding text_dec Bool-cases
fits-error (failed message) = refl
fits-error (resulted result) = refl

-- The last report is of the turn, and says how the run has ended.
pub record IsEnded (turn : Turn) (outcome : Outcome) (st : WorkerState) : Type 0 where
  pub report : Envelope
  pub is_last : last_report st.reports ≡ some report
  pub ends : fits outcome report.type ≡ true
  pub of_session : report.session_id ≡ turn.session_id
  pub of_turn : report.turn_id ≡ turn.turn_id
  pub of_lease : report.lease_epoch ≡ turn.lease_epoch

module _ (delivers : Envelope → Option String) (turn : Turn) (clock : ℕ → ℕ)
    (outcome : Outcome) where
  publish-IsEnded :
      (st : WorkerState) (e : Emission)
      → fits outcome e.0 ≡ true
      → IsEnded turn outcome (publish delivers turn clock st e).0
  unfolding publish
  publish-IsEnded st e h = record {
    report = envelope_of delivers turn clock st e;
    is_last = last_report-append st.reports (envelope_of delivers turn clock st e);
    ends = h;
    of_session = refl;
    of_turn = refl;
    of_lease = refl;
  }

  -- What holds if there was no error.
  abbrev EndsWell : WorkerState × Option String → Type 0
  EndsWell (st, none) = IsEnded turn outcome st
  EndsWell (st, some message) = Unit

  and_next-EndsWell :
      (r : WorkerState × Option String) (next : WorkerState → WorkerState × Option String)
      → ((st : WorkerState) → EndsWell (next st))
      → EndsWell (and_next delivers turn clock r next)
  and_next-EndsWell (st, none) next h = h st
  and_next-EndsWell (st, some message) next h = tt

  ended : (r : WorkerState × Option String) → IsEnded turn outcome r.0 → EndsWell r
  ended (st, none) h = h
  ended (st, some message) h = tt

  caught-IsEnded :
      (r : WorkerState × Option String)
      → EndsWell r
      → IsEnded turn outcome (caught delivers turn clock r)
  caught-IsEnded (st, none) h = h
  caught-IsEnded (st, some message) h =
      publish-IsEnded st (error_emission message) (fits-error outcome)

fits-last :
    (result : RunResult) (b : Bool)
    → is_some result.interaction ≡ b
    → fits (resulted result) (last_emission result).0 ≡ true
unfolding text_dec Bool-cases
fits-last result true h = rw h refl
fits-last result false h = rw h refl

module _ (delivers : Envelope → Option String) (turn : Turn) (clock : ℕ → ℕ) where
  conclude-EndsWell :
      (st : WorkerState) (outcome : Outcome) (snap : Snapped)
      → EndsWell delivers turn clock outcome (conclude delivers turn clock st outcome snap)
  conclude-EndsWell st (failed message) snap = tt
  conclude-EndsWell st (resulted result) snap =
      let last =
        λ (after : WorkerState). publish delivers turn clock after (last_emission result) in
      and_next-EndsWell delivers turn clock (resulted result) _ last (λ after.
        ended delivers turn clock (resulted result) (last after) (
          publish-IsEnded delivers turn clock (resulted result) after (last_emission result)
            (fits-last result _ refl)))

  -- Where all deltas come before the result, and however a prompt or a reply to a question ends on a
  -- worker, be it with a result, a question, an error of the executor, of the workspace or of a
  -- report, the last report of it says so: it is of the same session, turn and epoch, and its type
  -- is `worker.execution.error` or, only if the executor gave a result, `session.waiting_input` for
  -- one with a question and `session.idle` for one without.
  pub prompt_task-IsEnded :
      (st : WorkerState) (interaction_id : String) (prepared : Prepared) (run : Executed)
      (snap : Snapped)
      → IsEnded turn run.outcome (prompt_task delivers turn clock st prepared run snap)
        × IsEnded turn run.outcome
            (reply_task delivers turn clock st interaction_id prepared run snap)
  unfolding prompt_task reply_task
  prompt_task-IsEnded st interaction_id (refused message) run snap =
      let is_ended = caught-IsEnded delivers turn clock run.outcome (st, some message) tt in
      (is_ended, is_ended)
  prompt_task-IsEnded st interaction_id (directory path) run snap = (
    caught-IsEnded delivers turn clock run.outcome (executed delivers turn clock st run snap)
        (conclude-EndsWell _ run.outcome snap),
    (let resolved =
          publish delivers turn clock st (resolved_emission delivers turn clock interaction_id) in
        let next = λ (after : WorkerState). executed delivers turn clock after run snap in
        caught-IsEnded delivers turn clock run.outcome (and_next delivers turn clock resolved next)
          (and_next-EndsWell delivers turn clock run.outcome resolved next
            (λ after. conclude-EndsWell _ run.outcome snap))),
  )
