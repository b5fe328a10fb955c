-- ===== src/Worker/Executor/Same.antt =====
-- src/worker/opencode-executor.ts: what the executor reads and returns agrees with the gateway's code.
use opencode_master.Base.{
  Option, none, some, Bool, true, false, String, List, [], ◌∷◌, ◌≡◌, refl, ap, ◌∙◌, arith, ◌==◌,
  Option-cases, Bool-cases, inl, inr,
}
use opencode_master.Gateway.Messages.{Message, Question, extract_pending_question}
use opencode_master.Gateway.Native.{
  Fetched, unreachable, fetched, Context, context_failed, context_read, QuestionEntry, Waited,
  waiting, aborted, suspended, timed_out, asked, replied, broke, pending_questions, or_scanned,
  entries_with_id, scanned,
}
use opencode_master.Gateway.Calls.{known_assistant, outcome_of, reply_error}
use opencode_master.Worker.Outcomes.{
  known_ids, listed, scanned_in, pending_in, answer_error, result_of,
}

pub known_ids-known_assistant : (ms : List Message) → known_ids ms ≡ known_assistant ms
known_ids-known_assistant [] = refl
known_ids-known_assistant (m ∷ ms) = elim (Option-cases m.id) [
  | inl unnamed ↦ ground (arith, unnamed, known_ids-known_assistant ms)
  | inr (id, named) ↦ ground (arith, named, known_ids-known_assistant ms)
]

listed-entries_with_id : (entries : List QuestionEntry) → listed entries ≡ entries_with_id entries
listed-entries_with_id [] = refl
listed-entries_with_id (entry ∷ entries) = elim (Option-cases entry.id) [
  | inl unnamed ↦ ground (arith, unnamed, listed-entries_with_id entries)
  | inr (id, named) ↦ ground (arith, named, listed-entries_with_id entries)
]

scanned_in-scanned : (context : Context) → scanned_in [] context ≡ scanned context
scanned_in-scanned (context_failed message) = refl
scanned_in-scanned (context_read messages) =
    elim (Option-cases (extract_pending_question messages)) [
      | inl quiet ↦ ground (arith, quiet)
      | inr (question, found) ↦ ground (arith, found)
    ]

scanned_in-or_scanned :
    (pending : List Question) (context : Context)
    → scanned_in pending context ≡ or_scanned pending context
scanned_in-or_scanned [] context = scanned_in-scanned context
scanned_in-or_scanned (question ∷ pending) context = refl

pub pending_in-pending_questions :
    (entries : Option (List QuestionEntry)) (context : Context)
    → pending_in entries context ≡ pending_questions entries context
unfolding pending_in pending_questions
pending_in-pending_questions none context = scanned_in-scanned context
pending_in-pending_questions (some entries) context =
    ap (λ pending. scanned_in pending context) (listed-entries_with_id entries)
    ∙ scanned_in-or_scanned (entries_with_id entries) context

pub answer_error-reply_error : (sent : Fetched) → answer_error sent ≡ reply_error sent
answer_error-reply_error (fetched status text) = refl
answer_error-reply_error (unreachable message) = refl

pub result_of-outcome_of :
    (with_reason : Bool) (id : String) (ended : Waited)
    → result_of with_reason id ended ≡ outcome_of with_reason id ended
result_of-outcome_of b id waiting = refl
result_of-outcome_of b id aborted = refl
result_of-outcome_of b id suspended = refl
result_of-outcome_of b id timed_out = refl
result_of-outcome_of true id (asked question none) = refl
result_of-outcome_of true id (asked question (some reason)) = refl
result_of-outcome_of false id (asked question none) = refl
result_of-outcome_of false id (asked question (some reason)) = refl
result_of-outcome_of b id (replied reply heard) = elim (Bool-cases (reply.reasoning == "")) [
  | inl quiet ↦ ground (arith, quiet)
  | inr spoken ↦ ground (arith, spoken)
]
result_of-outcome_of b id (broke message) = refl
