-- ===== src/Worker/Reporter.antt =====
-- src/worker/event-reporter.ts: the report of an event to the master, with its retries. The answers of
-- the master are an argument, by the number of the attempt; the pauses between attempts are left out.
pub mod Attempts
use Prim.Native.Nat.{ℕ, zero, suc}
use opencode_master.Base.{
  String, Option, none, some, Bool, false, [], ◌∷◌, template, decimal, if◌then◌else◌, or_else,
  is_success,
}

-- The message of an error, or a status.
pub data Answer : Type 0 where
  unreachable : String → Answer
  answered : ℕ → Answer

-- How a report ends: after a number of attempts, or with the message of its error.
pub data Reported : Type 0 where
  reported : ℕ → Reported
  gave_up : String → Reported

abbrev pub is_taken : Answer → Bool
is_taken (unreachable _) = false
is_taken (answered status) = is_success status

abbrev error_text : Answer → String
error_text (unreachable message) = message
error_text (answered status) = template ("master event ingest returned " ∷ decimal status ∷ [])

-- The loop, with the attempts that are left, the number of the next, and the last error.
unfoldable pub attempt_from : (ℕ → Answer) → ℕ → ℕ → Option String → Reported
attempt_from answers zero attempt last = gave_up (or_else last "master event ingest failed")
attempt_from answers (suc left) attempt last =
    let rest = attempt_from answers left (suc attempt) (some (error_text (answers attempt))) in
    if is_taken (answers attempt) then reported (suc attempt) else rest

unfoldable pub report : ℕ → (ℕ → Answer) → Reported
report retry_count answers = attempt_from answers retry_count 0 none
