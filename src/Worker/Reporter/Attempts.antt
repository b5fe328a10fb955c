-- ===== src/Worker/Reporter/Attempts.antt =====
-- src/worker/event-reporter.ts: how often an event is sent.
use Prim.Native.Nat.{ℕ, zero, suc}
use opencode_master.Base.{
  refl, subst, String, Option, none, some, true, false, ◌≡◌, ◌+◌, ◌<◌, arith, or_else,
}
use opencode_master.Worker.Reporter.{
  Answer, reported, gave_up, is_taken, error_text, attempt_from, report,
}

module _ (answers : ℕ → Answer) where
  attempt_from-taken :
      (j left attempt : ℕ) (last : Option String)
      → j < left
      → is_taken (answers (attempt + j)) ≡ true
      → ((i : ℕ) → i < j → is_taken (answers (attempt + i)) ≡ false)
      → attempt_from answers left attempt last ≡ reported (suc (attempt + j))
  unfolding attempt_from
  attempt_from-taken j zero attempt last less taken before = absurd (omega arith)
  attempt_from-taken zero (suc left) attempt last less taken before =
      let now : is_taken (answers attempt) ≡ true =
        subst (λ n. is_taken (answers n) ≡ true) (omega arith) taken in
      ground (arith, now)
  attempt_from-taken (suc j) (suc left) attempt last less taken before =
      let failed : is_taken (answers attempt) ≡ false =
        subst (λ n. is_taken (answers n) ≡ false) (omega arith) (before 0 (omega arith)) in
      let rest =
        attempt_from-taken j left (suc attempt) (some (error_text (answers attempt))) (omega arith)
          (subst (λ n. is_taken (answers n) ≡ true) (omega arith) taken)
          (λ i h.
            subst (λ n. is_taken (answers n) ≡ false) (omega arith)
              (before (suc i) (omega arith))) in
      ground (arith, failed, rest)

  attempt_from-refused :
      (left attempt : ℕ) (last : Option String)
      → ((i : ℕ) → i < left → is_taken (answers (attempt + i)) ≡ false)
      → (message : String) × (attempt_from answers left attempt last ≡ gave_up message)
  unfolding attempt_from
  attempt_from-refused zero attempt last refused = (or_else last "master event ingest failed", refl)
  attempt_from-refused (suc left) attempt last refused =
      let failed : is_taken (answers attempt) ≡ false =
        subst (λ n. is_taken (answers n) ≡ false) (omega arith) (refused 0 (omega arith)) in
      let (message, rest) =
        attempt_from-refused left (suc attempt) (some (error_text (answers attempt))) (λ i h.
          subst (λ n. is_taken (answers n) ≡ false) (omega arith)
            (refused (suc i) (omega arith))) in
      (message, ground (arith, failed, rest))

  -- A report ends with the first attempt that the master takes, where it is within the number of
  -- attempts, and nothing is sent after it.
  pub report-taken :
      (retry_count j : ℕ)
      → j < retry_count
      → is_taken (answers j) ≡ true
      → ((i : ℕ) → i < j → is_taken (answers i) ≡ false)
      → report retry_count answers ≡ reported (suc j)
  unfolding report
  report-taken retry_count j less taken before =
      subst (λ n. report retry_count answers ≡ reported (suc n)) (omega arith)
        (attempt_from-taken j retry_count 0 none less
          (subst (λ n. is_taken (answers n) ≡ true) (omega arith) taken)
          (λ i h. subst (λ n. is_taken (answers n) ≡ false) (omega arith) (before i h)))

  -- A report ends with an error if the master takes none of its attempts.
  report-refused :
      (retry_count : ℕ)
      → ((i : ℕ) → i < retry_count → is_taken (answers i) ≡ false)
      → (message : String) × (report retry_count answers ≡ gave_up message)
  unfolding report
  report-refused retry_count refused =
      attempt_from-refused retry_count 0 none
        (λ i h. subst (λ n. is_taken (answers n) ≡ false) (omega arith) (refused i h))
