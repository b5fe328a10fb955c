-- ===== src/Placement/Load.antt =====
-- src/placement/load.ts: the load score and the choice of the least loaded item. A term of the
-- source's score is a percentage over 100, or a count over 8 or 16, capped at 1 and weighted; the
-- score here is that sum times 8000, which makes each term a whole number.
pub mod Least
use opencode_master.Base.{ℕ, ◌+◌, ◌*◌, min, ltb, Option, none, some, List, [], ◌∷◌, if◌then◌else◌}
use opencode_master.Types.{WorkerLoad}

-- `Math.min(x / cap, 1)` in units of `1 / cap`.
unfoldable pub capped : ℕ → ℕ → ℕ
capped x cap = min x cap

unfoldable pub score_load : WorkerLoad → ℕ
score_load load =
    32 * capped load.cpu_pct 100
    + 12 * capped load.mem_pct 100
    + 300 * capped load.active_drains 8
    + 100 * capped (load.pending_steer + load.pending_queue) 8
    + 25 * capped load.tool_processes 16

-- The loop over the items after the first, with the best item so far and its score.
module _ {A : Type 0} (load : A → WorkerLoad) where
  pick_from : A → ℕ → List A → A
  pick_from best best_score [] = best
  pick_from best best_score (item ∷ items) =
      let score = score_load (load item) in
      let taken = pick_from item score items in
      let kept = pick_from best best_score items in if ltb score best_score then taken else kept

  unfoldable pub pick_least_loaded : List A → Option A
  unfolding pick_from
  pick_least_loaded [] = none
  pick_least_loaded (item ∷ items) = some (pick_from item (score_load (load item)) items)
