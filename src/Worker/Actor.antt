-- ===== src/Worker/Actor.antt =====
-- src/worker/session-actor.ts: the work of each session in one queue, a chain of promises. A task
-- is named by a number.
pub mod Order
pub mod Progress
use opencode_master.Base.{
  ℕ, String, Option, none, some, Bool, true, false, List, [], ◌∷◌, ◌+◌, ◌-◌, ◌==◌, ltb, eqb,
  if◌then◌else◌, or_else, get_entry, set_entry, delete_entry,
}

-- An observation has the generation at which it was asked for.
pub record Task : Type 0 where
  pub session_id : String
  pub number : ℕ
  pub generation : Option ℕ

-- A promise of `tails`: resolved from the start, or settled with a task that is run once the promise
-- before it is settled. The Boolean says whether the task has ended.
pub data Chain : Type 0 where
  resolved : Chain
  chained : Chain → Task → Bool → Chain

pub record Actor : Type 0 where
  pub tails : List (String × Chain)
  pub active : List (String × ℕ)
  pub generations : List (String × ℕ)

unfoldable pub generation_of : Actor → String → ℕ
generation_of actor session_id = or_else (get_entry actor.generations session_id) 0

unfoldable pub begin_resume : Actor → String → Actor
begin_resume actor session_id = record actor {
  generations =
      set_entry actor.generations session_id
        (or_else (get_entry actor.generations session_id) 0 + 1);
}

unfoldable pub is_busy : Actor → String → Bool
is_busy actor session_id = ltb 0 (or_else (get_entry actor.active session_id) 0)

abbrev pub tail : Actor → String → Chain
tail actor session_id = or_else (get_entry actor.tails session_id) resolved

unfoldable pub enqueue : Actor → Task → Actor
enqueue actor task = record actor {
  tails = set_entry actor.tails task.session_id (chained (tail actor task.session_id) task false);
  active =
      set_entry actor.active task.session_id
        (or_else (get_entry actor.active task.session_id) 0 + 1);
}

abbrev pub is_of : String → Task → Bool
is_of session_id task = task.session_id == session_id

abbrev pub is_settled : Chain → Bool
is_settled resolved = true
is_settled (chained previous task settled) = settled

-- A task can end only if it runs: the promise before it is settled, and it has not ended yet.
abbrev pub settle_here : Chain → Task → Bool → Bool → Chain × Option Task
settle_here previous task true runs = (chained previous task true, none)
settle_here previous task false false = (chained previous task false, none)
settle_here previous task false true = (chained previous task true, some task)

abbrev pub settle_at : Bool → Chain → Task → Bool → Chain × Option Task → Chain × Option Task
settle_at true previous task settled within =
    settle_here previous task settled (is_settled previous)
settle_at false previous task settled (before, ended) = (chained before task settled, ended)

-- The task of a number ends, wherever it stands in the chain, if it runs.
unfoldable pub settle_in : ℕ → Chain → Chain × Option Task
settle_in n resolved = (resolved, none)
settle_in n (chained previous task settled) =
    settle_at (eqb task.number n) previous task settled (settle_in n previous)

abbrev counted_down : List (String × ℕ) → String → ℕ → List (String × ℕ)
counted_down active session_id remaining =
    if ltb 0 remaining
    then set_entry active session_id remaining
    else delete_entry active session_id

-- What a task's promise gives: an observation that a later resume has overtaken is dropped.
unfoldable pub is_published : Actor → Task → Bool
is_published actor task = elim task.generation [
  | none ↦ true
  | some asked ↦ eqb (or_else (get_entry actor.generations task.session_id) 0) asked
]

-- A settled task, and whether its value is published.
pub record Settled : Type 0 where
  pub task : Task
  pub published : Bool

abbrev pub settle_found : Actor → String → Chain × Option Task → Actor × List Settled
settle_found actor session_id (chain, none) = (actor, [])
settle_found actor session_id (chain, some task) = (
  record actor {
    tails = set_entry actor.tails session_id chain;
    active =
        counted_down actor.active session_id (or_else (get_entry actor.active session_id) 1 - 1);
  },
  record { task = task; published = is_published actor task } ∷ [],
)

-- A task of the session ends, with a value or an error.
unfoldable pub settle_task : Actor → String → ℕ → Actor × List Settled
settle_task actor session_id n = settle_found actor session_id (settle_in n (tail actor session_id))
