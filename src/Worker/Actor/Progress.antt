-- ===== src/Worker/Actor/Progress.antt =====
-- src/worker/session-actor.ts: the first task of a session that has not ended runs.
use opencode_master.Base.{ℕ, false, ◌≡◌, eqb}
use opencode_master.Worker.Actor.{Actor, Chain, resolved, chained}

abbrev IsNew : ℕ → Chain → Type 0
IsNew n resolved = Unit
IsNew n (chained previous task settled) = (eqb task.number n ≡ false) × IsNew n previous

-- No two tasks of a chain have the same number.
abbrev pub HasOwnNumbers : Chain → Type 0
HasOwnNumbers resolved = Unit
HasOwnNumbers (chained previous task settled) = IsNew task.number previous × HasOwnNumbers previous
