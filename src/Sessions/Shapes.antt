-- ===== src/Sessions/Shapes.antt =====
-- src/services/session-service.ts: what each operation writes to the table of sessions.
use opencode_master.Base.{
  ℕ, String, some, ◌≡◌, inl, inr, ◌⊎◌, arith, update, has_key, Option-cases, Bool-cases,
}
use opencode_master.Types.{SessionRow, WorkerRow}
use opencode_master.Config.{Config}
use opencode_master.Database.{Database}
use opencode_master.Assignment.{place}
use opencode_master.Sessions.{session_id, get_row, owner_of, worker_for_prompt, reassigned, is_well}
use opencode_master.Sessions.Lifecycle.{session-key}

-- `workerForPrompt` leaves the table, or moves the one session that it was called for.
pub worker_for_prompt_shape :
    (db : Database) (cfg : Config) (id : String) (now : ℕ)
    → ((worker_for_prompt db cfg id now).0.sessions ≡ db.sessions)
      ⊎ ((w : WorkerRow) × (session : SessionRow) × (get_row db session.id ≡ some session)
          × ((worker_for_prompt db cfg id now).0.sessions
              ≡ update (has_key session_id session.id) (reassigned w session now) db.sessions))
unfolding worker_for_prompt get_row
worker_for_prompt_shape db cfg id now = elim (Option-cases (get_row db id)) [
  | inl gone ↦ inl (ground arith)
  | inr (session, found) ↦ elim (Bool-cases (is_well (owner_of db session.owner_worker_id))) [
    | inl well ↦ inl (ground arith)
    | inr ill ↦
        elim (Option-cases (place db.registry cfg session.user_id session.owner_worker_id)) [
          | inl nobody ↦ inl (ground arith)
          | inr (w, chosen) ↦
              let key = session-key id db.sessions session found in
              inr (w, session, ground (arith, key), ground arith)
        ]
  ]
]
