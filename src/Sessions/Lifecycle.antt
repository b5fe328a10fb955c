-- ===== src/Sessions/Lifecycle.antt =====
-- src/services/session-service.ts: what creating, prompting, renaming and ending leave of a session.
use opencode_master.Base.{
  ℕ, String, Option, none, some, true, false, List, [], ◌∷◌, find?, has_key, ◌≡◌, refl, inl, inr,
  ◌⊎◌, arith, find?-update, Option-cases, Bool-cases, ◌++◌,
}
use opencode_master.Types.{
  SessionRow, SessionStatus, WorkerRow, WorkerStatus, returns, throws, Error, session_not_found,
  no_worker_available, quota_exceeded,
}
use opencode_master.Config.{Config}
use opencode_master.Database.{Database}
use opencode_master.Registry
use opencode_master.Registry.{worker_id, Registry, is_ok}
use opencode_master.Assignment.{place}
use opencode_master.Assignment.Laws.{place_lem}
use opencode_master.Workspaces.{get_or_create, WorkspaceInput}
use opencode_master.Sessions
use opencode_master.Sessions.{
  session_id, get_row, CreateInput, Fresh, create, over_quota, new_session, owner_of,
  worker_for_prompt, prompt_owner, reassigned, is_well, internal,
}

find?-key :
    (k : String) (xs : List WorkerRow) (w : WorkerRow)
    → find? (has_key worker_id k) xs ≡ some w
    → w.id ≡ k
find?-key k [] w e = cc
find?-key k (x ∷ xs) w e = ground (arith, find?-key k xs w)

pub session-key :
    (k : String) (xs : List SessionRow) (s : SessionRow)
    → find? (has_key session_id k) xs ≡ some s
    → s.id ≡ k
session-key k [] s e = cc
session-key k (x ∷ xs) s e = ground (arith, session-key k xs s)

get_or_create-sessions :
    (db : Database) (input : WorkspaceInput) (id : String) (now : ℕ)
    → (get_or_create db input id now).0.sessions ≡ db.sessions
unfolding get_or_create
get_or_create-sessions db input id now = ground arith

place-ok :
    (r : Registry) (cfg : Config) (user_id : String) (excluded : Option String) (w : WorkerRow)
    → place r cfg user_id excluded ≡ some w
    → w.status ≡ WorkerStatus.ok
place-ok r cfg user_id excluded w e = ground (arith, place_lem r cfg user_id excluded)

module _ (db : Database) (cfg : Config) (input : CreateInput) (fresh : Fresh) where
  abbrev workspace : WorkspaceInput
  workspace = record {
    user_id = input.user_id;
    tenant_id = input.tenant_id;
    path = input.directory;
  }

  -- Creating a session throws, and then changes no session, where the user has no quota left, no
  -- worker is to be had, or the id is taken; else it adds one assigned session, which belongs to the
  -- user, is owned by the returned worker at lease epoch 1, and puts this one at the end of the table.
  pub create_lem :
      ((e : Error) × ((create db cfg input fresh).1 ≡ throws e)
        × ((create db cfg input fresh).0.sessions ≡ db.sessions))
      ⊎ ((s : SessionRow) × (w : WorkerRow) × ((create db cfg input fresh).1 ≡ returns (s, w))
          × (over_quota db cfg input.user_id ≡ false)
          × (w.status ≡ WorkerStatus.ok)
          × (s.user_id ≡ input.user_id)
          × (s.status ≡ SessionStatus.assigned)
          × (s.owner_worker_id ≡ some w.id)
          × (s.lease_epoch ≡ 1)
          × (get_row db s.id ≡ none)
          × ((create db cfg input fresh).0.sessions ≡ db.sessions ++ s ∷ []))
  unfolding create get_row
  create_lem = elim (Bool-cases (over_quota db cfg input.user_id)) [
    | inl full ↦
        inl (quota_exceeded input.user_id cfg.max_sessions_per_user, ground arith, ground arith)
    | inr room ↦ elim (Option-cases (place db.registry cfg input.user_id none)) [
      | inl nobody ↦ inl (no_worker_available, ground arith, ground arith)
      | inr (w, found) ↦
          let same = get_or_create-sessions db workspace fresh.workspace_id fresh.workspace_now in
          let row =
            new_session input fresh
              (get_or_create db workspace fresh.workspace_id fresh.workspace_now).1 w in
          elim (Option-cases (get_row db fresh.id)) [
            | inr (s, taken) ↦ inl (
              internal "UNIQUE constraint failed: sessions.id",
              ground (arith, same),
              ground (arith, same),
            )
            | inl free ↦ inr (
              row,
              w,
              ground (arith, same),
              room,
              place-ok db.registry cfg input.user_id none w found,
              refl,
              refl,
              refl,
              refl,
              free,
              ground (arith, same),
            )
          ]
    ]
  ]

owner_well :
    (db : Database) (owner : Option String)
    → is_well (owner_of db owner) ≡ true
    → (w : WorkerRow) × (owner_of db owner ≡ some w)
      × (w.status ≡ WorkerStatus.ok)
      × (owner ≡ some w.id)
unfolding owner_of Registry.get
owner_well db none h = cc
owner_well db (some id) h = elim (Option-cases (owner_of db (some id))) [
  | inl gone ↦ absurd (ground arith)
  | inr (w, found) ↦ (w, found, ground arith, ground (arith, find?-key id db.registry.workers w))
]

module _ (db : Database) (cfg : Config) (id : String) (now : ℕ) where
  -- A prompt is sent to a worker that is `ok` and that owns the session from then on; where there is
  -- no such session or no such worker, an error is thrown and nothing changes. No other session is
  -- touched.
  worker_for_prompt_lem :
      (k : String)
      → ((e : Error) × (worker_for_prompt db cfg id now ≡ (db, throws e)))
        ⊎ ((w : WorkerRow) × (s : SessionRow) × ((worker_for_prompt db cfg id now).1 ≡ returns w)
            × (w.status ≡ WorkerStatus.ok)
            × (get_row (worker_for_prompt db cfg id now).0 id ≡ some s)
            × (s.owner_worker_id ≡ some w.id)
            × ((id ≡ k → ⊥) → get_row (worker_for_prompt db cfg id now).0 k ≡ get_row db k))
  unfolding worker_for_prompt get_row
  worker_for_prompt_lem k = elim (Option-cases (get_row db id)) [
    | inl gone ↦ inl (session_not_found id, ground arith)
    | inr (session, found) ↦ elim (Bool-cases (is_well (owner_of db session.owner_worker_id))) [
      | inl well ↦
          let (w, owner, ok, same) = owner_well db session.owner_worker_id well in
          inr (w, session, ground arith, ok, ground arith, same, λ other. ground arith)
      | inr ill ↦
          elim (Option-cases (place db.registry cfg session.user_id session.owner_worker_id)) [
            | inl nobody ↦ inl (no_worker_available, ground arith)
            | inr (w, chosen) ↦
                let write = reassigned w session now in
                let key = session-key id db.sessions session found in
                inr (
                  w,
                  write session,
                  ground arith,
                  place-ok db.registry cfg session.user_id session.owner_worker_id w chosen,
                  ground (
                    arith,
                    key,
                    find?-update session_id session.id id write (λ x. refl) db.sessions,
                  ),
                  refl,
                  λ other. ground (
                    arith,
                    key,
                    find?-update session_id session.id k write (λ x. refl) db.sessions,
                  ),
                )
          ]
    ]
  ]

-- A session with a worker whose status is `ok` keeps it for a prompt, and nothing changes.
pub worker-stays :
    (db : Database) (cfg : Config) (id : String) (now : ℕ) (row : SessionRow) (worker : WorkerRow)
    → Sessions.get db id ≡ some (row, some worker)
    → is_ok worker.status ≡ true
    → worker_for_prompt db cfg id now ≡ (db, returns worker)
unfolding worker_for_prompt Sessions.get prompt_owner
worker-stays db cfg id now row worker found ok = elim (Option-cases (get_row db id)) [
  | inl missing ↦ ground (arith, missing, found)
  | inr (other, there) ↦ elim (Option-cases (owner_of db other.owner_worker_id)) [
    | inl alone ↦ ground (arith, there, alone, found)
    | inr (owner, owned) ↦ ground (arith, there, owned, found, ok)
  ]
]
