-- ===== src/Turns/Fencing.antt =====
-- src/services/turn-service.ts and src/services/session-service.ts: which lease of a session is
-- current, over any history of the directory.
use opencode_master.Config.{Config}
use opencode_master.Base.{
  ℕ, String, some, none, true, false, ◌≡◌, arith, ◌<◌, Option-cases, inl, inr, List, [], All, find?,
  has_key, ◌∷◌, refl, ◌&&◌, text_dec,
}
use opencode_master.Database.{Database}
use opencode_master.Types.{SessionRow}
use opencode_master.Sessions.{get_row, rehome_worker_sessions, is_text, session_id}
use opencode_master.Sessions.Epochs.{IsSound, Reach, Reach-Survives}
use opencode_master.Turns.{
  is_current_lease, create_or_get, is_active_of, is_keyed_of, key_of, TurnInput, TurnFresh,
  insert_turn, TurnRow, throws, active_turn,
}
use opencode_master.Turns.Leases.{holds, row_of}
use opencode_master.Sessions.Rehome.{rehome_worker_sessions_releases}

-- What a current lease is.
current-row :
    (db : Database) (k worker_id : String) (epoch : ℕ)
    → is_current_lease db k worker_id epoch ≡ true
    → (row : SessionRow) × (get_row db k ≡ some row)
      × (row.owner_worker_id ≡ some worker_id)
      × (row.lease_epoch ≡ epoch)
unfolding is_current_lease
current-row db k worker_id epoch h = elim (Option-cases (get_row db k)) [
  | inl missing ↦ ground arith
  | inr (row, found) ↦ (row, found, ground arith, ground arith)
]

-- Of a session at one lease epoch, only one worker ever has the current lease: where two workers have
-- it at two points of one history, at the same epoch, they are the same worker. The history starts
-- with unique session ids and no owner on an ended session.
pub current_lease_unique :
    {db after : Database} (k first second : String) (epoch : ℕ)
    → IsSound db
    → Reach db after
    → is_current_lease db k first epoch ≡ true
    → is_current_lease after k second epoch ≡ true
    → first ≡ second
current_lease_unique {db} {after} k first second epoch v r h h' =
    let (row, found, owner, at) = current-row db k first epoch h in
    let (row', found', owner', at') = current-row after k second epoch h' in
    let (later, still, supersedes) = Reach-Survives k row v r found in ground arith

-- A lease that a session has grown out of never comes back: once the session's lease epoch is above
-- the lease's, it is not current at any later point, for any worker. The history starts with unique
-- session ids and no owner on an ended session.
pub fenced_forever :
    {db after : Database} (k worker_id : String) (epoch : ℕ) (row : SessionRow)
    → IsSound db
    → Reach db after
    → get_row db k ≡ some row
    → epoch < row.lease_epoch
    → is_current_lease after k worker_id epoch ≡ false
unfolding is_current_lease
fenced_forever {db} {after} k worker_id epoch row v r found above =
    let (later, still, supersedes) = Reach-Survives k row v r found in ground arith

pub find?-All :
    (k lost : String) (xs : List SessionRow) (row : SessionRow)
    → All (λ s. is_text s.owner_worker_id lost ≡ false) xs
    → find? (has_key session_id k) xs ≡ some row
    → is_text row.owner_worker_id lost ≡ false
find?-All k lost [] row a e = cc
find?-All k lost (x ∷ xs) row (n, a) e = ground (arith, find?-All k lost xs row a)

-- Once the sessions of a lost worker are rehomed, it has no current lease of any session, at any
-- epoch, where session ids were unique and no ended session had an owner.
pub rehome_fences :
    (db : Database) (cfg : Config) (lost : String) (now : ℕ) (k : String) (epoch : ℕ)
    → IsSound db
    → is_current_lease (rehome_worker_sessions db cfg lost now).0 k lost epoch ≡ false
unfolding is_current_lease get_row
rehome_fences db cfg lost now k epoch v =
    let after = (rehome_worker_sessions db cfg lost now).0 in
    elim (Option-cases (find? (has_key session_id k) after.sessions)) [
      | inl missing ↦ ground arith
      | inr (row, found) ↦
          let lost-it =
            find?-All k lost after.sessions row
              (rehome_worker_sessions_releases db cfg lost now v.keyed v.released) found in
          ground arith
    ]

rehome-turns :
    (db : Database) (cfg : Config) (lost : String) (now : ℕ)
    → (rehome_worker_sessions db cfg lost now).0.turns ≡ db.turns
unfolding rehome_worker_sessions
rehome-turns db cfg lost now = refl

-- Once the sessions of a lost worker are rehomed, a turn that is active and assigned to it is out of
-- every worker's reach: at no epoch has a worker both the current lease of the session, which a report
-- needs, and the turn, which the end of the turn needs; and each prompt to the session with a new key
-- is refused. Session ids were unique, and no ended session had an owner.
pub rehome_orphans :
    (db : Database) (cfg : Config) (lost : String) (now : ℕ) (turn : TurnRow) (input : TurnInput)
    (fresh : TurnFresh) (worker_id : String) (epoch : ℕ)
    → IsSound db
    → find? (is_active_of input.session_id) db.turns ≡ some turn
    → row_of db turn.id ≡ some turn
    → turn.assigned_worker_id ≡ lost
    → find? (is_keyed_of input.session_id (key_of input fresh)) db.turns ≡ none
    → let after = (rehome_worker_sessions db cfg lost now).0 in
      ((is_current_lease after input.session_id worker_id epoch
          && holds (row_of after turn.id) worker_id epoch)
        ≡ false)
      × (create_or_get after input fresh ≡ (after, throws (active_turn input.session_id)))
unfolding create_or_get row_of insert_turn
rehome_orphans db cfg lost now turn input fresh worker_id epoch v busy here owned new =
    let same = rehome-turns db cfg lost now in
    (
      elim (text_dec worker_id lost) [
        | yes it ↦ rw (it, rehome_fences db cfg lost now input.session_id epoch v)
        | no other ↦ ground (arith, same)
      ],
      ground (arith, same),
    )
