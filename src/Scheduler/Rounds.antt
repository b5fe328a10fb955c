-- ===== src/Scheduler/Rounds.antt =====
-- src/services/scheduler.ts: what one round of the scheduler does to the sessions.
use opencode_master.Base.{
  ℕ, String, none, some, true, false, not, List, [], ◌∷◌, ◌≡◌, refl, arith, All, contains, map,
  if◌then◌else◌, ◌&&◌, inl, sym, inr, ◌∙◌, ap, subst, Option-cases, find?, has_key,
}
use opencode_master.Types.{SessionRow}
use opencode_master.Config.{Config}
use opencode_master.Database.{Database}
use opencode_master.Registry.{Registry, sweep}
use opencode_master.Registry.Keys.{IsKeyed}
use opencode_master.Sessions.{
  is_text, is_ended, rehomed, rehome_worker_sessions, get_row, session_id,
}
use opencode_master.Sessions.Rehome.{rehome_worker_sessions_lem, moved, IsReleased}
use opencode_master.Sessions.Epochs.{Step-IsSound, rehomes, IsSound}
use opencode_master.Turns.{is_current_lease}
use opencode_master.Turns.Fencing.{find?-All}
use opencode_master.Scheduler.{run_once, rehome_all}
use opencode_master.Scheduler.Down.{AreDown, place-AreDown, sweep-AreDown}

-- What a round that found the workers `ids` lost makes of a session.
abbrev pub settled : Registry → Config → List String → ℕ → SessionRow → SessionRow
settled r cfg ids now row = elim row.owner_worker_id [
  | none ↦ row
  | some id ↦
      if contains ids id && not (is_ended row.status) then rehomed r cfg id now row row else row
]

settled-moved :
    (r : Registry) (cfg : Config) (id : String) (ids : List String) (now : ℕ) (row : SessionRow)
    → AreDown (id ∷ ids) r
    → settled r cfg ids now (moved r cfg id now row) ≡ settled r cfg (id ∷ ids) now row
settled-moved r cfg id ids now row (down, rest) =
    ground (arith, place-AreDown r cfg row.user_id (some id) ids rest)

map-settled :
    (r : Registry) (cfg : Config) (id : String) (ids : List String) (now : ℕ)
    (rows : List SessionRow)
    → AreDown (id ∷ ids) r
    → map (settled r cfg ids now) (map (moved r cfg id now) rows)
      ≡ map (settled r cfg (id ∷ ids) now) rows
map-settled r cfg id ids now [] down = refl
map-settled r cfg id ids now (row ∷ rows) down =
    ground (arith, settled-moved r cfg id ids now row down, map-settled r cfg id ids now rows down)

map-settled-none :
    (r : Registry) (cfg : Config) (now : ℕ) (rows : List SessionRow)
    → map (settled r cfg [] now) rows ≡ rows
map-settled-none r cfg now [] = refl
map-settled-none r cfg now (row ∷ rows) = ground (arith, map-settled-none r cfg now rows)

rehome_all-settled :
    (db : Database) (cfg : Config) (ids : List String) (now : ℕ)
    → IsSound db
    → AreDown ids db.registry
    → (rehome_all db cfg ids now).0.sessions ≡ map (settled db.registry cfg ids now) db.sessions
unfolding rehome_all rehome_worker_sessions
rehome_all-settled db cfg [] now v down = sym (map-settled-none db.registry cfg now db.sessions)
rehome_all-settled db cfg (id ∷ ids) now v (here, rest) =
    let mid = (rehome_worker_sessions db cfg id now).0 in
    rehome_all-settled mid cfg ids now (Step-IsSound v (rehomes cfg id now)) rest
    ∙ ap (map (settled db.registry cfg ids now))
        ((rehome_worker_sessions_lem db cfg id now v.keyed).0)
    ∙ map-settled db.registry cfg id ids now db.sessions (here, rest)

-- One round moves each session at most once: where session and worker ids are unique and no ended
-- session has an owner, the round gives the sessions that have not ended and whose owner was lost
-- the next lease epoch and the worker that `place` finds after the sweep, and leaves all others.
run_once-settled :
    (db : Database) (cfg : Config) (now later : ℕ)
    → IsSound db
    → IsKeyed db.registry
    → let (registry, lost) = sweep db.registry cfg.heartbeat_timeout_ms now in
      ((run_once true db cfg now later).1.unhealthy_workers ≡ lost)
      × ((run_once true db cfg now later).0.sessions
          ≡ map (settled registry cfg lost later) db.sessions)
unfolding run_once
run_once-settled db cfg now later v u = (
  refl,
  rehome_all-settled (record db { registry = (sweep db.registry cfg.heartbeat_timeout_ms now).0 })
      cfg (sweep db.registry cfg.heartbeat_timeout_ms now).1 later
      (record { keyed = v.keyed; released = v.released })
      (sweep-AreDown db.registry cfg.heartbeat_timeout_ms now u),
)

settled-ne-lost :
    (r : Registry) (cfg : Config) (ids : List String) (now : ℕ) (id : String) (row : SessionRow)
    → AreDown ids r
    → IsReleased row
    → contains ids id ≡ true
    → is_text (settled r cfg ids now row).owner_worker_id id ≡ false
settled-ne-lost r cfg ids now id row down released h = elim (Option-cases row.owner_worker_id) [
  | inl unowned ↦ ground arith
  | inr (owner, e) ↦ ground (arith, released, place-AreDown r cfg row.user_id (some owner) ids down)
]

All-settled :
    (r : Registry) (cfg : Config) (ids : List String) (now : ℕ) (id : String)
    (rows : List SessionRow)
    → AreDown ids r
    → All IsReleased rows
    → contains ids id ≡ true
    → All (λ s. is_text s.owner_worker_id id ≡ false) (map (settled r cfg ids now) rows)
All-settled r cfg ids now id [] down _ h = tt
All-settled r cfg ids now id (row ∷ rows) down (x, a) h =
    (settled-ne-lost r cfg ids now id row down x h, All-settled r cfg ids now id rows down a h)

-- After a round, no worker that it found lost has a current lease of any session, at any epoch.
-- Session and worker ids are unique before the round, and no ended session has an owner.
pub run_once_fences :
    (db : Database) (cfg : Config) (now later : ℕ) (id k : String) (epoch : ℕ)
    → IsSound db
    → IsKeyed db.registry
    → contains (run_once true db cfg now later).1.unhealthy_workers id ≡ true
    → is_current_lease (run_once true db cfg now later).0 k id epoch ≡ false
unfolding is_current_lease get_row
run_once_fences db cfg now later id k epoch v u h =
    let (ids, rows) = run_once-settled db cfg now later v u in
    let (registry, lost) = sweep db.registry cfg.heartbeat_timeout_ms now in
    let after = (run_once true db cfg now later).0 in
    elim (Option-cases (find? (has_key session_id k) after.sessions)) [
      | inl missing ↦ ground arith
      | inr (row, found) ↦
          let gone =
            find?-All k id after.sessions row
              (subst (λ s. All (λ s. is_text s.owner_worker_id id ≡ false) s) (sym rows)
                (All-settled registry cfg lost later id db.sessions
                  (sweep-AreDown db.registry cfg.heartbeat_timeout_ms now u) v.released
                  (subst (λ l. contains l id ≡ true) ids h)))
              found in
          ground arith
    ]
