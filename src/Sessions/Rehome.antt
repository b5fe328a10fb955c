-- ===== src/Sessions/Rehome.antt =====
-- src/services/session-service.ts: sessions move away from a lost worker, all of them and at once.
use opencode_master.Base.{
  ℕ, String, none, some, true, false, List, [], ◌∷◌, map, select, ◌≡◌, refl, arith, All,
  update_each-select, HasUniqueKeys, if◌then◌else◌, map_some,
}
use opencode_master.Types.{SessionRow}
use opencode_master.Config.{Config}
use opencode_master.Database.{Database}
use opencode_master.Registry.{Registry, worker_id}
use opencode_master.Assignment.{place}
use opencode_master.Assignment.Laws.{place_lem}
use opencode_master.Sessions.{
  session_id, is_owned_by, is_text, rehomed, rehome_worker_sessions, is_ended,
}

abbrev pub IsKeyed : Database → Type 0
IsKeyed db = HasUniqueKeys session_id db.sessions

-- An ended session has no owner.
abbrev pub IsReleased : SessionRow → Type 0
IsReleased s = is_ended s.status ≡ true → s.owner_worker_id ≡ none

-- What the rehoming of a lost worker's sessions makes of a row.
abbrev pub moved : Registry → Config → String → ℕ → SessionRow → SessionRow
moved r cfg lost now row = if is_owned_by lost row then rehomed r cfg lost now row row else row

-- Where session ids are unique, the rehoming of a worker gives each of its sessions that has not
-- ended the next lease epoch, the status `recovering`, and the owner that `place` finds for its user
-- without the lost worker, or none; it changes no other session, and returns the ids of the moved
-- ones in the table's order.
pub rehome_worker_sessions_lem :
    (db : Database) (cfg : Config) (lost : String) (now : ℕ)
    → IsKeyed db
    → ((rehome_worker_sessions db cfg lost now).0.sessions
        ≡ map (moved db.registry cfg lost now) db.sessions)
      × ((rehome_worker_sessions db cfg lost now).1
          ≡ map session_id (select (is_owned_by lost) db.sessions))
unfolding rehome_worker_sessions
rehome_worker_sessions_lem db cfg lost now u = (
  update_each-select session_id (rehomed db.registry cfg lost now) (λ row x. refl)
      (is_owned_by lost) db.sessions u,
  refl,
)

-- `place` never returns the excluded worker.
place-ne-excluded :
    (r : Registry) (cfg : Config) (user_id lost : String)
    → is_text (map_some worker_id (place r cfg user_id (some lost))) lost ≡ false
place-ne-excluded r cfg user_id lost = ground (arith, place_lem r cfg user_id (some lost))

All-moved :
    (r : Registry) (cfg : Config) (lost : String) (now : ℕ) (xs : List SessionRow)
    → All IsReleased xs
    → All (λ s. is_text s.owner_worker_id lost ≡ false) (map (moved r cfg lost now) xs)
All-moved r cfg lost now [] _ = tt
All-moved r cfg lost now (x ∷ xs) (p, a) =
    (ground (arith, p, place-ne-excluded r cfg x.user_id lost), All-moved r cfg lost now xs a)

-- After the rehoming no session at all is owned by the lost worker. Session ids are unique before it,
-- and ended sessions have no owner.
pub rehome_worker_sessions_releases :
    (db : Database) (cfg : Config) (lost : String) (now : ℕ)
    → IsKeyed db
    → All IsReleased db.sessions
    → All
        (λ s. is_text s.owner_worker_id lost ≡ false)
        (rehome_worker_sessions db cfg lost now).0.sessions
rehome_worker_sessions_releases db cfg lost now u a =
    rw ((rehome_worker_sessions_lem db cfg lost now u).0)
      (All-moved db.registry cfg lost now db.sessions a)
