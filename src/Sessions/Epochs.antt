-- ===== src/Sessions/Epochs.antt =====
-- src/services/session-service.ts: lease epochs over any history of the directory of sessions.
use opencode_master.Base.{
  ℕ, String, none, some, Bool, List, [], ◌∷◌, map, find?, has_key, ◌≡◌, refl, arith, All, update,
  HasUniqueKeys, HasUniqueKeys-update, HasUniqueKeys-append, find?-update, find?-append,
  if◌then◌else◌, ◌<◌, map_some, inl, inr, ◌⊎◌, All-append, IsFresh, ◌==◌,
}
use opencode_master.Types.{SessionRow}
use opencode_master.Config.{Config}
use opencode_master.Database.{Database}
use opencode_master.Sessions.{
  session_id, get_row, CreateInput, Fresh, create, worker_for_prompt, rehome_worker_sessions,
  update_title, end_session, finished, reassigned,
}
use opencode_master.Sessions.Rehome.{IsKeyed, IsReleased, moved, rehome_worker_sessions_lem}
use opencode_master.Sessions.Lifecycle.{create_lem}
use opencode_master.Sessions.Shapes.{worker_for_prompt_shape}

-- A later row of a session: its epoch is higher, or it is the same and the owner is the same or gone.
abbrev pub Supersedes : SessionRow → SessionRow → Type 0
Supersedes later row =
    (row.lease_epoch < later.lease_epoch)
    ⊎ ((later.lease_epoch ≡ row.lease_epoch)
        × ((later.owner_worker_id ≡ row.owner_worker_id) ⊎ (later.owner_worker_id ≡ none)))

Supersedes-trans : (a b c : SessionRow) → Supersedes c b → Supersedes b a → Supersedes c a
Supersedes-trans a b c h k = ground arith

-- One operation on the directory, or a change elsewhere in the database.
pub data Step (db : Database) : Database → Type 0 where
  creates :
      (cfg : Config) (input : CreateInput) (fresh : Fresh) → Step db (create db cfg input fresh).0
  prompts : (cfg : Config) (id : String) (now : ℕ) → Step db (worker_for_prompt db cfg id now).0
  rehomes :
      (cfg : Config) (lost : String) (now : ℕ) → Step db (rehome_worker_sessions db cfg lost now).0
  retitles : (id title : String) (now : ℕ) → Step db (update_title db id title now)
  ends : (id : String) (now : ℕ) → Step db (end_session db id now)
  elsewhere : (after : Database) → after.sessions ≡ db.sessions → Step db after

pub data Reach (db : Database) : Database → Type 0 where
  here : Reach db db
  next : {mid after : Database} → Reach db mid → Step mid after → Reach db after

-- Session ids are unique, and ended sessions have no owner.
pub record IsSound (db : Database) : Type 0 where
  pub keyed : IsKeyed db
  pub released : All IsReleased db.sessions

-- What a step leaves of one row.
abbrev Survives : Database → Database → Type 0
Survives db after =
    (k : String) (row : SessionRow)
    → get_row db k ≡ some row
    → (later : SessionRow) × (get_row after k ≡ some later) × Supersedes later row

find?-map :
    (f : SessionRow → SessionRow) (k : String)
    (h : (x : SessionRow) → session_id (f x) ≡ session_id x) (xs : List SessionRow)
    → find? (has_key session_id k) (map f xs) ≡ map_some f (find? (has_key session_id k) xs)
find?-map f k h [] = refl
find?-map f k h (x ∷ xs) = ground (arith, h x, find?-map f k h xs)

create-Survives :
    (db : Database) (cfg : Config) (input : CreateInput) (fresh : Fresh)
    → Survives db (create db cfg input fresh).0
unfolding get_row
create-Survives db cfg input fresh k row e = elim (create_lem db cfg input fresh) [
  | inl (_, _, same) ↦ (row, rw same e, inr (refl, inl refl))
  | inr (s, _, _, _, _, _, _, _, _, _, grown) ↦ (
    row,
    rw grown (ground (arith, find?-append session_id k db.sessions s)),
    inr (refl, inl refl),
  )
]

prompt-Survives :
    (db : Database) (cfg : Config) (id : String) (now : ℕ)
    → Survives db (worker_for_prompt db cfg id now).0
unfolding get_row
prompt-Survives db cfg id now k row e = elim (worker_for_prompt_shape db cfg id now) [
  | inl same ↦ (row, rw same e, inr (refl, inl refl))
  | inr (w, session, found, written) ↦ (
    if session.id == k then reassigned w session now row else row,
    rw written (
        ground (
          arith,
          find?-update session_id session.id k (reassigned w session now) (λ x. refl) db.sessions,
        )),
    ground arith,
  )
]

rehome-Survives :
    (db : Database) (cfg : Config) (lost : String) (now : ℕ)
    → IsKeyed db
    → Survives db (rehome_worker_sessions db cfg lost now).0
unfolding get_row
rehome-Survives db cfg lost now u k row e = (
  moved db.registry cfg lost now row,
  rw ((rehome_worker_sessions_lem db cfg lost now u).0) (
      ground (arith, find?-map (moved db.registry cfg lost now) k (λ x. ground arith) db.sessions)),
  ground arith,
)

Step-Survives : {db after : Database} → IsSound db → Step db after → Survives db after
unfolding get_row update_title end_session
Step-Survives {db} v (creates cfg input fresh) k row e = create-Survives db cfg input fresh k row e
Step-Survives {db} v (prompts cfg id now) k row e = prompt-Survives db cfg id now k row e
Step-Survives {db} v (rehomes cfg lost now) k row e =
    rehome-Survives db cfg lost now v.keyed k row e
Step-Survives {db} v (retitles id title now) k row e =
    let write = λ (x : SessionRow). record x { title = title; updated_at = now } in
    (
      if id == k then write row else row,
      ground (arith, find?-update session_id id k write (λ x. refl) db.sessions),
      ground arith,
    )
Step-Survives {db} v (ends id now) k row e = (
  if id == k then finished now row else row,
  ground (arith, find?-update session_id id k (finished now) (λ x. refl) db.sessions),
  ground arith,
)
Step-Survives {db} v (elsewhere after same) k row e = (row, rw same e, inr (refl, inl refl))

All-update :
    (p : SessionRow → Bool) (f : SessionRow → SessionRow) (xs : List SessionRow)
    → ((x : SessionRow) → IsReleased x → IsReleased (f x))
    → All IsReleased xs
    → All IsReleased (update p f xs)
All-update p f [] h _ = tt
All-update p f (x ∷ xs) h (r, a) = (ground (arith, h x r), All-update p f xs h a)

All-map :
    (f : SessionRow → SessionRow) (xs : List SessionRow)
    → ((x : SessionRow) → IsReleased x → IsReleased (f x))
    → All IsReleased xs
    → All IsReleased (map f xs)
All-map f [] h _ = tt
All-map f (x ∷ xs) h (r, a) = (h x r, All-map f xs h a)

IsFresh-map :
    (k : String) (f : SessionRow → SessionRow)
    (h : (x : SessionRow) → session_id (f x) ≡ session_id x) (xs : List SessionRow)
    → IsFresh session_id k xs
    → IsFresh session_id k (map f xs)
IsFresh-map k f h [] _ = tt
IsFresh-map k f h (x ∷ xs) (n, r) = (ground (arith, h x), IsFresh-map k f h xs r)

keyed-map :
    (f : SessionRow → SessionRow) (h : (x : SessionRow) → session_id (f x) ≡ session_id x)
    (xs : List SessionRow)
    → HasUniqueKeys session_id xs
    → HasUniqueKeys session_id (map f xs)
keyed-map f h [] _ = tt
keyed-map f h (x ∷ xs) (n, u) =
    (ground (arith, h x, IsFresh-map (session_id x) f h xs n), keyed-map f h xs u)

pub Step-IsSound : {db after : Database} → IsSound db → Step db after → IsSound after
unfolding get_row update_title end_session
Step-IsSound {db} v (creates cfg input fresh) = elim (create_lem db cfg input fresh) [
  | inl (_, _, same) ↦ record { keyed = rw same v.keyed; released = rw same v.released }
  | inr (s, _, _, _, _, _, assigned, _, _, free, grown) ↦ record {
    keyed = rw grown (HasUniqueKeys-append session_id db.sessions s v.keyed free);
    released =
        rw grown (All-append IsReleased db.sessions (s ∷ []) v.released ((λ h. ground arith), tt));
  }
]
Step-IsSound {db} v (prompts cfg id now) = elim (worker_for_prompt_shape db cfg id now) [
  | inl same ↦ record { keyed = rw same v.keyed; released = rw same v.released }
  | inr (w, session, found, written) ↦
      let write = reassigned w session now in
      record {
        keyed = rw written (
            HasUniqueKeys-update session_id (has_key session_id session.id) write (λ x. refl)
              db.sessions v.keyed);
        released =
            rw written (
              All-update (has_key session_id session.id) write db.sessions (λ x r h. cc)
                v.released);
      }
]
Step-IsSound {db} v (rehomes cfg lost now) =
    let move = moved db.registry cfg lost now in
    let (written, _) = rehome_worker_sessions_lem db cfg lost now v.keyed in
    record {
      keyed = rw written (keyed-map move (λ x. ground arith) db.sessions v.keyed);
      released = rw written (All-map move db.sessions (λ x r. ground arith) v.released);
    }
Step-IsSound {db} v (retitles id title now) =
    let write = λ (x : SessionRow). record x { title = title; updated_at = now } in
    record {
      keyed =
          HasUniqueKeys-update session_id (has_key session_id id) write (λ x. refl) db.sessions
            v.keyed;
      released = All-update (has_key session_id id) write db.sessions (λ x r h. r h) v.released;
    }
Step-IsSound {db} v (ends id now) = record {
  keyed =
      HasUniqueKeys-update session_id (has_key session_id id) (finished now) (λ x. refl) db.sessions
        v.keyed;
  released =
      All-update (has_key session_id id) (finished now) db.sessions (λ x r h. refl) v.released;
}
Step-IsSound {db} v (elsewhere after same) = record {
  keyed = rw same v.keyed;
  released = rw same v.released;
}

-- Over any history of the directory session ids stay unique, and ended sessions have no owner, if it
-- is so at its start.
pub Reach-IsSound : {db after : Database} → IsSound db → Reach db after → IsSound after
Reach-IsSound v here = v
Reach-IsSound v (next r s) = Step-IsSound (Reach-IsSound v r) s

-- Over any history of the directory that starts with unique session ids and no owner on an ended
-- session, a session stays in it, its lease epoch never falls, and while the epoch stays the same, so
-- does the owner, unless the session loses it.
pub Reach-Survives :
    {db after : Database} (k : String) (row : SessionRow)
    → IsSound db
    → Reach db after
    → get_row db k ≡ some row
    → (later : SessionRow) × (get_row after k ≡ some later) × Supersedes later row
Reach-Survives k row v here e = (row, e, inr (refl, inl refl))
Reach-Survives k row v (next r s) e =
    let (middle, found, first) = Reach-Survives k row v r e in
    let (last, still, second) = Step-Survives (Reach-IsSound v r) s k middle found in
    (last, still, Supersedes-trans row middle last second first)
