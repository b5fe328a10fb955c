-- ===== src/Worker/Snapshots/Saved.antt =====
-- src/worker/session-snapshot.ts: what was exported last is what is restored.
use opencode_master.Base.{
  ℕ, String, Option, none, some, ◌≡◌, ap, ◌∙◌, arith, get_entry, set_entry, get-set_same,
}
use opencode_master.Types.{Json}
use opencode_master.Worker.Executor.{SafePoint}
use opencode_master.Worker.Snapshots.{
  SessionSnapshot, SnapshotFiles, RunOutput, printed, gives, throws, Attempt, safe_session_id, save,
  load, export, restore, parse_imported_session_id, imported, file_name, saved,
}

module _ (files : SnapshotFiles) (id payload : String) (point : SafePoint) (now : ℕ)
    (safe : safe_session_id id ≡ gives id) where
  abbrev snapshot : SessionSnapshot
  snapshot = record { session_id = id; safe_point = point; exported_at = now; payload = payload }

  abbrev after : SnapshotFiles
  after = set_entry files (file_name id) snapshot

  export-writes : export files id point (printed payload) now ≡ (after, gives snapshot)
  unfolding export save
  export-writes =
      ap
        (λ (o : Attempt String).
          saved snapshot (elim o as (λ _. SnapshotFiles × Attempt (Unit {0})) [
            | throws message ↦ (files, throws message)
            | gives name ↦ (set_entry files (file_name name) snapshot, gives tt)
          ]))
        safe

  load-after : load after id ≡ some snapshot
  unfolding load
  load-after =
      ap
        (λ (o : Attempt String). elim o as (λ _. Option SessionSnapshot) [
          | throws message ↦ none
          | gives name ↦ get_entry after (file_name name)
        ])
        safe
      ∙ get-set_same files (file_name id) snapshot

  -- A session that was exported at a safe point is restored from that export: its file is written over
  -- what was there, its payload is what is imported, and the snapshot is returned with the id that the
  -- native opencode prints of it, or nothing is returned if it prints none. The session's id is accepted.
  restore-export :
      (parse : String → Option Json) (run : String → RunOutput) (output : String)
      → run payload ≡ printed output
      → (export files id point (printed payload) now ≡ (after, gives snapshot))
        × (restore parse run after id
            ≡ gives (imported snapshot (parse_imported_session_id parse output)))
  unfolding restore
  restore-export parse run output h = (export-writes, ground (arith, load-after, h))
