-- ===== src/Http/Endings.antt =====
-- src/http/server.ts: a run of the gateway does not leave its turn active, unless it waits for the user.
use opencode_master.Base.{
  ℕ, suc, String, none, some, false, List, [], ◌∷◌, ◌≡◌, arith, sym, subst, find?, has_key, map,
  length, ◌+◌,
}
use opencode_master.Types.{TurnRow, Result, returns, throws}
use opencode_master.Database.{Database}
use opencode_master.Turns.{turn_id, complete, fail}
use opencode_master.Turns.Leases.{row_of, holds, only_holder_writes, completes, fails, perform}
use opencode_master.Journal.{append}
use opencode_master.Journal.Appends.{append-turns}
use opencode_master.Gateway.{Outcome, resulted, failed, GatewayMessage, Delta}
use opencode_master.Http.{◌>>◌, continue, Master, stored, writes, Action}
use opencode_master.Turns.Keys.{IsSound, perform-IsSound}
use opencode_master.Http.Runs.{
  resolved_emission, bare_emission, message_emission, error_emission, message_of, delta_emission,
  forget, quietly, taken, ran, paused, or_give_up, resumed, Run, Stamp, Emission, emit, emit_all,
  emit_deltas, event_input, give_up, take_result, run_gateway_prompt, run_gateway_resume,
}

-- A property of the turns that holds of what a step left holds of what the next one leaves.
module _ (P : List TurnRow → Type 0) where
  abbrev After {ℓ} : {A : Type ℓ} → Master × Result A → Type 0
  After (m, r) = P m.db.turns

  continue-After {ℓ κ} :
      {A : Type ℓ} {B : Type κ} (result : Master × Result A) (f : A → Action B)
      → After result
      → ((a : A) (m : Master) → P m.db.turns → After (f a m))
      → After (continue result f)
  continue-After (m, returns a) f held next = next a m held
  continue-After (m, throws e) f held next = held

  forget-After {ℓ} :
      {A : Type ℓ} (result : Master × Result A) → After result → After (forget result)
  forget-After (m, returns a) held = held
  forget-After (m, throws e) held = held

  emit-After :
      (run : Run) (stamp : Stamp) (e : Emission) (m : Master)
      → P m.db.turns
      → After (emit run stamp e m)
  emit-After run stamp e m held =
      forget-After (stored m (append m.db m.listeners (event_input run stamp e) stamp.id stamp.now))
        (subst P (sym (append-turns m.db m.listeners (event_input run stamp e) stamp.id stamp.now))
          held)

  either-After :
      (done : Result (Unit {0})) (rest : Master × Result ℕ) (m : Master)
      → After rest
      → P m.db.turns
      → After (elim done as (λ _. Master × Result ℕ) [
        | returns _ ↦ rest
        | throws error ↦ (m, throws error)
      ])
  either-After (returns _) rest m held kept = held
  either-After (throws e) rest m held kept = kept

  emit_all-After :
      (run : Run) (stamps : ℕ → Stamp) (first : ℕ) (es : List Emission) (m : Master)
      → P m.db.turns
      → After (emit_all run stamps first es m)
  unfolding emit_all
  emit_all-After run stamps first [] m held = held
  emit_all-After run stamps first (e ∷ es) m held =
      let (after, done) = emit run (stamps first) e m in
      let kept = emit-After run (stamps first) e m held in
      either-After done (emit_all run stamps (suc first) es after) after
        (emit_all-After run stamps (suc first) es after kept) kept

-- A turn whose lease the run holds no more.
module _ (run : Run) where
  abbrev pub IsOver : List TurnRow → Type 0
  IsOver turns =
      holds (find? (has_key turn_id run.turn_id) turns) run.worker_id run.lease_epoch ≡ false

  abbrev Both : List TurnRow → Type 0
  Both turns = IsSound turns × IsOver turns

  complete-Both :
      (db : Database) (now : ℕ)
      → IsSound db.turns
      → Both (complete db run.turn_id run.worker_id run.lease_epoch now).0.turns
  unfolding perform row_of
  complete-Both db now v =
      let (_, guarded, _) =
        only_holder_writes db run.turn_id run.worker_id run.lease_epoch "" now run.turn_id v.ids in
      (
        perform-IsSound db (completes run.turn_id run.worker_id run.lease_epoch now) v,
        ground (arith, guarded.1),
      )

  fail-Both :
      (db : Database) (message : String) (now : ℕ)
      → IsSound db.turns
      → Both (fail db run.turn_id run.worker_id run.lease_epoch message now).0.turns
  unfolding perform row_of
  fail-Both db message now v =
      let (_, _, guarded) =
        only_holder_writes db run.turn_id run.worker_id run.lease_epoch message now run.turn_id
          v.ids in
      (
        perform-IsSound db (fails run.turn_id run.worker_id run.lease_epoch message now) v,
        ground (arith, guarded.1),
      )

  give_up-IsOver :
      (stamp : Stamp) (message : String) (now : ℕ) (m : Master)
      → IsSound m.db.turns
      → After IsOver (give_up run stamp message now m)
  give_up-IsOver stamp message now m v =
      emit-After IsOver run stamp (error_emission message)
        (record m { db = (fail m.db run.turn_id run.worker_id run.lease_epoch message now).0 })
        (fail-Both m.db message now v).1

  -- Over where it returns, and sound where it throws.
  abbrev Ends : Master × Result (Unit {0}) → Type 0
  Ends (m, returns _) = IsOver m.db.turns
  Ends (m, throws e) = IsSound m.db.turns

  Both-Ends : (result : Master × Result (Unit {0})) → After Both result → Ends result
  Both-Ends (m, returns _) b = b.1
  Both-Ends (m, throws e) b = b.0

  continue-Ends :
      (result : Master × Result ℕ) (f : ℕ → Action (Unit {0}))
      → After IsSound result
      → ((a : ℕ) (m : Master) → IsSound m.db.turns → Ends (f a m))
      → Ends (continue result f)
  continue-Ends (m, returns a) f v next = next a m v
  continue-Ends (m, throws e) f v next = v

  ran-Ends :
      (stamps : ℕ → Stamp) (first : ℕ) (messages : List GatewayMessage) (now : ℕ) (m : Master)
      → IsSound m.db.turns
      → Ends (ran run stamps first messages now m)
  ran-Ends stamps first messages now m v =
      continue-Ends (emit_all run stamps first (map message_emission messages) m)
        (λ next.
          writes (λ db. (complete db run.turn_id run.worker_id run.lease_epoch now).0)
          >> emit run (stamps next) (bare_emission "session.idle"))
        (emit_all-After IsSound run stamps first (map message_emission messages) m v)
        (λ next m w.
          Both-Ends
            (emit run (stamps next) (bare_emission "session.idle")
              (record m { db = (complete m.db run.turn_id run.worker_id run.lease_epoch now).0 }))
            (emit-After Both run (stamps next) (bare_emission "session.idle")
              (record m { db = (complete m.db run.turn_id run.worker_id run.lease_epoch now).0 })
              (complete-Both m.db now w)))

  or_give_up-IsOver :
      (stamp : Stamp) (now : ℕ) (result : Master × Result (Unit {0}))
      → Ends result
      → After IsOver (or_give_up run stamp now result)
  or_give_up-IsOver stamp now (m, returns _) over = over
  or_give_up-IsOver stamp now (m, throws e) v = give_up-IsOver stamp (message_of e) now m v

  -- The outcome of a run that does not wait for the user.
  abbrev IsFinal : Outcome → Type 0
  IsFinal (failed message) = Unit
  IsFinal (resulted result) = result.interaction ≡ none

  taken-IsOver :
      (stamps : ℕ → Stamp) (first : ℕ) (outcome : Outcome) (now : ℕ) (m : Master)
      → IsSound m.db.turns
      → IsFinal outcome
      → After IsOver (taken run stamps first outcome now m)
  taken-IsOver stamps first (failed message) now m v _ =
      give_up-IsOver (stamps first) message now m v
  taken-IsOver stamps first (resulted result) now m v final =
      or_give_up-IsOver (stamps 0) now (take_result run stamps first result now m) (
        subst
          (λ i. Ends (
            (elim i as (λ _. Action (Unit {0})) [
              | some interaction ↦ paused run stamps first result.messages interaction
              | none ↦ ran run stamps first result.messages now
            ])
              m))
          (sym final) (ran-Ends stamps first result.messages now m v))

  quietly-IsOver :
      (first : ℕ) (result : Master × Result ℕ) (f : ℕ → Action (Unit {0}))
      → After IsSound result
      → ((a : ℕ) (m : Master) → IsSound m.db.turns → After IsOver (f a m))
      → After IsOver (continue (quietly first result) f)
  quietly-IsOver first (m, returns a) f v next = next a m v
  quietly-IsOver first (m, throws e) f v next = next first m v

  rest-IsOver :
      (stamps : ℕ → Stamp) (first : ℕ) (deltas : List Delta) (outcome : Outcome) (now : ℕ)
      (m : Master)
      → IsSound m.db.turns
      → IsFinal outcome
      → After IsOver (
          continue
            (emit_deltas run stamps first deltas m)
            (λ next. taken run stamps next outcome now))
  rest-IsOver stamps first deltas outcome now m v final =
      quietly-IsOver (first + length deltas)
        (emit_all run stamps first (map (delta_emission run) deltas) m)
        (λ next. taken run stamps next outcome now)
        (emit_all-After IsSound run stamps first (map (delta_emission run) deltas) m v)
        (λ next n w. taken-IsOver stamps next outcome now n w final)

  -- When a run of the gateway for a prompt has ended, whatever its deltas and its outcome are, except a
  -- result that waits for the user, and whichever writes to the journal throw, the worker of the run
  -- holds its turn no more: no active turn with its id is assigned to that worker at the run's epoch.
  -- Turn ids and client keys are unique before it, and no session has two active turns.
  pub run_gateway_prompt-IsOver :
      (stamps : ℕ → Stamp) (deltas : List Delta) (outcome : Outcome) (now : ℕ) (m : Master)
      → IsSound m.db.turns
      → IsFinal outcome
      → After IsOver (run_gateway_prompt run stamps deltas outcome now m)
  unfolding run_gateway_prompt
  run_gateway_prompt-IsOver stamps deltas outcome now m v final =
      rest-IsOver stamps 1 deltas outcome now m v final

  resumed-IsOver :
      (stamps : ℕ → Stamp) (deltas : List Delta) (outcome : Outcome) (now : ℕ)
      (result : Master × Result (Unit {0}))
      → After IsSound result
      → IsFinal outcome
      → After IsOver (resumed run stamps deltas outcome now result)
  resumed-IsOver stamps deltas outcome now (m, throws e) v final =
      give_up-IsOver (stamps 0) (message_of e) now m v
  resumed-IsOver stamps deltas outcome now (m, returns _) v final =
      rest-IsOver stamps 2 deltas outcome now m v final

  -- The same holds of a run that resumes a turn with the user's answer to a question.
  run_gateway_resume-IsOver :
      (interaction_id : String) (stamps : ℕ → Stamp) (deltas : List Delta) (outcome : Outcome)
      (now : ℕ) (m : Master)
      → IsSound m.db.turns
      → IsFinal outcome
      → After IsOver (run_gateway_resume run interaction_id stamps deltas outcome now m)
  unfolding run_gateway_resume
  run_gateway_resume-IsOver interaction_id stamps deltas outcome now m v final =
      resumed-IsOver stamps deltas outcome now
        (emit run (stamps 1) (resolved_emission interaction_id) m)
        (emit-After IsSound run (stamps 1) (resolved_emission interaction_id) m v) final
