-- ===== src/Turns/Tests.antt =====
-- src/services/turn-service.ts, run on one turn.
use opencode_master.Base.{
  step_nth, String, some, All, ◌++◌, true, false, ◌&&◌, List, [], ◌∷◌, ◌≡◌, refl, map_some,
  text_dec, Bool-cases, text_ne, trim,
}
use opencode_master.Types.{TurnRow, TurnStatus, returns, throws, active_turn}
use opencode_master.Database.{Database}
use opencode_master.Sessions.{update_title, get_row}
use opencode_master.Sessions.Epochs.{here, next, retitles}
use opencode_master.Sessions.Samples.{sample-IsSound, after_loss}
use opencode_master.Samples.{sample, sample_config, pending_turn}
use opencode_master.Turns.{
  lease, complete, fail, leased_at, completed_as_of, failed_with, TurnInput, TurnFresh, Admitted,
  create_or_get, is_current_lease, key_of,
}
use opencode_master.Turns.Leases.{
  Guarded, only_holder_writes, holds, row_of, Op, creates, leases, completes, fails, perform_all,
  perform,
}
use opencode_master.Turns
use opencode_master.Turns.Unique.{HasOneActive}
use opencode_master.Turns.Created.{with_turn}
use opencode_master.Turns.Races.{
  Running, Event, steps, does, happen_all, step, started, ends, insert_indexed,
}
use opencode_master.Turns.Races.Answers.{answers_same}
use opencode_master.Turns.Races.Overtaking.{queries, writes, admits_both}
use opencode_master.Turns.Keys.{IsSound, perform_all-IsSound}
use opencode_master.Turns.Retries.{retry_same}
use opencode_master.Turns.Fencing.{current_lease_unique, rehome_orphans}

turns-IsSound : IsSound sample.turns
turns-IsSound = record { ids = (tt, tt); keys = (tt, tt); one_active = (λ h. tt, tt) }

abbrev input : TurnInput
input = record {
  session_id = "s";
  user_id = "u";
  content = "again";
  client_key = some " second ";
  worker_id = "a";
  lease_epoch = 2;
}

abbrev fresh : TurnFresh
fresh = record { key_now = 50; key_id = "k"; id = "turn2"; now = 51 }

abbrev later : TurnFresh
later = record { key_now = 60; key_id = "l"; id = "turn3"; now = 61 }

-- The turn is completed, a second one is asked for and fails.
abbrev ops : List Op
ops =
    leases "turn" "b" 1 40
    ∷ completes "turn" "b" 1 41
    ∷ creates input fresh
    ∷ fails "turn2" "a" 2 "no" 55
    ∷ []

-- The second turn is there, and failed.
second_failed :
    map_some (λ t. t.status) (row_of (perform_all sample ops) "turn2") ≡ some TurnStatus.failed
unfolding row_of perform_all perform lease complete fail create_or_get text_dec Bool-cases key_of
    trim
second_failed = refl

only_holder_writes_example :
    Guarded sample (lease sample "turn" "b" 1 40) "turn" "b" 1 (leased_at 40) "turn"
    × Guarded sample (complete sample "turn" "b" 1 40) "turn" "b" 1 (completed_as_of 40) "turn"
    × Guarded sample (fail sample "turn" "b" 1 "no" 40) "turn" "b" 1 (failed_with "no" 40) "turn"
only_holder_writes_example = only_holder_writes sample "turn" "b" 1 "no" 40 "turn" (tt, tt)

perform_all-IsSound_example : IsSound (perform_all sample ops).turns
perform_all-IsSound_example = perform_all-IsSound sample ops turns-IsSound

abbrev done : Database
done = record sample { turns = completed_as_of 41 pending_turn ∷ [] }

abbrev answer : Admitted
answer = record {
  turn = record pending_turn {
    id = "turn2";
    content = "again";
    client_key = "second";
    lease_epoch = 2;
    assigned_worker_id = "a";
    created_at = 51;
    updated_at = 51;
  };
  created = true;
}

retry_same_example :
    let after = perform_all (create_or_get done input fresh).0 ops in
    (turn : TurnRow) × (create_or_get after input later
      ≡ (after, returns (record { turn = turn; created = false })))
    × (turn.id ≡ "turn2")
unfolding create_or_get key_of trim text_dec Bool-cases
retry_same_example =
    retry_same done input input fresh later " second " answer ops refl refl
      (text_ne (trim " second ") "" refl) refl refl

current_lease_unique_example : ◌≡◌ {A = String} "b" "b"
unfolding is_current_lease get_row update_title text_dec Bool-cases
current_lease_unique_example =
    current_lease_unique "s" "b" "b" 1 sample-IsSound (next here (retitles "s" "title" 9)) refl refl

rehome_orphans_example :
    ((is_current_lease after_loss "s" "b" 1 && holds (row_of after_loss "turn") "b" 1) ≡ false)
    × (create_or_get after_loss input fresh ≡ (after_loss, throws (active_turn "s")))
unfolding row_of key_of text_dec Bool-cases trim
rehome_orphans_example =
    rehome_orphans sample sample_config "b" 100 pending_turn input fresh "b" 1 sample-IsSound refl
      refl refl refl

-- The other call asks with the same key, and finds it used when it inserts, or the turn when it looks.
abbrev prompting : List Running
prompting = started input fresh ∷ started input later ∷ []

abbrev in_turn : List Event
in_turn = steps 0 ∷ steps 0 ∷ steps 0 ∷ steps 1 ∷ does (leases "turn2" "a" 2 70) ∷ steps 0 ∷ []

abbrev leased_answer : Admitted
leased_answer = record {
  turn = record answer.turn { status = TurnStatus.leased; updated_at = 70 };
  created = true;
}

abbrev found_answer : Admitted
found_answer = record answer { created = false }

answers_same_example :
    (leased_answer.turn.id ≡ found_answer.turn.id)
    × ((leased_answer.created && found_answer.created) ≡ false)
unfolding happen_all step_nth step insert_indexed key_of trim text_dec Bool-cases Turns.get perform
    lease
answers_same_example =
    answers_same done prompting in_turn 0 1 (ends (started input fresh) (returns leased_answer))
      (ends (started input later) (returns found_answer)) leased_answer found_answer
      (refl, (refl, tt)) refl refl refl refl refl refl (text_ne "turn2" "turn3" refl)

-- The other call asks with a key of its own.
abbrev other_input : TurnInput
other_input = record input { client_key = some "third" }

abbrev both_done : Database × List Running
both_done = (
  with_turn (with_turn done answer.turn)
      (record answer.turn { id = "turn3"; client_key = "third"; created_at = 61; updated_at = 61 }),
  ends (started input fresh) (returns answer)
      ∷ ends (started other_input later) (
          returns (record {
            turn = record answer.turn {
              id = "turn3";
              client_key = "third";
              created_at = 61;
              updated_at = 61;
            };
            created = true;
          }))
      ∷ [],
)

admits_both_example :
    let calls = started input fresh ∷ started other_input later ∷ [] in
    All
      (λ asked. All (λ written. happen_all (done, calls) (asked ++ written) ≡ both_done) writes)
      queries
    × (HasOneActive both_done.0.turns → ⊥)
unfolding key_of trim text_dec Bool-cases
admits_both_example =
    admits_both done input other_input fresh later refl refl refl refl refl refl refl refl
