-- ===== src/Journal/Tests.antt =====
-- src/services/event-journal.ts, run on the events of one session.
use opencode_master.Base.{
  All, String, none, some, List, [], ◌∷◌, ◌++◌, ◌≡◌, refl, length, map, text_dec, Bool-cases,
  sort_by, ℕ,
}
use opencode_master.Types.{Fields, Json, returns}
use opencode_master.Database.{Database}
use opencode_master.Journal.{
  AppendInput, Appended, Subscription, append, replay, seq_of, new_event, insert_event, subscribe,
  unsubscribe, EventRow,
}
use opencode_master.Journal.Appends.{IsNumbered}
use opencode_master.Journal.Races.{Appending, started, ends}
use opencode_master.Journal.Races.Overtaking.{run, queries, inserts, append_overtakes}
use opencode_master.Journal.Replays.{resume_exact, Report, append_all}
use opencode_master.Journal.History.{history, entries_of, messages_of, message_entries, item_of}
use opencode_master.Samples.{pending_turn, sample}

abbrev reported : String → String → AppendInput
reported session_id source_id = record {
  session_id = session_id;
  tenant_id = "t";
  turn_id = "turn";
  worker_id = "b";
  lease_epoch = 1;
  source_id = source_id;
  type = "worker.turn.message";
  payload = Json.null;
}

abbrev listeners : List Subscription
listeners = subscribe (subscribe (subscribe [] "s" "x") "e" "y") "s" "x"

abbrev reports : List Report
reports =
    record { subscribers = []; input = reported "s" "one"; id = "e1"; now = 5 }
    ∷ record { subscribers = []; input = reported "e" "one"; id = "e2"; now = 6 }
    ∷ record { subscribers = []; input = reported "s" "two"; id = "e3"; now = 7 }
    ∷ record { subscribers = []; input = reported "s" "one"; id = "e4"; now = 8 }
    ∷ []

abbrev full : Database
full = append_all sample reports

-- The second report of an event is dropped, and each session has its own numbers.
numbers : map seq_of full.session_events ≡ 1 ∷ 1 ∷ 2 ∷ []
unfolding append_all append insert_event text_dec Bool-cases
numbers = refl

told_once :
    listeners
    ≡ record { session_id = "s"; listener = "x" } ∷ record { session_id = "e"; listener = "y" } ∷ []
unfolding subscribe text_dec Bool-cases
told_once = refl

told_no_more : unsubscribe listeners "s" "x" ≡ record { session_id = "e"; listener = "y" } ∷ []
unfolding unsubscribe subscribe text_dec Bool-cases
told_no_more = refl

abbrev first : Appended
first = record { event = new_event (reported "s" "one") "e1" 1 5; told = "x" ∷ [] }

full-IsNumbered : IsNumbered full "s"
unfolding append_all append insert_event text_dec Bool-cases
full-IsNumbered = (refl, (refl, tt))

resume_exact_example :
    replay full "s" none
    ≡ replay sample "s" none ++ replay full "s" (some (length (replay sample "s" none)))
resume_exact_example = resume_exact sample reports "s" tt

abbrev said : String → Json
said content = Json.obj (
    Fields.field "role" (Json.str "assistant")
      (Fields.field "content" (Json.str content) Fields.end))

abbrev message_of : String → Json → ℕ → ℕ → EventRow
message_of id payload seq at = record (new_event (reported "s" id) id seq at) { payload = payload }

abbrev asked_at_20 : Database
asked_at_20 = record sample { turns = record pending_turn { created_at = 20 } ∷ [] }

-- The second message came at 30, after the prompt, and the history has it before the prompt: it is
-- given the time of the first message event, which is not readable.
abbrev unread_first : Database
unread_first = record asked_at_20 {
  session_events = message_of "m1" Json.null 1 10 ∷ message_of "m2" (said "hi") 2 30 ∷ [];
}

misplaced : map (λ i. i.content) (history unread_first "s") ≡ "hi" ∷ "hello" ∷ []
unfolding history entries_of messages_of message_entries item_of replay sort_by text_dec Bool-cases
misplaced = refl

abbrev one_event : EventRow
one_event = new_event (reported "s" "one") "e1" 1 5

abbrev two_event : EventRow
two_event = new_event (reported "s" "two") "e2" 1 6

abbrev both_events : Database × List Appending
both_events = (
  record sample { session_events = one_event ∷ two_event ∷ [] },
  ends (started (reported "s" "one") "e1" 5) (returns (record { event = one_event; told = [] }))
      ∷ ends (started (reported "s" "two") "e2" 6)
          (returns (record { event = two_event; told = [] }))
      ∷ [],
)

append_overtakes_example :
    let calls = started (reported "s" "one") "e1" 5 ∷ started (reported "s" "two") "e2" 6 ∷ [] in
    All
      (λ asked. All (λ stored. run [] (sample, calls) (asked ++ stored) ≡ both_events) inserts)
      queries
    × (one_event.seq ≡ two_event.seq)
    × (replay both_events.0 "s" (some 1) ≡ [])
unfolding text_dec Bool-cases
append_overtakes_example =
    append_overtakes sample [] (reported "s" "one") (reported "s" "two") "e1" "e2" 5 6 refl refl
      refl refl refl refl refl
