-- ===== src/StreamHub.antt =====
-- src/worker/stream-hub.ts and src/protocol/opencode-stream.ts: the events of the sessions of one
-- worker, kept in a buffer of limited size and numbered for each session. An event's id is the number
-- whose text the source sends; a subscriber is named by a text; the clock's reading is an argument.
pub mod Refinement
mod Tests
use opencode_master.Base.{
  ℕ, String, Option, none, some, Bool, true, List, [], ◌∷◌, ◌++◌, ◌+◌, ◌-◌, ◌==◌, if◌then◌else◌,
  select, drop, length, ltb, contains, ◌||◌, or_else, not,
}
use opencode_master.Types.{Json}

pub data Source : Type 0 where
  opencode worker : Source

pub record StreamEvent : Type 0 where
  pub id : ℕ
  pub session_id : String
  pub worker_id : String
  pub source : Source
  pub type : String
  pub payload : Json
  pub at : ℕ

abbrev pub wrap_event : String → String → String → Json → ℕ → ℕ → StreamEvent
wrap_event session_id worker_id type payload id at = record {
  id = id;
  session_id = session_id;
  worker_id = worker_id;
  source = Source.opencode;
  type = type;
  payload = payload;
  at = at;
}

abbrev pub is_terminal : String → Bool
is_terminal type = type == "session.idle" || type == "session.completed" || type == "session.error"

pub record Buffer : Type 0 where
  pub next_id : ℕ
  pub events : List StreamEvent
  pub subscribers : List String

abbrev pub empty_buffer : Buffer
empty_buffer = record { next_id = 1; events = []; subscribers = [] }

pub record Hub : Type 0 where
  pub worker_id : String
  pub capacity : ℕ
  pub sessions : List (String × Buffer)

-- `sessions.get`.
abbrev pub find_buffer : String → List (String × Buffer) → Option Buffer
find_buffer k [] = none
find_buffer k ((j, b) ∷ m) = if j == k then some b else find_buffer k m

-- The private `session`, which makes a buffer where there is none.
abbrev pub buffer_of : String → List (String × Buffer) → Buffer
buffer_of k m = or_else (find_buffer k m) empty_buffer

abbrev pub set_buffer : String → Buffer → List (String × Buffer) → List (String × Buffer)
set_buffer k b [] = (k, b) ∷ []
set_buffer k b ((j, c) ∷ m) = if j == k then (k, b) ∷ m else (j, c) ∷ set_buffer k b m

-- The buffer after a push, cut to the capacity at its front.
abbrev pub pushed : ℕ → StreamEvent → Buffer → Buffer
pushed capacity event buffer = record buffer {
  next_id = buffer.next_id + 1;
  events =
      let events = buffer.events ++ event ∷ [] in
      if ltb capacity (length events) then drop (length events - capacity) events else events;
}

-- The hub, the event, and the subscribers that were called with it.
pub record Published : Type 0 where
  pub hub : Hub
  pub event : StreamEvent
  pub told : List String

unfoldable pub publish : Hub → String → String → Json → ℕ → Published
publish hub session_id type payload now =
    let buffer = buffer_of session_id hub.sessions in
    let event = wrap_event session_id hub.worker_id type payload buffer.next_id now in
    record {
      hub = record hub {
        sessions = set_buffer session_id (pushed hub.capacity event buffer) hub.sessions;
      };
      event = event;
      told = buffer.subscribers;
    }

-- An absent number is read as -1, and one that is not finite gives all events too.
abbrev pub is_missed : Option ℕ → StreamEvent → Bool
is_missed none event = true
is_missed (some id) event = ltb id event.id

unfoldable pub replay : Hub → String → Option ℕ → List StreamEvent
replay hub session_id after = elim (find_buffer session_id hub.sessions) [
  | none ↦ []
  | some buffer ↦ select (is_missed after) buffer.events
]

unfoldable pub subscribe : Hub → String → String → Hub
subscribe hub session_id subscriber =
    let buffer = buffer_of session_id hub.sessions in
    let subscribers =
      if contains buffer.subscribers subscriber
      then buffer.subscribers
      else buffer.subscribers ++ subscriber ∷ [] in
    record hub {
      sessions = set_buffer session_id (record buffer { subscribers = subscribers }) hub.sessions;
    }

-- The function that `subscribe` returns.
unfoldable pub unsubscribe : Hub → String → String → Hub
unsubscribe hub session_id subscriber =
    let buffer = buffer_of session_id hub.sessions in
    let subscribers = select (λ s. not (s == subscriber)) buffer.subscribers in
    record hub {
      sessions = set_buffer session_id (record buffer { subscribers = subscribers }) hub.sessions;
    }
