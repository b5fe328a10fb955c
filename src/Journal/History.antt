-- ===== src/Journal/History.antt =====
-- src/services/event-journal.ts: `history`, the prompts and the messages of a session in the order of
-- their times.
pub mod Times
use opencode_master.Base.{
  ℕ, suc, String, Option, none, some, Bool, List, [], ◌∷◌, ◌++◌, ◌==◌, map, select, sort_by,
  get_elem?, if◌then◌else◌,
}
use opencode_master.Types.{Json, Fields, HistoryItem, HistoryRole, EventRow, TurnRow}
use opencode_master.Database.{Database}
use opencode_master.Journal.{replay}

-- `value.name`, where the value is an object with this field.
abbrev pub find_field : String → Fields → Option Json
find_field k Fields.end = none
find_field k (Fields.field j v fields) = if j == k then some v else find_field k fields

abbrev pub member : String → Json → Option Json
member k (Json.obj fields) = find_field k fields
member k _ = none

-- `event.data.message ?? event.data`.
abbrev present : Option Json → Json → Json
present none whole = whole
present (some Json.null) whole = whole
present (some message) whole = message

abbrev pub raw_of : EventRow → Json
raw_of event = present (member "message" event.payload) event.payload

abbrev pub text_of : Option Json → Option String
text_of (some (Json.str s)) = some s
text_of _ = none

abbrev role_of : Option String → Option HistoryRole
role_of none = none
role_of (some s) =
    if s == "assistant"
    then some HistoryRole.assistant
    else if s == "tool"
    then some HistoryRole.tool
    else if s == "user"
    then some HistoryRole.user
    else none

unfoldable pub item_of : Json → Option HistoryItem
item_of raw = elim (role_of (text_of (member "role" raw))) [
  | none ↦ none
  | some role ↦ elim (text_of (member "content" raw)) [
    | none ↦ none
    | some content ↦ some (record {
      id = text_of (member "id" raw);
      role = role;
      content = content;
      name = text_of (member "name" raw);
      reasoning = text_of (member "reasoning" raw);
    })
  ]
]

abbrev pub is_message : EventRow → Bool
is_message event = event.type == "worker.turn.message"

-- `.map(…).filter(Boolean)`.
unfoldable pub messages_of : List EventRow → List HistoryItem
messages_of [] = []
messages_of (event ∷ events) =
    let rest = messages_of events in
    elim (item_of (raw_of event)) [ none ↦ rest | some item ↦ item ∷ rest ]

pub record Entry : Type 0 where
  pub at : ℕ
  pub item : HistoryItem

abbrev pub prompt_item : TurnRow → HistoryItem
prompt_item turn = record {
  id = none;
  role = HistoryRole.user;
  content = turn.content;
  name = none;
  reasoning = none;
}

abbrev pub prompt_entry : TurnRow → Entry
prompt_entry turn = record { at = turn.created_at; item = prompt_item turn }

abbrev pub max_safe_integer : ℕ
max_safe_integer = 9007199254740991

-- `messageEvents[index]?.at ?? Number.MAX_SAFE_INTEGER`.
abbrev pub time_at : List EventRow → ℕ → ℕ
time_at events index = elim (get_elem? events index) [
  | none ↦ max_safe_integer
  | some event ↦ event.received_at
]

-- The loop over the messages, from an index on.
unfoldable pub message_entries : List EventRow → ℕ → List HistoryItem → List Entry
message_entries events index [] = []
message_entries events index (item ∷ items) =
    record { at = time_at events index; item = item } ∷ message_entries events (suc index) items

abbrev pub prompts_of : Database → String → List TurnRow
prompts_of db session_id =
    sort_by (λ t. t.created_at) (select (λ t. t.session_id == session_id) db.turns)

abbrev pub message_events : Database → String → List EventRow
message_events db session_id = select is_message (replay db session_id none)

-- The entries in the order of the source's `index`, which grows along the list; the sort keeps the
-- order of entries with one time, as the source does by comparing these indexes.
unfoldable pub entries_of : Database → String → List Entry
unfolding messages_of message_entries
entries_of db session_id =
    map prompt_entry (prompts_of db session_id)
    ++ message_entries (message_events db session_id) 0 (messages_of (message_events db session_id))

abbrev pub entry_time : Entry → ℕ
entry_time entry = entry.at

unfoldable pub history : Database → String → List HistoryItem
unfolding entries_of
history db session_id = map (λ entry. entry.item) (sort_by entry_time (entries_of db session_id))
