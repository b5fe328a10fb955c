-- ===== src/Journal/History/Times.antt =====
-- src/services/event-journal.ts: what the history has, and in which order.
use mathlib.Core.List.{Perm}
use opencode_master.Base.{
  ℕ, suc, String, none, some, true, List, [], ◌∷◌, ◌++◌, ◌≡◌, refl, arith, map, sort_by, All,
  is_some, ◌+◌, map-sort_by-perm, ap, ◌∙◌, subst, Option-cases, inl, inr,
}
use opencode_master.Types.{HistoryItem, EventRow, TurnRow}
use opencode_master.Database.{Database}
use opencode_master.Journal.History.{
  history, entries_of, message_entries, messages_of, item_of, raw_of, message_events, prompts_of,
  prompt_item, prompt_entry, Entry, entry_time, time_at,
}

abbrev item : Entry → HistoryItem
item entry = entry.item

map-item-prompts :
    (turns : List TurnRow) (rest : List Entry)
    → map item (map prompt_entry turns ++ rest) ≡ map prompt_item turns ++ map item rest
map-item-prompts [] rest = refl
map-item-prompts (t ∷ turns) rest = ground (arith, map-item-prompts turns rest)

map-item-message_entries :
    (events : List EventRow) (index : ℕ) (items : List HistoryItem)
    → map item (message_entries events index items) ≡ items
unfolding message_entries
map-item-message_entries events index [] = refl
map-item-message_entries events index (x ∷ items) =
    ap (λ xs. x ∷ xs) (map-item-message_entries events (suc index) items)

-- A history has the prompts of the session and its readable messages, each as often as they occur,
-- and nothing else.
pub history-perm :
    (db : Database) (k : String)
    → Perm (history db k) (map prompt_item (prompts_of db k) ++ messages_of (message_events db k))
unfolding history entries_of
history-perm db k =
    subst (Perm (history db k))
      (map-item-prompts (prompts_of db k)
          (message_entries (message_events db k) 0 (messages_of (message_events db k)))
        ∙ ap (λ items. map prompt_item (prompts_of db k) ++ items)
            (map-item-message_entries (message_events db k) 0 (messages_of (message_events db k))))
      (map-sort_by-perm entry_time item (entries_of db k))

-- The readable messages, each at the time when its own event came.
unfoldable pub timed : List EventRow → List Entry
timed [] = []
timed (event ∷ events) =
    let rest = timed events in
    elim (item_of (raw_of event)) [
      | none ↦ rest
      | some item ↦ record { at = event.received_at; item = item } ∷ rest
    ]

message_entries-timed :
    (events : List EventRow) (index : ℕ) (suffix : List EventRow)
    → ((j : ℕ) → time_at events (index + j) ≡ time_at suffix j)
    → All (λ e. is_some (item_of (raw_of e)) ≡ true) suffix
    → message_entries events index (messages_of suffix) ≡ timed suffix
unfolding message_entries messages_of timed
message_entries-timed events index [] h _ = refl
message_entries-timed events index (e ∷ suffix) h (readable, a) =
    let here : time_at events index ≡ e.received_at =
      subst (λ i. time_at events i ≡ e.received_at) (omega arith) (h 0) in
    let rest =
      message_entries-timed events (suc index) suffix
        (λ j. subst (λ i. time_at events i ≡ time_at suffix j) (omega arith) (h (suc j))) a in
    elim (Option-cases (item_of (raw_of e))) [
      | inl unread ↦ ground arith
      | inr (x, read) ↦ ground (arith, here, rest)
    ]

-- Where all the message events of a session are readable, the history is its prompts and messages
-- sorted by the time of each, a message's being that of its own event; of one time, prompts come
-- before messages, and each kind keeps its order.
history-timed :
    (db : Database) (k : String)
    → All (λ e. is_some (item_of (raw_of e)) ≡ true) (message_events db k)
    → history db k
      ≡ map
          (λ entry. entry.item)
          (sort_by entry_time (map prompt_entry (prompts_of db k) ++ timed (message_events db k)))
unfolding history entries_of
history-timed db k readable =
    ap (λ entries. map item (sort_by entry_time (map prompt_entry (prompts_of db k) ++ entries)))
      (message_entries-timed (message_events db k) 0 (message_events db k)
        (λ j. ap (time_at (message_events db k)) (omega arith)) readable)
