-- ===== src/Http/Streams.antt =====
-- src/http/server.ts: the connection of a stream writes each event once.
use opencode_master.Base.{
  All-weaken, sym, ◌∙◌, subst, String, true, List, [], ◌∷◌, ◌++◌, ◌≡◌, refl, arith, find?, has_key,
  HasUniqueKeys, HasUniqueKeys-append, find?-append, contains, is_some, All, inl, inr, Bool-cases,
}
use opencode_master.Types.{EventRow}
use opencode_master.Journal.{event_id}
use opencode_master.Http.Directory.{Connection, connected, send, send_all}

-- No event is written twice, and the ids that were sent are those that were written.
pub record IsOnce (c : Connection) : Type 0 where
  pub unique : HasUniqueKeys event_id c.written
  pub same : (id : String) → contains c.sent id ≡ is_some (find? (has_key event_id id) c.written)

send-IsOnce : (c : Connection) (event : EventRow) → IsOnce c → IsOnce (send c event)
unfolding send
send-IsOnce c event v = elim (Bool-cases (contains c.sent event.id)) [
  | inl known ↦ subst IsOnce (ground (arith, known)) v
  | inr new ↦
      subst IsOnce {x = record { sent = event.id ∷ c.sent; written = c.written ++ event ∷ [] }}
        (ground (arith, new))
        (record {
          unique =
              HasUniqueKeys-append event_id c.written event v.unique
                (ground (arith, v.same event.id, new));
          same = λ id. ground (arith, v.same id, find?-append event_id id c.written event);
        })
]

send_all-IsOnce : (events : List EventRow) (c : Connection) → IsOnce c → IsOnce (send_all c events)
unfolding send_all
send_all-IsOnce [] c v = v
send_all-IsOnce (event ∷ events) c v = send_all-IsOnce events (send c event) (send-IsOnce c event v)

send_all-keeps :
    (events : List EventRow) (c : Connection) (id : String)
    → contains c.sent id ≡ true
    → contains (send_all c events).sent id ≡ true
unfolding send_all send
send_all-keeps [] c id h = h
send_all-keeps (event ∷ events) c id h = send_all-keeps events (send c event) id (ground (arith, h))

send_all-sends :
    (events : List EventRow) (c : Connection)
    → All (λ event. contains (send_all c events).sent event.id ≡ true) events
unfolding send_all send
send_all-sends [] c = tt
send_all-sends (event ∷ events) c = (
  send_all-keeps events (send c event) event.id (ground arith),
  send_all-sends events (send c event),
)

-- Whatever events a connection is given, in whatever order and however often, it writes none of them
-- twice, and each that it was given is written.
pub send_all-once :
    (events : List EventRow)
    → HasUniqueKeys event_id (send_all connected events).written
      × All
          (λ event.
            is_some (find? (has_key event_id event.id) (send_all connected events).written) ≡ true)
          events
send_all-once events =
    let v = send_all-IsOnce events connected (record { unique = tt; same = λ id. refl }) in
    (
      v.unique,
      All-weaken (λ event. contains (send_all connected events).sent event.id ≡ true)
          (λ event.
            is_some (find? (has_key event_id event.id) (send_all connected events).written) ≡ true)
          events (λ event h. sym (v.same event.id) ∙ h) (send_all-sends events connected),
    )
