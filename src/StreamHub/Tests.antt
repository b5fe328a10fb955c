-- ===== src/StreamHub/Tests.antt =====
-- src/worker/stream-hub.ts, run with a buffer of two events.
use opencode_master.Base.{ℕ, none, [], ◌∷◌, ◌≡◌, refl, map, text_dec, ◌+◌, Bool-cases}
use opencode_master.Types.{Json}
use opencode_master.StreamHub.{Hub, StreamEvent, publish, replay, buffer_of, wrap_event, subscribe}
use opencode_master.StreamHub.Refinement.{Represents, publish-Represents, logged, id_of}

abbrev new_hub : Hub
new_hub = record { worker_id = "b"; capacity = 2; sessions = [] }

abbrev event_of : ℕ → StreamEvent
event_of id = wrap_event "s" "b" "message" Json.null id (40 + id)

abbrev one : Hub
one = (publish (subscribe new_hub "s" "x") "s" "message" Json.null 41).hub

abbrev three : Hub
three = (publish (publish one "s" "message" Json.null 42).hub "s" "message" Json.null 43).hub

last_two : map id_of (replay three "s" none) ≡ 2 ∷ 3 ∷ []
unfolding replay publish subscribe text_dec Bool-cases
last_two = refl

new-Represents : Represents 2 [] (buffer_of "s" new_hub.sessions)
new-Represents = record { numbered = tt; next = refl; kept = refl }

three-Represents :
    Represents 2 (event_of 1 ∷ event_of 2 ∷ event_of 3 ∷ []) (buffer_of "s" three.sessions)
unfolding publish subscribe text_dec Bool-cases
three-Represents = record { numbered = (refl, (refl, (refl, tt))); next = refl; kept = refl }

publish-Represents_example :
    let published = publish new_hub "s" "message" Json.null 41 in
    Represents 2 (logged published "s" "s" []) (buffer_of "s" published.hub.sessions)
publish-Represents_example =
    publish-Represents new_hub "s" "message" Json.null 41 "s" [] new-Represents
