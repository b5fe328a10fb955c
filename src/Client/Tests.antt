-- ===== src/Client/Tests.antt =====
-- src/client.ts, run on small requests and streams.
use Prim.Native.String.{String}
use opencode_master.Base.{Option, some, [], ◌∷◌, ◌≡◌, refl, text_dec, Bool-cases, trim}
use opencode_master.Types.{active_turn}
use opencode_master.Http.{map_error}
use opencode_master.Http.Sse.{stream_text, event_frame}
use opencode_master.Client.{MasterClientOptions, Received, Sent, request, refused, end_session}
use opencode_master.Client.Events.{receive_all}
use opencode_master.Client.Delivery.{receive_all-stream_text}
use opencode_master.Client.Errors.{request-map_error, failed}

-- An event is a text, and is its own JSON and its own id.
abbrev same : String → String
same s = s

receive_all-stream_text_example :
    receive_all some "" (": conn" ∷ "ected\n\nid: {}\nda" ∷ "ta: {}\n\n" ∷ []) ≡ ("{}" ∷ [], "")
unfolding stream_text event_frame trim text_dec Bool-cases
receive_all-stream_text_example =
    receive_all-stream_text same same some ("{}" ∷ [])
      (": conn" ∷ "ected\n\nid: {}\nda" ∷ "ta: {}\n\n" ∷ [])
      (((refl, (refl, tt)), (refl, (refl, tt)), refl, refl, refl), tt) refl

abbrev options : MasterClientOptions
options = record { base_url = "https://m/"; token = "t" }

abbrev busy : Sent → Option Received
busy sent = some (failed 409 "Conflict" "ACTIVE_TURN" "session s already has an active turn")

request-map_error_example :
    request busy options (end_session "s")
    ≡ refused (record {
      status = 409;
      code = "ACTIVE_TURN";
      message = "session s already has an active turn";
    })
unfolding map_error
request-map_error_example =
    request-map_error busy options (end_session "s") (active_turn "s") 409 "ACTIVE_TURN"
      "session s already has an active turn" "Conflict" refl refl
