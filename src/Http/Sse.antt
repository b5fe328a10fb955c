-- ===== src/Http/Sse.antt =====
-- src/http/helpers.ts: the frame of a server-sent event, where the text of the data is an
-- argument, and the body of an error.
-- src/http/server.ts: the text that `stream` writes; `JSON.stringify` is a parameter.
use opencode_master.Types.{Json, Fields}
use opencode_master.Base.{
  String, Option, none, some, [], ◌∷◌, ◌==◌, if◌then◌else◌, map, join, split, template, List,
}

abbrev data_text : String → String
data_text line = template ("data: " ∷ line ∷ [])

abbrev event_text : Option String → String
event_text none = ""
event_text (some event) = if event == "" then "" else template ("event: " ∷ event ∷ "\n" ∷ [])

unfoldable pub sse_frame : String → Option String → String
sse_frame payload event =
    template (event_text event ∷ join "\n" (map data_text (split b'\n' payload)) ∷ "\n\n" ∷ [])

module _ {ℓ} {A : Type ℓ} (print : A → String) (id_of : A → String) where
  unfoldable pub event_frame : A → String
  event_frame event = template ("id: " ∷ id_of event ∷ "\ndata: " ∷ print event ∷ "\n\n" ∷ [])

  -- The text of a connection, on which these events were written.
  unfoldable pub stream_text : List A → String
  stream_text events = template (": connected\n\n" ∷ map event_frame events)

-- The body of `apiError`.
unfoldable pub failure_json : String → String → Json
failure_json code message = Json.obj (
    Fields.field "error"
      (Json.obj (
        Fields.field "code" (Json.str code) (Fields.field "message" (Json.str message) Fields.end)))
      Fields.end)
