-- ===== src/Client.antt =====
-- src/client.ts: `createMasterClient`, the client of the master's API for web applications: the
-- requests that its methods make, and what they return or throw. `fetch` is a parameter, with `none`
-- where it rejects; so is `encodeURIComponent`.
pub mod Events
pub mod Calls
pub mod Reading
pub mod Delivery
pub mod Errors
mod Tests
use Prim.Native.String.{String}
use opencode_master.Base.{
  ℕ, Option, none, some, [], ◌∷◌, ◌==◌, if◌then◌else◌, eqb, is_success, or_else, template,
  strip_end, decimal,
}
use opencode_master.Types.{Json}
use opencode_master.Journal.History.{find_field}

pub record MasterClientOptions : Type 0 where
  pub base_url : String
  pub token : String

-- The arguments of `request`. The path is kept in two parts: the path of the URL, and its query.
pub record Call : Type 0 where
  pub method : String
  pub path : String
  pub query : String
  pub body : Option Json

-- What `fetch` is given.
pub record Sent : Type 0 where
  pub method : String
  pub url : String
  pub authorization : String
  pub content_type : Option String
  pub body : Option Json

-- An answer, with its body if it is JSON.
pub record Received : Type 0 where
  pub status : ℕ
  pub status_text : String
  pub content : Option Json

pub record MasterClientError : Type 0 where
  pub status : ℕ
  pub code : String
  pub message : String

-- What a method returns, or throws: an error of the master, of the reading of JSON, or of `fetch`.
pub data Answer : Type 0 where
  got : Option Json → Answer
  refused : MasterClientError → Answer
  malformed unreached : Answer

-- A field of the declared type `string`, or none if it is missing.
abbrev text_of : Option Json → Option String
text_of (some (Json.str s)) = some s
text_of _ = none

-- `payload.error?.` with a field of it. A text has no such field; `null` as the payload throws, which
-- leaves both defaults too.
abbrev field_of : String → Option Json → Option Json
field_of name (some (Json.obj fields)) = find_field name fields
field_of name _ = none

abbrev error_field : String → Received → Option String
error_field name reply = text_of (field_of name (field_of "error" reply.content))

abbrev error_of : Received → MasterClientError
error_of reply = record {
  status = reply.status;
  code = or_else (error_field "code" reply) "ERROR";
  message = or_else (error_field "message" reply) reply.status_text;
}

abbrev content_of : Option Json → Answer
content_of none = malformed
content_of (some json) = got (some json)

-- What `request` makes of an answer.
unfoldable pub read_answer : Received → Answer
read_answer reply =
    if is_success reply.status
    then (if eqb reply.status 204 then got none else content_of reply.content)
    else refused (error_of reply)

abbrev content_type_of : Option Json → Option String
content_type_of none = none
content_type_of (some _) = some "application/json"

abbrev sent_of : MasterClientOptions → Call → Sent
sent_of options call = record {
  method = call.method;
  url = template (strip_end b'/' options.base_url ∷ call.path ∷ call.query ∷ []);
  authorization = template ("Bearer " ∷ options.token ∷ []);
  content_type = content_type_of call.body;
  body = call.body;
}

unfoldable pub request : (Sent → Option Received) → MasterClientOptions → Call → Answer
request fetch options call = elim (fetch (sent_of options call)) [
  | none ↦ unreached
  | some reply ↦ read_answer reply
]

-- The requests of the methods.
abbrev call_of : String → String → String → Option Json → Call
call_of method path query body = record { method = method; path = path; query = query; body = body }

abbrev pub token : Json → Call
token input = call_of "POST" "/api/v1/auth/token" "" (some input)

abbrev pub create_session : Json → Call
create_session input = call_of "POST" "/api/v1/sessions" "" (some input)

abbrev user_query : (String → String) → Option String → String
user_query encode none = ""
user_query encode (some name) = if name == "" then "" else template ("?user=" ∷ encode name ∷ [])

abbrev pub list_sessions : (String → String) → Option String → Call
list_sessions encode name = call_of "GET" "/api/v1/sessions" (user_query encode name) none

abbrev pub get_session : String → Call
get_session id = call_of "GET" (template ("/api/v1/sessions/" ∷ id ∷ [])) "" none

abbrev pub prompt : String → Json → Call
prompt id input =
    call_of "POST" (template ("/api/v1/sessions/" ∷ id ∷ "/prompt" ∷ [])) "" (some input)

abbrev pub control : String → Json → Call
control id input =
    call_of "POST" (template ("/api/v1/sessions/" ∷ id ∷ "/control" ∷ [])) "" (some input)

abbrev pub end_session : String → Call
end_session id = call_of "POST" (template ("/api/v1/sessions/" ∷ id ∷ "/end" ∷ [])) "" none

-- The request of `stream`, which is sent without a body. An absent `after` is -1.
abbrev after_text : Option ℕ → String
after_text none = "-1"
after_text (some after) = decimal after

abbrev pub stream : String → Option ℕ → Call
stream id after =
    call_of "GET" (template ("/api/v1/sessions/" ∷ id ∷ "/events" ∷ []))
      (template ("?after=" ∷ after_text after ∷ [])) none
