-- ===== src/Http/Directory.antt =====
-- src/http/server.ts: the handlers of a user's sessions that send nothing to a worker, and the reads of
-- administrators.
use opencode_master.Base.{
  ℕ, String, Option, none, some, Bool, false, not, List, [], ◌∷◌, ◌++◌, if◌then◌else◌, ◌==◌, ◌&&◌,
  or_else, trim, length, contains, first_of_both,
}
use opencode_master.Types.{
  AuthContext, SessionRow, WorkerRow, TurnRow, TurnStatus, EventRow, returns,
}
use opencode_master.Config.{Config}
use opencode_master.Database.{Database}
use opencode_master.Registry
use opencode_master.Sessions
use opencode_master.Sessions.{
  create, update_title, end_session, CreateInput, Fresh, ListInput, status_text, is_ended,
}
use opencode_master.Turns
use opencode_master.Journal
use opencode_master.Journal.History.{history}
use opencode_master.Http.{
  Response, Action, answer, reads, calls, writes, read_json, json, api_error, workers, sessions,
  session, renamed, assignment, messages, ended, report, availability, stream, ◌>>=◌, ◌>>◌,
}
use opencode_master.Http.Access.{with_session, is_admin}

unfoldable pub list_workers : Action Response
list_workers = reads (λ db. json (workers (Registry.list db.registry)) 200)

abbrev everything : ListInput
everything = record { tenant_id = none; user_id = none; status = none }

unfoldable pub list_all_sessions : Action Response
list_all_sessions = reads (λ db. json (sessions (Sessions.list db everything)) 200)

pub record SessionBody : Type 0 where
  pub title : Option String
  pub directory : Option String

abbrev create_input : AuthContext → SessionBody → CreateInput
create_input auth body = record {
  tenant_id = auth.tenant;
  user_id = auth.sub;
  title = body.title;
  directory = body.directory;
}

abbrev assigned_answer : SessionRow × WorkerRow → Response
assigned_answer (row, worker) = json (assignment row worker) 201

unfoldable pub create_session : Config → AuthContext → Option SessionBody → Fresh → Action Response
create_session cfg auth text fresh = do
  body ← read_json text
  created ← calls (λ db. create db cfg (create_input auth body) fresh)
  answer (assigned_answer created)

-- An absent or empty `user` is no filter, but an empty one is passed on, and then not used either.
abbrev names_user : Option String → Bool
names_user none = false
names_user (some user) = not (user == "")

abbrev of_user : String → ListInput
of_user user = record { tenant_id = none; user_id = some user; status = none }

unfoldable pub list_sessions : AuthContext → Option String → Action Response
list_sessions auth user =
    if names_user user && not (is_admin auth.role)
    then answer (api_error 403 "FORBIDDEN" "only admins may filter by user")
    else reads (λ db. json (sessions (Sessions.list db (of_user (or_else user auth.sub)))) 200)

unfoldable pub get_session : String → AuthContext → Action Response
get_session id auth = with_session auth id (λ row worker. answer (json (session row) 200))

unfoldable pub list_messages : String → AuthContext → Action Response
list_messages id auth =
    with_session auth id (λ row worker. reads (λ db. json (messages (history db id)) 200))

-- A gateway is there where its address is given.
abbrev pub given : Option String → Bool
given none = false
given (some s) = not (s == "")

abbrev pub has_gateway : Config → Bool
has_gateway cfg = given cfg.opencode_base_url

-- `gateway?.abort(id)`: the session is to be aborted; what the native opencode answers is not used.
abbrev abort : Config → String → Action (Unit {0})
abort cfg id m = (
  record m {
    aborted =
        if has_gateway cfg && not (contains m.aborted id) then m.aborted ++ id ∷ [] else m.aborted;
  },
  returns tt,
)

abbrev ending : Config → String → ℕ → Action Response
ending cfg id now = do writes (λ db. end_session db id now); abort cfg id; answer (json ended 200)

unfoldable pub end : Config → String → AuthContext → ℕ → Action Response
end cfg id auth now = with_session auth id (λ row worker. ending cfg id now)

abbrev pub session_of : Option (SessionRow × Option WorkerRow) → Option SessionRow
session_of none = none
session_of (some (row, _)) = some row

abbrev renaming : String → String → ℕ → Action Response
renaming id title now = do
  writes (λ db. update_title db id title now)
  reads (λ db. json (renamed (session_of (Sessions.get db id))) 200)

abbrev rename_if_named : String → Option String → ℕ → Action Response
rename_if_named id title now =
    if trim (or_else title "") == ""
    then answer (api_error 400 "BAD_REQUEST" "title required")
    else renaming id (trim (or_else title "")) now

unfoldable pub rename_session : String → AuthContext → Option (Option String) → ℕ → Action Response
rename_session id auth text now =
    with_session auth id λ row worker. do title ← read_json text; rename_if_named id title now

abbrev latest_status : Option TurnRow → SessionRow → String
latest_status none row = status_text row.status
latest_status (some turn) row = elim turn.status [
  | TurnStatus.failed ↦ "error"
  | TurnStatus.completed ↦ "idle"
  | TurnStatus.pending ↦ status_text row.status
  | TurnStatus.leased ↦ status_text row.status
]

abbrev running_or : Option TurnRow → String → String
running_or none status = status
running_or (some _) status = "running"

abbrev exec_status : SessionRow → Option TurnRow → Option TurnRow → String
exec_status row active latest =
    if is_ended row.status then "ended" else running_or active (latest_status latest row)

unfoldable pub session_status : String → AuthContext → Action Response
session_status id auth = with_session auth id (λ row worker. reads (λ db.
    let active = Turns.active db id in
    let latest = Turns.latest db id in
    json
      (report (record {
        session = row;
        status = exec_status row active latest;
        active_turn = active;
        latest_turn = latest;
      }))
      200))

unfoldable pub status : Action Response
status = reads (λ db. json (availability (length (Registry.healthy_workers db.registry))) 200)

unfoldable pub nodes : Action Response
nodes = reads (λ db. json (workers (Registry.list db.registry)) 200)

-- A connection of a stream: the ids that were sent, and what was written. An event that was sent is
-- not sent again.
pub record Connection : Type 0 where
  pub sent : List String
  pub written : List EventRow

unfoldable pub send : Connection → EventRow → Connection
send c event =
    if contains c.sent event.id
    then c
    else record { sent = event.id ∷ c.sent; written = c.written ++ event ∷ [] }

unfoldable pub send_all : Connection → List EventRow → Connection
send_all c [] = c
send_all c (event ∷ events) = send_all (send c event) events

abbrev pub connected : Connection
connected = record { sent = []; written = [] }

-- What `Number` reads a text as: a whole number, or `NaN`, which is written to the database as null. No
-- event has a greater number than null.
pub data Position : Type 0 where
  number : ℕ → Position
  nan : Position

abbrev replayed : Database → String → Option Position → List EventRow
replayed db id none = Journal.replay db id none
replayed db id (some (number seq)) = Journal.replay db id (some seq)
replayed db id (some nan) = []

abbrev streaming : String → String → Option Position → Action Response
streaming id listener after m = (
  record m { listeners = Journal.subscribe m.listeners id listener },
  returns (json (stream ((send_all connected (replayed m.db id after)).written)) 200),
)

-- The replay and the events that come later go through `send`. The number of the last event is read
-- from the header, or else from the query.
unfoldable pub open_stream :
    String → AuthContext → String → Option Position → Option Position → Action Response
open_stream id auth listener last_event_id after =
    with_session auth id (λ row worker. streaming id listener (first_of_both last_event_id after))
