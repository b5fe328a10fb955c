-- ===== src/Http/Routes/Table.antt =====
-- src/http/server.ts: the table of `buildRoutes`, in the order in which its routes are added. A route's
-- handler is the number of its endpoint.
use opencode_master.Base.{
  ℕ, String, Option, some, List, [], ◌∷◌, ◌≡◌, refl, arith, split, suc, starts_with, text_dec,
  Bool-cases, none,
}
use opencode_master.Router.{Route, routed, add, route, match}
use opencode_master.Http.Routes.{Endpoint}

abbrev add_all : List (String × String) → ℕ → List Route → List Route
add_all [] number routes = routes
add_all ((method, path) ∷ rows) number routes =
    add_all rows (suc number) (add routes method path number)

abbrev rows : List (String × String)
rows =
    ("GET", "/healthz")
    ∷ ("GET", "/")
    ∷ ("POST", "/api/v1/auth/token")
    ∷ ("POST", "/api/v1/workers/register")
    ∷ ("POST", "/api/v1/workers/:id/heartbeat")
    ∷ ("POST", "/api/v1/workers/:id/events")
    ∷ ("GET", "/api/v1/admin/workers")
    ∷ ("GET", "/api/v1/admin/sessions")
    ∷ ("POST", "/api/v1/admin/sweep")
    ∷ ("POST", "/api/v1/sessions")
    ∷ ("GET", "/api/v1/sessions")
    ∷ ("GET", "/api/v1/sessions/:id")
    ∷ ("GET", "/api/v1/sessions/:id/messages")
    ∷ ("POST", "/api/v1/sessions/:id/prompt")
    ∷ ("POST", "/api/v1/sessions/:id/control")
    ∷ ("POST", "/api/v1/sessions/:id/end")
    ∷ ("POST", "/api/v1/sessions/:id/stop")
    ∷ ("GET", "/api/v1/sessions/:id/events")
    ∷ ("GET", "/api/v1/status")
    ∷ ("GET", "/api/v1/nodes")
    ∷ ("POST", "/api/v1/auth/apikeys")
    ∷ ("GET", "/api/v1/auth/me")
    ∷ ("PATCH", "/api/v1/sessions/:id")
    ∷ ("DELETE", "/api/v1/sessions/:id")
    ∷ ("POST", "/api/v1/schedules/trigger")
    ∷ ("GET", "/api/v1/sessions/:id/status")
    ∷ []

unfoldable pub routes : List Route
unfolding add
routes = add_all rows 0 []

-- The number of the route that is meant for an endpoint.
abbrev pub number_of : Endpoint → ℕ
number_of Endpoint.health = 0
number_of Endpoint.console = 1
number_of (Endpoint.token _) = 2
number_of (Endpoint.registration _) = 3
number_of (Endpoint.beats _ _) = 4
number_of (Endpoint.reports _ _ _) = 5
number_of Endpoint.all_workers = 6
number_of Endpoint.every_session = 7
number_of Endpoint.sweeps = 8
number_of (Endpoint.new_session _ _) = 9
number_of (Endpoint.own_sessions _) = 10
number_of (Endpoint.one_session _) = 11
number_of (Endpoint.messages_of _) = 12
number_of (Endpoint.sends _ _ _) = 13
number_of (Endpoint.controls _ _) = 14
number_of (Endpoint.ends _) = 15
number_of (Endpoint.stops _) = 16
number_of (Endpoint.streams _ _ _ _) = 17
number_of Endpoint.availability = 18
number_of Endpoint.node_list = 19
number_of (Endpoint.new_key _ _ _) = 20
number_of Endpoint.me = 21
number_of (Endpoint.renames _ _) = 22
number_of (Endpoint.deletes _) = 23
number_of (Endpoint.triggers _ _) = 24
number_of (Endpoint.status_of _) = 25

-- The method of an endpoint and the parts of its path, where the part `p` of the path stands for the
-- id of the endpoint, and the parameters that its route is to find.
abbrev method_of : Endpoint → String
method_of Endpoint.health = "GET"
method_of Endpoint.console = "GET"
method_of Endpoint.me = "GET"
method_of Endpoint.all_workers = "GET"
method_of Endpoint.every_session = "GET"
method_of Endpoint.availability = "GET"
method_of Endpoint.node_list = "GET"
method_of (Endpoint.own_sessions _) = "GET"
method_of (Endpoint.one_session _) = "GET"
method_of (Endpoint.messages_of _) = "GET"
method_of (Endpoint.status_of _) = "GET"
method_of (Endpoint.streams _ _ _ _) = "GET"
method_of (Endpoint.renames _ _) = "PATCH"
method_of (Endpoint.deletes _) = "DELETE"
method_of _ = "POST"

abbrev pub path_of : String → Endpoint → List String
path_of p Endpoint.health = "healthz" ∷ []
path_of p Endpoint.console = []
path_of p (Endpoint.token _) = "api" ∷ "v1" ∷ "auth" ∷ "token" ∷ []
path_of p (Endpoint.registration _) = "api" ∷ "v1" ∷ "workers" ∷ "register" ∷ []
path_of p (Endpoint.beats _ _) = "api" ∷ "v1" ∷ "workers" ∷ p ∷ "heartbeat" ∷ []
path_of p (Endpoint.reports _ _ _) = "api" ∷ "v1" ∷ "workers" ∷ p ∷ "events" ∷ []
path_of p Endpoint.all_workers = "api" ∷ "v1" ∷ "admin" ∷ "workers" ∷ []
path_of p Endpoint.every_session = "api" ∷ "v1" ∷ "admin" ∷ "sessions" ∷ []
path_of p Endpoint.sweeps = "api" ∷ "v1" ∷ "admin" ∷ "sweep" ∷ []
path_of p (Endpoint.new_session _ _) = "api" ∷ "v1" ∷ "sessions" ∷ []
path_of p (Endpoint.own_sessions _) = "api" ∷ "v1" ∷ "sessions" ∷ []
path_of p (Endpoint.one_session _) = "api" ∷ "v1" ∷ "sessions" ∷ p ∷ []
path_of p (Endpoint.messages_of _) = "api" ∷ "v1" ∷ "sessions" ∷ p ∷ "messages" ∷ []
path_of p (Endpoint.sends _ _ _) = "api" ∷ "v1" ∷ "sessions" ∷ p ∷ "prompt" ∷ []
path_of p (Endpoint.controls _ _) = "api" ∷ "v1" ∷ "sessions" ∷ p ∷ "control" ∷ []
path_of p (Endpoint.ends _) = "api" ∷ "v1" ∷ "sessions" ∷ p ∷ "end" ∷ []
path_of p (Endpoint.stops _) = "api" ∷ "v1" ∷ "sessions" ∷ p ∷ "stop" ∷ []
path_of p (Endpoint.streams _ _ _ _) = "api" ∷ "v1" ∷ "sessions" ∷ p ∷ "events" ∷ []
path_of p Endpoint.availability = "api" ∷ "v1" ∷ "status" ∷ []
path_of p Endpoint.node_list = "api" ∷ "v1" ∷ "nodes" ∷ []
path_of p (Endpoint.new_key _ _ _) = "api" ∷ "v1" ∷ "auth" ∷ "apikeys" ∷ []
path_of p Endpoint.me = "api" ∷ "v1" ∷ "auth" ∷ "me" ∷ []
path_of p (Endpoint.renames _ _) = "api" ∷ "v1" ∷ "sessions" ∷ p ∷ []
path_of p (Endpoint.deletes _) = "api" ∷ "v1" ∷ "sessions" ∷ p ∷ []
path_of p (Endpoint.triggers _ _) = "api" ∷ "v1" ∷ "schedules" ∷ "trigger" ∷ []
path_of p (Endpoint.status_of _) = "api" ∷ "v1" ∷ "sessions" ∷ p ∷ "status" ∷ []

abbrev pub id_of : Endpoint → Option String
id_of (Endpoint.beats id _) = some id
id_of (Endpoint.reports id _ _) = some id
id_of (Endpoint.one_session id) = some id
id_of (Endpoint.messages_of id) = some id
id_of (Endpoint.sends id _ _) = some id
id_of (Endpoint.controls id _) = some id
id_of (Endpoint.ends id) = some id
id_of (Endpoint.stops id) = some id
id_of (Endpoint.streams id _ _ _) = some id
id_of (Endpoint.renames id _) = some id
id_of (Endpoint.deletes id) = some id
id_of (Endpoint.status_of id) = some id
id_of _ = none

abbrev pub params_of : Option String → List (String × String)
params_of none = []
params_of (some id) = ("id", id) ∷ []

-- A part that stands for the id of an endpoint.
abbrev Stands : (String → Option String) → String → Option String → Type 0
Stands decode p none = Unit
Stands decode p (some id) = decode p ≡ some id

module _ (decode : String → Option String) (p : String) where
  -- With the table of `buildRoutes`, a request with the method and the path of an endpoint is routed
  -- to its handler, with its id as the parameter `id` where it has one, if the part `p` of the path
  -- decodes to the id: no route that was added before takes the request.
  pub route-routes :
      (e : Endpoint)
      → Stands decode p (id_of e)
      → route decode routes (method_of e) (path_of p e) ≡ routed (number_of e) (params_of (id_of e))
  unfolding route match routes split starts_with text_dec Bool-cases
  route-routes Endpoint.health h = refl
  route-routes Endpoint.console h = refl
  route-routes Endpoint.me h = refl
  route-routes Endpoint.all_workers h = refl
  route-routes Endpoint.every_session h = refl
  route-routes Endpoint.availability h = refl
  route-routes Endpoint.node_list h = refl
  route-routes (Endpoint.token _) h = refl
  route-routes (Endpoint.registration _) h = refl
  route-routes Endpoint.sweeps h = refl
  route-routes (Endpoint.new_session _ _) h = refl
  route-routes (Endpoint.own_sessions _) h = refl
  route-routes (Endpoint.new_key _ _ _) h = refl
  route-routes (Endpoint.triggers _ _) h = refl
  route-routes (Endpoint.beats id _) h = ground (arith, h)
  route-routes (Endpoint.reports id _ _) h = ground (arith, h)
  route-routes (Endpoint.one_session id) h = ground (arith, h)
  route-routes (Endpoint.messages_of id) h = ground (arith, h)
  route-routes (Endpoint.sends id _ _) h = ground (arith, h)
  route-routes (Endpoint.controls id _) h = ground (arith, h)
  route-routes (Endpoint.ends id) h = ground (arith, h)
  route-routes (Endpoint.stops id) h = ground (arith, h)
  route-routes (Endpoint.streams id _ _ _) h = ground (arith, h)
  route-routes (Endpoint.renames id _) h = ground (arith, h)
  route-routes (Endpoint.deletes id) h = ground (arith, h)
  route-routes (Endpoint.status_of id) h = ground (arith, h)
