-- ===== src/Client/Calls.antt =====
-- src/client.ts, src/http/router.ts and src/http/server.ts: where the requests of the client are routed.
use Prim.Native.String
use Prim.Native.String.{String}
use text.Mathlib.TextLemmas.{append-nil as text_append-nil, nil-append}
use opencode_master.Base.{
  ap, ◌∙◌, Option, none, some, false, List, [], ◌∷◌, ◌≡◌, ℕ, refl, HasNo, split, split_at,
  split_at-append, split_at-whole, glue, not, select, ◌==◌, if◌then◌else◌, text_dec, Bool-cases,
}
use opencode_master.Types.{Json}
use opencode_master.Sessions.{Fresh}
use opencode_master.Http.Accounts.{TokenBody}
use opencode_master.Http.Directory.{Position, SessionBody}
use opencode_master.Http.Prompts.{PromptBody, PromptFresh}
use opencode_master.Router.{route, routed, parts_of}
use opencode_master.Http.Routes.{Endpoint}
use opencode_master.Http.Routes.Table.{routes, id_of, number_of, params_of, route-routes}
use opencode_master.Client.{
  Call, token, create_session, list_sessions, get_session, prompt, control, end_session, stream,
}

-- The endpoint that a request of the client is meant for, with any body on either side.
pub data IsFor (encode : String → String) : Endpoint → Call → Type 0 where
  for_token :
      (input : Json) (body : Option TokenBody) → IsFor encode (Endpoint.token body) (token input)
  for_session :
      (input : Json) (body : Option SessionBody) (fresh : Fresh)
      → IsFor encode (Endpoint.new_session body fresh) (create_session input)
  for_list :
      (name : Option String) → IsFor encode (Endpoint.own_sessions name) (list_sessions encode name)
  for_one : (id : String) → IsFor encode (Endpoint.one_session id) (get_session id)
  for_prompt :
      (id : String) (input : Json) (body : Option PromptBody) (fresh : PromptFresh)
      → IsFor encode (Endpoint.sends id body fresh) (prompt id input)
  for_control :
      (id : String) (input : Json) (body : Option Json)
      → IsFor encode (Endpoint.controls id body) (control id input)
  for_end : (id : String) → IsFor encode (Endpoint.ends id) (end_session id)
  for_stream :
      (id listener : String) (last after : Option Position) (seq : Option ℕ)
      → IsFor encode (Endpoint.streams id listener last after) (stream id seq)

-- An id that is one part of a path and stands for itself in it.
abbrev IsPart : (String → Option String) → Option String → Type 0
IsPart decode none = Unit
IsPart decode (some id) = HasNo b'/' id × ((id == "") ≡ false) × (decode id ≡ some id)

parts-sub :
    (id rest : String) (parts : List String)
    → HasNo b'/' id
    → (id == "") ≡ false
    → split_at b'/' rest ≡ ("", parts)
    → parts_of (String.◌++◌ "/api/v1/sessions/" (String.◌++◌ id rest))
      ≡ "api" ∷ "v1" ∷ "sessions" ∷ id ∷ select (λ part. not (part == "")) parts
unfolding split split_at text_dec Bool-cases
parts-sub id rest parts h filled e =
    ap (λ (k : String × List String). select (λ part. not (part == "")) (k.0 ∷ k.1))
      (split_at-append b'/' "/api/v1/sessions/" (String.◌++◌ id rest)
        ∙ ap (glue ("", "api" ∷ "v1" ∷ "sessions" ∷ "" ∷ [])) (
            split_at-append b'/' id rest
            ∙ ap (λ k. glue k (split_at b'/' rest)) (split_at-whole b'/' id h)
            ∙ ap (glue (id, [])) e))
    ∙ ap (λ t. select (λ part. not (part == "")) ("" ∷ "api" ∷ "v1" ∷ "sessions" ∷ t ∷ parts))
        (nil-append (String.◌++◌ id "") ∙ text_append-nil id)
    ∙ ap
        (λ b.
          let rest = select (λ part. not (part == "")) parts in
          "api" ∷ "v1" ∷ "sessions" ∷ (if not b then id ∷ rest else rest))
        filled

module _ (encode : String → String) (decode : String → Option String) where
  -- Each request of the client, its path taken as it is, is routed by the master's table to the row of
  -- the endpoint that is meant, with the session's id as its parameter where it has one, if the id is
  -- not empty, has no slash, and stands for itself in a path.
  pub route-call :
      (e : Endpoint) (call : Call)
      → IsFor encode e call
      → IsPart decode (id_of e)
      → route decode routes call.method (parts_of call.path)
        ≡ routed (number_of e) (params_of (id_of e))
  unfolding split split_at text_dec Bool-cases
  route-call e call (for_token input body) k = route-routes decode "" e tt
  route-call e call (for_session input body fresh) k = route-routes decode "" e tt
  route-call e call (for_list name) k = route-routes decode "" e tt
  route-call e call (for_one id) (h, filled, d) =
      ap (route decode routes "GET") (parts-sub id "" [] h filled refl) ∙ route-routes decode id e d
  route-call e call (for_prompt id input body fresh) (h, filled, d) =
      ap (route decode routes "POST") (parts-sub id "/prompt" ("prompt" ∷ []) h filled refl)
      ∙ route-routes decode id e d
  route-call e call (for_control id input body) (h, filled, d) =
      ap (route decode routes "POST") (parts-sub id "/control" ("control" ∷ []) h filled refl)
      ∙ route-routes decode id e d
  route-call e call (for_end id) (h, filled, d) =
      ap (route decode routes "POST") (parts-sub id "/end" ("end" ∷ []) h filled refl)
      ∙ route-routes decode id e d
  route-call e call (for_stream id listener last after seq) (h, filled, d) =
      ap (route decode routes "GET") (parts-sub id "/events" ("events" ∷ []) h filled refl)
      ∙ route-routes decode id e d
