-- ===== src/Worker/Proxy/Requests.antt =====
-- src/http/server.ts and src/worker/proxy-server.ts: the requests that the master sends are taken.
use Prim.Native.String
use Prim.Native.String.{String}
use text.Mathlib.TextLemmas.{append-nil as text_append-nil, nil-append}
use opencode_master.Base.{
  ℕ, Option, none, some, true, false, List, [], ◌∷◌, ◌≡◌, ◌==◌, refl, ap, ◌∙◌, split, split_at,
  split_at-append, split_at-whole, glue, HasNo, trim, if◌then◌else◌, not, ◌&&◌, text_dec,
  Bool-cases,
}
use opencode_master.Types.{Json, Fields, HistoryItem}
use opencode_master.Http.Bodies.{prompt_path, prompt_body, history_items}
use opencode_master.Worker.Proxy.{
  ProxyRequest, Proxied, prompts, refuses, fetch, prompt, acted, matched_parts, prompt_with,
  lease_at,
}

pub split-action :
    (id action : String) (parts : List String)
    → HasNo b'/' id
    → split_at b'/' action ≡ ("", parts)
    → split b'/' (String.◌++◌ "/sessions/" (String.◌++◌ id action)) ≡ "" ∷ "sessions" ∷ id ∷ parts
unfolding split split_at
split-action id action parts h e =
    ap (λ (k : String × List String). k.0 ∷ k.1)
      (split_at-append b'/' "/sessions/" (String.◌++◌ id action)
        ∙ ap (glue ("", "sessions" ∷ "" ∷ [])) (
            split_at-append b'/' id action
            ∙ ap (λ k. glue k (split_at b'/' action)) (split_at-whole b'/' id h)
            ∙ ap (glue (id, [])) e))
    ∙ ap (λ t. "" ∷ "sessions" ∷ t ∷ parts) (nil-append (String.◌++◌ id "") ∙ text_append-nil id)

abbrev pub acted_at : ProxyRequest → Option (String × String) → Proxied
acted_at request o = elim o [ none ↦ refuses 404 | some (id, action) ↦ acted request id action ]

abbrev pub lease_of : Option String → ℕ → Option (String × ℕ)
lease_of o epoch = elim o [ none ↦ none | some turn_id ↦ some (turn_id, epoch) ]

-- The proxy of a worker takes the request that the master sends for a prompt: it passes on the content,
-- the workspace, the turn, its epoch and the history as the master has them. The request is authorized,
-- the session's id is not empty and has no slash, and neither the content nor the turn is blank.
pub fetch-prompt :
    (id content workspace_id turn_id : String) (lease_epoch : ℕ) (prior : List HistoryItem)
    (last : Option ℕ)
    → HasNo b'/' id
    → (id == "") ≡ false
    → (trim content == "") ≡ false
    → (turn_id == "") ≡ false
    → fetch (record {
      is_authorized = true;
      method = "POST";
      pathname = prompt_path id;
      last_event_id = last;
      body = some (prompt_body content workspace_id turn_id lease_epoch prior);
    })
      ≡ prompts (record {
        session_id = id;
        workspace_id = some workspace_id;
        content = content;
        turn_id = turn_id;
        lease_epoch = lease_epoch;
        history = history_items prior;
      })
unfolding fetch prompt split split_at text_dec Bool-cases
fetch-prompt id content workspace_id turn_id lease_epoch prior last h filled said named =
    let fields = Fields.field "content" (Json.str content) (
      Fields.field "workspaceID" (Json.str workspace_id) (
        Fields.field "turnID" (Json.str turn_id) (
          Fields.field "leaseEpoch" (Json.num lease_epoch)
            (Fields.field "history" (Json.arr (history_items prior)) Fields.end)))) in
    let request : ProxyRequest = record {
      is_authorized = true;
      method = "POST";
      pathname = prompt_path id;
      last_event_id = last;
      body = some (Json.obj fields);
    } in
    ap (acted_at request) (ap matched_parts (split-action id "/prompt" ("prompt" ∷ []) h refl))
    ∙ ap (λ b. acted_at request (if not b && true then some (id, "prompt") else none)) filled
    ∙ ap (λ b. prompt_with id fields (if b then none else some content) (lease_at fields)) said
    ∙ ap
        (λ b.
          prompt_with id fields (some content)
            (lease_of (if b then none else some turn_id) lease_epoch))
        named
