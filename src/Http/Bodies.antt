-- ===== src/Http/Bodies.antt =====
-- src/http/server.ts: the paths and the bodies of the requests that the master sends to a worker.
use opencode_master.Base.{ℕ, String, List, [], ◌∷◌, template}
use opencode_master.Types.{Json, Items, Fields, HistoryItem}
use opencode_master.Gateway.{optional_field}
use opencode_master.Gateway.Calls.{role_text}
use opencode_master.Identity.Tokens.{set_field}

abbrev pub prompt_path : String → String
prompt_path id = template ("/sessions/" ∷ id ∷ "/prompt" ∷ [])

abbrev pub control_path : String → String
control_path id = template ("/sessions/" ∷ id ∷ "/control" ∷ [])

abbrev history_json : HistoryItem → Json
history_json item = Json.obj (
    optional_field "id" item.id (
      Fields.field "role" (Json.str (role_text item.role)) (
        Fields.field "content" (Json.str item.content) (
          optional_field "name" item.name (optional_field "reasoning" item.reasoning Fields.end)))))

unfoldable pub history_items : List HistoryItem → Items
history_items [] = Items.nil
history_items (item ∷ items) = Items.cons (history_json item) (history_items items)

abbrev pub prompt_body : String → String → String → ℕ → List HistoryItem → Json
prompt_body content workspace_id turn_id lease_epoch prior = Json.obj (
    Fields.field "content" (Json.str content) (
      Fields.field "workspaceID" (Json.str workspace_id) (
        Fields.field "turnID" (Json.str turn_id) (
          Fields.field "leaseEpoch" (Json.num lease_epoch)
            (Fields.field "history" (Json.arr (history_items prior)) Fields.end)))))

-- `...body`: what is not an object is sent without fields of its own.
abbrev spread : Json → Fields
spread (Json.obj fields) = fields
spread _ = Fields.end

abbrev pub control_body : Json → String → String → ℕ → Json
control_body body workspace_id turn_id lease_epoch = Json.obj (
    set_field "leaseEpoch" (Json.num lease_epoch) (
      set_field "turnID" (Json.str turn_id)
        (set_field "workspaceID" (Json.str workspace_id) (spread body))))
