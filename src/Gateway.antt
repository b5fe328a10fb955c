-- ===== src/Gateway.antt =====
-- src/services/opencode-gateway.ts: what the bridge to a native opencode reads and returns.
mod Tests
pub mod Messages
pub mod Frames
pub mod Native
pub mod Calls
use opencode_master.Base.{String, Option, none, some, List, Bool}
use opencode_master.Types.{Json, Fields}

-- `role` is `assistant` or `tool`.
pub record GatewayMessage : Type 0 where
  pub role : String
  pub content : Option String
  pub reasoning : Option String
  pub source_id : Option String
  pub name : Option String

pub record Interaction : Type 0 where
  pub id : String
  pub request : Json

pub record RunResult : Type 0 where
  pub messages : List GatewayMessage
  pub interaction : Option Interaction
  pub is_completed : Bool

-- How a run ends: with a result, or with the message of an error.
pub data Outcome : Type 0 where
  resulted : RunResult → Outcome
  failed : String → Outcome

pub data DeltaKind : Type 0 where
  text reasoning : DeltaKind

pub record Delta : Type 0 where
  pub kind : DeltaKind
  pub delta : String

-- A field that is left out of a printed object where it is undefined.
abbrev pub optional_field : String → Option String → Fields → Fields
optional_field name none fields = fields
optional_field name (some s) fields = Fields.field name (Json.str s) fields

abbrev pub message_json : GatewayMessage → Json
message_json message = Json.obj (
    Fields.field "role" (Json.str message.role) (
      optional_field "content" message.content (
        optional_field "reasoning" message.reasoning (
          optional_field "sourceID" message.source_id
            (optional_field "name" message.name Fields.end)))))

abbrev pub interaction_json : Interaction → Json
interaction_json interaction = Json.obj (
    Fields.field "id" (Json.str interaction.id) (
      Fields.field "type" (Json.str "input")
        (Fields.field "request" interaction.request Fields.end)))
