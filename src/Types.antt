-- ===== src/Types.antt =====
-- src/types.ts and the rows of src/db/schema.ts: the domain types and the tables' rows. A column
-- that may be NULL is an `Option`; identifiers are texts; times are in milliseconds. The load and
-- the capacity of a worker are whole numbers, and `unknown` JSON values are `Json`.
use opencode_master.Base.{ℕ, String, Option, Bool}

mutual
  pub data Json : Type 0 where
    null : Json
    bool : Bool → Json
    num : ℕ → Json
    str : String → Json
    arr : Items → Json
    obj : Fields → Json

  pub data Items : Type 0 where
    nil : Items
    cons : Json → Items → Items

  pub data Fields : Type 0 where
    end : Fields
    field : String → Json → Fields → Fields

pub data WorkerStatus : Type 0 where
  ok draining unhealthy : WorkerStatus

pub record WorkerLoad : Type 0 where
  pub cpu_pct : ℕ
  pub mem_pct : ℕ
  pub active_drains : ℕ
  pub pending_steer : ℕ
  pub pending_queue : ℕ
  pub tool_processes : ℕ

pub record WorkerCapacity : Type 0 where
  pub max_drains : Option ℕ
  pub max_sessions : Option ℕ

-- A row of `workers`, and the `WorkerView` that has the same content.
pub record WorkerRow : Type 0 where
  pub id : String
  pub address : String
  pub region : Option String
  pub version : Option String
  pub config_version : Option String
  pub status : WorkerStatus
  pub capacity : WorkerCapacity
  pub load : WorkerLoad
  pub last_heartbeat_at : Option ℕ
  pub first_seen_at : ℕ

pub data Instruction : Type 0 where
  none drain shutdown : Instruction
  warp_session : String → Instruction
  resume_session : Option String → String → String → Json → Instruction

pub data SessionStatus : Type 0 where
  pending assigned running waiting_input resuming recovering ended : SessionStatus

-- A row of `sessions`, and the `SessionRow` of src/types.ts.
pub record SessionRow : Type 0 where
  pub id : String
  pub user_id : String
  pub tenant_id : String
  pub title : String
  pub workspace_id : Option String
  pub directory : Option String
  pub status : SessionStatus
  pub owner_worker_id : Option String
  pub lease_epoch : ℕ
  pub created_at : ℕ
  pub updated_at : ℕ
  pub ended_at : Option ℕ

pub record WorkspaceRow : Type 0 where
  pub id : String
  pub user_id : String
  pub tenant_id : String
  pub path : String
  pub created_at : ℕ
  pub updated_at : ℕ

pub data TurnStatus : Type 0 where
  pending leased completed failed : TurnStatus

-- A row of `turns`, and the `TurnRow` of src/types.ts.
pub record TurnRow : Type 0 where
  pub id : String
  pub session_id : String
  pub user_id : String
  pub content : String
  pub client_key : String
  pub status : TurnStatus
  pub lease_epoch : ℕ
  pub assigned_worker_id : String
  pub error_message : Option String
  pub created_at : ℕ
  pub updated_at : ℕ
  pub completed_at : Option ℕ

-- A row of `session_events`, and the `MasterEvent` of src/types.ts with its `seq` as a number.
pub record EventRow : Type 0 where
  pub id : String
  pub session_id : String
  pub tenant_id : String
  pub turn_id : String
  pub worker_id : String
  pub lease_epoch : ℕ
  pub seq : ℕ
  pub source_id : String
  pub type : String
  pub payload : Json
  pub received_at : ℕ

pub data HistoryRole : Type 0 where
  user assistant tool : HistoryRole

pub record HistoryItem : Type 0 where
  pub id : Option String
  pub role : HistoryRole
  pub content : String
  pub name : Option String
  pub reasoning : Option String

pub data Role : Type 0 where
  admin user worker slave : Role

pub record AuthContext : Type 0 where
  pub sub : String
  pub tenant : String
  pub role : Role

-- The error classes that the services throw.
pub data Error : Type 0 where
  quota_exceeded : String → ℕ → Error
  no_worker_available : Error
  session_not_found : String → Error
  unknown_worker : String → Error
  active_turn : String → Error
  stale_turn_lease : String → Error
  syntax_error : Error
  internal : String → Error

-- What an operation returns or throws.
pub data Result {ℓ} (A : Type ℓ) : Type ℓ where
  returns : A → Result A
  throws : Error → Result A
