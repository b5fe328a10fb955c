-- ===== src/Database.antt =====
-- src/db/schema.ts: the tables of the master's database that the services of the master write, the
-- workers' table with the registry's queues among them.
use opencode_master.Base.{ℕ, String, Option, Bool, List}
use opencode_master.Types.{WorkspaceRow, SessionRow, TurnRow, EventRow}
use opencode_master.Registry.{Registry}

pub record TenantRow : Type 0 where
  pub id : String
  pub name : String
  pub created_at : ℕ

pub record UserRow : Type 0 where
  pub id : String
  pub tenant_id : String
  pub email : Option String
  pub created_at : ℕ

pub record ApiKeyRow : Type 0 where
  pub id : String
  pub user_id : String
  pub key_hash : String
  pub label : Option String
  pub revoked : Bool
  pub created_at : ℕ

pub record Database : Type 0 where
  pub tenants : List TenantRow
  pub users : List UserRow
  pub api_keys : List ApiKeyRow
  pub registry : Registry
  pub workspaces : List WorkspaceRow
  pub sessions : List SessionRow
  pub turns : List TurnRow
  pub session_events : List EventRow
