-- ===== src/Store/Content.antt =====
-- The rows of backend/app/models/entities.py that belong to a user's connections and projects. An
-- instant is a number of microseconds. The order of a table's list is that of the rows' creation.
use relay.Prelude.{ℕ, ◌==◌, Bool, Option, String, List}
use relay.Json.{Json}

-- `Provider` and `ConnectionStatus` of backend/app/domain/enums.py
pub data Provider : Type 0 where
  google notion github : Provider

pub data ConnectionStatus : Type 0 where
  connected expired revoked error : ConnectionStatus

abbrev provider_position : Provider → ℕ
provider_position Provider.google = 0
provider_position Provider.notion = 1
provider_position Provider.github = 2

abbrev connection_position : ConnectionStatus → ℕ
connection_position ConnectionStatus.connected = 0
connection_position ConnectionStatus.expired = 1
connection_position ConnectionStatus.revoked = 2
connection_position ConnectionStatus.error = 3

abbrev pub is_provider : Provider → Provider → Bool
is_provider a b = provider_position a == provider_position b

abbrev pub is_connection : ConnectionStatus → ConnectionStatus → Bool
is_connection a b = connection_position a == connection_position b

pub record ConnectedAccount : Type 0 where
  pub id : ℕ
  pub user_id : ℕ
  pub provider : Provider
  pub external_account_id : String
  pub display_name : String
  pub access_token_encrypted : Option String
  pub refresh_token_encrypted : Option String
  pub token_expires_at : Option ℕ
  pub scopes : List String
  pub status : ConnectionStatus

pub data Space : Type 0 where
  school work personal : Space

pub record ProjectWorkspace : Type 0 where
  pub id : ℕ
  pub user_id : ℕ
  pub name : String
  pub space : Space
  pub description : Option String
  pub deadline : Option ℕ
  pub course : Option String
  pub notion_database_id : Option String
  pub notion_property_mapping : Option Json
  pub github_repository_owner : Option String
  pub github_repository_name : Option String

pub record ProjectMember : Type 0 where
  pub id : ℕ
  pub project_workspace_id : ℕ
  pub display_name : String
  pub email : Option String
  pub notion_identity : Option String
  pub github_username : Option String

pub record ProjectSource : Type 0 where
  pub id : ℕ
  pub user_id : ℕ
  pub project_workspace_id : ℕ
  pub source_type : String
  pub title : String
  pub original_filename : Option String
  pub content : String
  pub status : String
  pub error_message : Option String

pub record ProjectTask : Type 0 where
  pub id : ℕ
  pub user_id : ℕ
  pub project_workspace_id : ℕ
  pub title : String
  pub description : Option String
  pub due_date : Option ℕ
  pub estimate_minutes : Option ℕ
  pub priority : Option String
  pub status : String
  pub source_id : Option ℕ
  pub source_reference : Option String
  pub proposed_action_id : Option ℕ

pub record SourceDocument : Type 0 where
  pub id : ℕ
  pub workflow_run_id : ℕ
