-- ===== src/Db/Models.antt =====
-- The ORM classes of backend/app/db/models: one record for each table row, one field for each
-- column, but for `created_at` and `updated_at` where only the server's defaults fill them.
-- A UUID and a time are numbers; a role and a status are the texts that the columns hold.
use atlascore.Base.{ℕ, Bool, String, List, Option}

-- models/user.py
pub record User : Type 0 where
  pub id : ℕ
  pub email : String
  pub email_verified : Bool
  pub full_name : String
  pub password_hash : String
  pub pepper_version : ℕ
  pub is_active : Bool
  pub is_platform_admin : Bool
  pub last_login_at : Option ℕ

-- models/organisation.py
pub record Organisation : Type 0 where
  pub id : ℕ
  pub slug : String
  pub display_name : String
  pub is_active : Bool

-- models/membership.py
pub record OrganisationMembership : Type 0 where
  pub id : ℕ
  pub organisation_id : ℕ
  pub user_id : ℕ
  pub org_role : Option String

pub record WorkspaceMembership : Type 0 where
  pub id : ℕ
  pub workspace_id : ℕ
  pub organisation_id : ℕ
  pub user_id : ℕ
  pub workspace_role : String

-- models/workspace.py
pub record Workspace : Type 0 where
  pub id : ℕ
  pub organisation_id : ℕ
  pub slug : String
  pub display_name : String
  pub description : Option String
  pub is_active : Bool

-- models/auth.py
pub record PreAuthSession : Type 0 where
  pub id : ℕ
  pub user_id : ℕ
  pub token_hash : String
  pub expires_at : ℕ
  pub consumed_at : Option ℕ
  pub client_ip : Option String
  pub user_agent : Option String

pub record RefreshToken : Type 0 where
  pub id : ℕ
  pub user_id : ℕ
  pub organisation_id : ℕ
  pub family_id : ℕ
  pub jti : ℕ
  pub token_hash : String
  pub is_active : Bool
  pub expires_at : ℕ
  pub revoked_at : Option ℕ
  pub family_revoked_at : Option ℕ
  pub client_ip : Option String

-- models/invitation.py; `updated_at` is `none` while it holds the server's default
pub record Invitation : Type 0 where
  pub id : ℕ
  pub organisation_id : ℕ
  pub workspace_id : Option ℕ
  pub invited_email : String
  pub org_role : Option String
  pub workspace_role : Option String
  pub token_hash : String
  pub created_by_user_id : Option ℕ
  pub expires_at : ℕ
  pub accepted_at : Option ℕ
  pub revoked_at : Option ℕ
  pub updated_at : Option ℕ

-- models/service_account.py
pub record ServiceAccount : Type 0 where
  pub id : ℕ
  pub organisation_id : ℕ
  pub workspace_id : Option ℕ
  pub name : String
  pub description : Option String
  pub is_active : Bool
  pub created_by_user_id : Option ℕ
  pub updated_at : Option ℕ
  pub disabled_at : Option ℕ
  pub last_used_at : Option ℕ

pub record ApiKey : Type 0 where
  pub id : ℕ
  pub service_account_id : ℕ
  pub organisation_id : ℕ
  pub workspace_id : Option ℕ
  pub name : String
  pub key_prefix : String
  pub secret_hash : String
  pub scopes : List String
  pub expires_at : Option ℕ
  pub last_used_at : Option ℕ
  pub revoked_at : Option ℕ

-- A value of an audit event's `event_data`: a JSON value, which may hold others.
mutual
  pub data Value : Type 0 where
    null : Value
    text : String → Value
    uuid : ℕ → Value
    flag : Bool → Value
    number : ℕ → Value
    items : Values → Value
    fields : Fields → Value

  pub data Values : Type 0 where
    no_values : Values
    item : Value → Values → Values

  pub data Fields : Type 0 where
    no_fields : Fields
    field : String → Value → Fields → Fields

-- models/audit.py
pub record AuditEvent : Type 0 where
  pub organisation_id : Option ℕ
  pub actor_user_id : Option ℕ
  pub event_type : String
  pub event_data : List (String × Value)
  pub request_id : Option String
  pub client_ip : Option String
  pub outcome : String
