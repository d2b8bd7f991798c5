-- ===== src/Auth/Permissions.antt =====
-- auth/permissions.py: the roles, the permissions and the matrix between them.
pub mod Privilege
use atlascore.Base.{
  ℕ, String, Bool, true, false, ◌||◌, Option, none, some, List, [], ◌∷◌, map, contains,
}

pub data OrgRole : Type 0 where
  owner administrator workflow_builder analyst operator viewer auditor : OrgRole

pub data WorkspaceRole : Type 0 where
  administrator workflow_builder analyst operator viewer auditor : WorkspaceRole

pub data Permission : Type 0 where
  org_read org_update org_delete org_transfer_ownership org_member_invite org_member_remove :
      Permission
  org_member_role_change org_member_list workspace_create workspace_read workspace_update :
      Permission
  workspace_delete workspace_member_manage invitation_create invitation_revoke invitation_list :
      Permission
  team_create team_update team_delete team_read team_member_manage service_account_create :
      Permission
  service_account_manage service_account_read api_key_create api_key_revoke api_key_list :
      Permission
  audit_read analytics_query workflow_create workflow_run workflow_approve workflow_read :
      Permission
  knowledge_read knowledge_source_create knowledge_source_update knowledge_document_upload :
      Permission
  knowledge_document_archive knowledge_ingestion_retry : Permission

-- The values of the three `StrEnum`s.
unfoldable pub org_role_value : OrgRole → String
org_role_value OrgRole.owner = "owner"
org_role_value OrgRole.administrator = "administrator"
org_role_value OrgRole.workflow_builder = "workflow_builder"
org_role_value OrgRole.analyst = "analyst"
org_role_value OrgRole.operator = "operator"
org_role_value OrgRole.viewer = "viewer"
org_role_value OrgRole.auditor = "auditor"

unfoldable pub workspace_role_value : WorkspaceRole → String
workspace_role_value WorkspaceRole.administrator = "administrator"
workspace_role_value WorkspaceRole.workflow_builder = "workflow_builder"
workspace_role_value WorkspaceRole.analyst = "analyst"
workspace_role_value WorkspaceRole.operator = "operator"
workspace_role_value WorkspaceRole.viewer = "viewer"
workspace_role_value WorkspaceRole.auditor = "auditor"

unfoldable pub permission_value : Permission → String
permission_value org_read = "org:read"
permission_value org_update = "org:update"
permission_value org_delete = "org:delete"
permission_value org_transfer_ownership = "org:transfer_ownership"
permission_value org_member_invite = "org:member:invite"
permission_value org_member_remove = "org:member:remove"
permission_value org_member_role_change = "org:member:role_change"
permission_value org_member_list = "org:member:list"
permission_value workspace_create = "workspace:create"
permission_value workspace_read = "workspace:read"
permission_value workspace_update = "workspace:update"
permission_value workspace_delete = "workspace:delete"
permission_value workspace_member_manage = "workspace:member:manage"
permission_value invitation_create = "invitation:create"
permission_value invitation_revoke = "invitation:revoke"
permission_value invitation_list = "invitation:list"
permission_value team_create = "team:create"
permission_value team_update = "team:update"
permission_value team_delete = "team:delete"
permission_value team_read = "team:read"
permission_value team_member_manage = "team:member:manage"
permission_value service_account_create = "service_account:create"
permission_value service_account_manage = "service_account:manage"
permission_value service_account_read = "service_account:read"
permission_value api_key_create = "api_key:create"
permission_value api_key_revoke = "api_key:revoke"
permission_value api_key_list = "api_key:list"
permission_value audit_read = "audit:read"
permission_value analytics_query = "analytics:query"
permission_value workflow_create = "workflow:create"
permission_value workflow_run = "workflow:run"
permission_value workflow_approve = "workflow:approve"
permission_value workflow_read = "workflow:read"
permission_value knowledge_read = "knowledge:read"
permission_value knowledge_source_create = "knowledge:source:create"
permission_value knowledge_source_update = "knowledge:source:update"
permission_value knowledge_document_upload = "knowledge:document:upload"
permission_value knowledge_document_archive = "knowledge:document:archive"
permission_value knowledge_ingestion_retry = "knowledge:ingestion:retry"

-- the iteration `for r in OrgRole`, and so for the others
abbrev pub org_roles : List OrgRole
org_roles =
    OrgRole.owner ∷ OrgRole.administrator ∷ OrgRole.workflow_builder ∷ OrgRole.analyst
    ∷ OrgRole.operator ∷ OrgRole.viewer ∷ OrgRole.auditor ∷ []

abbrev pub workspace_roles : List WorkspaceRole
workspace_roles =
    WorkspaceRole.administrator ∷ WorkspaceRole.workflow_builder ∷ WorkspaceRole.analyst
    ∷ WorkspaceRole.operator ∷ WorkspaceRole.viewer ∷ WorkspaceRole.auditor ∷ []

abbrev pub all_permissions : List Permission
all_permissions =
    org_read ∷ org_update ∷ org_delete ∷ org_transfer_ownership ∷ org_member_invite
    ∷ org_member_remove ∷ org_member_role_change ∷ org_member_list ∷ workspace_create
    ∷ workspace_read ∷ workspace_update ∷ workspace_delete ∷ workspace_member_manage
    ∷ invitation_create ∷ invitation_revoke ∷ invitation_list ∷ team_create ∷ team_update
    ∷ team_delete ∷ team_read ∷ team_member_manage ∷ service_account_create ∷ service_account_manage
    ∷ service_account_read ∷ api_key_create ∷ api_key_revoke ∷ api_key_list ∷ audit_read
    ∷ analytics_query ∷ workflow_create ∷ workflow_run ∷ workflow_approve ∷ workflow_read
    ∷ knowledge_read ∷ knowledge_source_create ∷ knowledge_source_update ∷ knowledge_document_upload
    ∷ knowledge_document_archive ∷ knowledge_ingestion_retry ∷ []

unfoldable pub org_role_permissions : OrgRole → List Permission
org_role_permissions OrgRole.owner = all_permissions
org_role_permissions OrgRole.administrator =
    org_read ∷ org_update ∷ org_member_invite ∷ org_member_remove ∷ org_member_role_change
    ∷ org_member_list ∷ workspace_create ∷ workspace_read ∷ workspace_update ∷ workspace_delete
    ∷ workspace_member_manage ∷ audit_read ∷ analytics_query ∷ workflow_create ∷ workflow_run
    ∷ workflow_approve ∷ workflow_read ∷ invitation_create ∷ invitation_revoke ∷ invitation_list
    ∷ team_create ∷ team_update ∷ team_delete ∷ team_read ∷ team_member_manage
    ∷ service_account_create ∷ service_account_manage ∷ service_account_read ∷ api_key_create
    ∷ api_key_revoke ∷ api_key_list ∷ knowledge_read ∷ knowledge_source_create
    ∷ knowledge_source_update ∷ knowledge_document_upload ∷ knowledge_document_archive
    ∷ knowledge_ingestion_retry ∷ []
org_role_permissions OrgRole.workflow_builder =
    org_read ∷ org_member_list ∷ workspace_read ∷ workflow_create ∷ workflow_run ∷ workflow_read
    ∷ team_read ∷ knowledge_read ∷ knowledge_document_upload ∷ []
org_role_permissions OrgRole.analyst =
    org_read ∷ org_member_list ∷ workspace_read ∷ analytics_query ∷ workflow_read ∷ team_read
    ∷ knowledge_read ∷ []
org_role_permissions OrgRole.operator =
    org_read ∷ org_member_list ∷ workspace_read ∷ workflow_run ∷ workflow_read ∷ workflow_approve
    ∷ team_read ∷ knowledge_read ∷ []
org_role_permissions OrgRole.viewer =
    org_read ∷ org_member_list ∷ workspace_read ∷ workflow_read ∷ team_read ∷ knowledge_read ∷ []
org_role_permissions OrgRole.auditor = org_read ∷ audit_read ∷ []

-- A frozenset of a `StrEnum` compares its members by their values.
unfoldable pub has_org_permission : Option OrgRole → Permission → Bool
unfolding org_role_permissions permission_value
has_org_permission none permission = false
has_org_permission (some role) permission =
    contains (permission_value permission) (map permission_value (org_role_permissions role))

unfoldable pub get_org_permissions : Option OrgRole → List Permission
unfolding org_role_permissions
get_org_permissions none = []
get_org_permissions (some role) = org_role_permissions role

unfoldable pub is_valid_org_role : String → Bool
unfolding org_role_value
is_valid_org_role role = contains role (map org_role_value org_roles)

unfoldable pub is_valid_workspace_role : String → Bool
unfolding workspace_role_value
is_valid_workspace_role role = contains role (map workspace_role_value workspace_roles)
