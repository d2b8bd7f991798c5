-- ===== src/Services/Auth.antt =====
-- services/auth_service.py: registration, the two steps of a login, refresh and logout.
-- A session's identity map keeps the rows as they were read, so a method returns a row as its query
-- found it where it changes it by a statement of its own.
pub mod Register
pub mod Login
pub mod Tokens
pub mod Refreshing
pub mod Selection
pub mod Registering
use atlascore.Base.{
  ℕ, String, Bool, true, false, ◌&&◌, ◌||◌, not, Option, none, some, List, [], ◌∷◌, ◌++◌, Error, ok,
  ◌==◌, str_eq, is_none, if◌then◌else◌,
}
use atlascore.Platform.{Platform}
use atlascore.Db.Models.{
  User, Organisation, OrganisationMembership, WorkspaceMembership, Workspace, RefreshToken,
  PreAuthSession, Value,
}
use atlascore.Db.Table.{select, update, exists, scalar_one_or_none}
use atlascore.Db.Session.{
  Session, Tables, Action, pure, raise, lift, gets, modify, handle, raise_if, when, ◌>>=◌, ◌>>◌,
  insert, tenant, set_organisation, set_user, commit,
}
use atlascore.Auth.Password.{PasswordService, hash, verify, needs_rehash, rehash}
use atlascore.Auth.PreAuth.{PreAuthSessionService, create as create_pre_auth, consume}
use atlascore.Auth.Refresh.{
  RefreshTokenService, Fresh, create as create_refresh, rotate, revoke_family,
  revoke_all_for_user_org,
}
use atlascore.Services.Audit.{Origin, emit_transactional, emit_independent}
use atlascore.Services.Org.{readable, add_membership}
use atlascore.Services.Invitation.{add_workspace_membership}

pub record AuthService : Type 0 where
  pub pwd : PasswordService
  pub refresh : RefreshTokenService
  pub pre_auth : PreAuthSessionService

unfoldable pub find_user : (User → Bool) → Action (Option User)
find_user p s = (scalar_one_or_none (select p s.db.users), s)

unfoldable pub find_organisation : (Organisation → Bool) → Action (Option Organisation)
find_organisation p s =
    (scalar_one_or_none (select (λ o. tenant s.organisation o.id && p o) s.db.organisations), s)

unfoldable pub find_membership :
    (OrganisationMembership → Bool) → Action (Option OrganisationMembership)
find_membership p s =
    (scalar_one_or_none (select (λ m. readable s m && p m) s.db.org_memberships), s)

abbrev pub found_or_refused : {A : Type 0} → Option A → Action A
found_or_refused none = raise Error.org_selection_error
found_or_refused (some a) = pure a
