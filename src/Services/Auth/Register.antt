-- ===== src/Services/Auth/Register.antt =====
-- services/auth_service.py, `AuthService.register`.
use atlascore.Base.{
  ℕ, String, Bool, true, false, ◌&&◌, ◌||◌, not, Option, none, some, [], ◌∷◌, ◌++◌, Error, ◌==◌,
  str_eq, is_none,
}
use atlascore.Platform.{Platform}
use atlascore.Db.Models.{User, Organisation, Workspace, Value}
use atlascore.Db.Table.{exists}
use atlascore.Db.Session.{
  Action, pure, raise_if, ◌>>=◌, ◌>>◌, insert, tenant, set_organisation, set_user,
}
use atlascore.Auth.Password.{hash}
use atlascore.Services.Audit.{Origin, emit_transactional}
use atlascore.Services.Org.{add_membership}
use atlascore.Services.Invitation.{add_workspace_membership}
use atlascore.Services.Auth.{AuthService, find_user, find_organisation}

-- the unique columns of `users`
unfoldable pub user_conflicts : User → User → Bool
user_conflicts new u = u.id == new.id || str_eq u.email new.email

unfoldable pub add_user : User → Action Unit
unfolding user_conflicts
add_user new s =
    insert true (exists (user_conflicts new) s.db.users)
      (λ t. record t { users = t.users ++ new ∷ [] }) s

-- the unique columns of `organisations`, which the index checks on the rows of every organisation
unfoldable pub organisation_conflicts : Organisation → Organisation → Bool
organisation_conflicts new o = o.id == new.id || str_eq o.slug new.slug

unfoldable pub add_organisation : Organisation → Action Unit
unfolding organisation_conflicts
add_organisation new s =
    insert (tenant s.organisation new.id) (exists (organisation_conflicts new) s.db.organisations)
      (λ t. record t { organisations = t.organisations ++ new ∷ [] }) s

-- the unique columns of `workspaces`
unfoldable pub workspace_conflicts : Workspace → Workspace → Bool
workspace_conflicts new w =
    w.id == new.id || (w.organisation_id == new.organisation_id && str_eq w.slug new.slug)

unfoldable pub add_workspace : Workspace → Action Unit
unfolding workspace_conflicts
add_workspace new s =
    insert (tenant s.organisation new.organisation_id)
      (exists (workspace_conflicts new) s.db.workspaces)
      (λ t. record t { workspaces = t.workspaces ++ new ∷ [] }) s

pub record Registration : Type 0 where
  pub email : String
  pub password : String
  pub full_name : String
  pub organisation_name : String
  pub organisation_slug : String
  pub origin : Origin
  -- the salt of the hash, and what `uuid4` returns for the rows
  pub salt : ℕ
  pub user_id : ℕ
  pub organisation_id : ℕ
  pub membership_id : ℕ
  pub workspace_id : ℕ
  pub workspace_membership_id : ℕ

unfoldable pub organisation_of : Registration → Organisation
organisation_of r = record {
  id = r.organisation_id;
  slug = r.organisation_slug;
  display_name = r.organisation_name;
  is_active = true;
}

-- the rows that belong to the new organisation
unfoldable pub furnish : Registration → Action Unit
furnish r = do
  add_membership (record {
    id = r.membership_id;
    organisation_id = r.organisation_id;
    user_id = r.user_id;
    org_role = some "owner";
  })
  add_workspace (record {
    id = r.workspace_id;
    organisation_id = r.organisation_id;
    slug = "default";
    display_name = "Default Workspace";
    description = none;
    is_active = true;
  })
  add_workspace_membership (record {
    id = r.workspace_membership_id;
    workspace_id = r.workspace_id;
    organisation_id = r.organisation_id;
    user_id = r.user_id;
    workspace_role = "administrator";
  })

-- the new organisation and its rows, in its own context
unfoldable pub bootstrap : Registration → Action Unit
bootstrap r = do
  set_organisation r.organisation_id
  set_user r.user_id
  add_organisation (organisation_of r)
  furnish r

module _ (py : Platform) (self : AuthService) where
  unfoldable pub user_of : Registration → User
  user_of r = record {
    id = r.user_id;
    email = r.email;
    email_verified = false;
    full_name = r.full_name;
    password_hash = hash self.pwd r.salt r.password;
    pepper_version = 1;
    is_active = true;
    is_platform_admin = false;
    last_login_at = none;
  }

  -- the event of `register`, and what it returns
  unfoldable pub announce : Registration → Action (User × Organisation)
  announce r = do
    emit_transactional py "org.created" r.organisation_id (some r.user_id)
        (("organisation_slug", Value.text r.organisation_slug)
          ∷ ("user_email", Value.text r.email)
          ∷ [])
        r.origin "success"
    pure (user_of r, organisation_of r)

  unfoldable pub create_account : Registration → Action (User × Organisation)
  create_account r = do add_user (user_of r); bootstrap r; announce r

  unfoldable pub check_slug : Registration → Option Organisation → Action (User × Organisation)
  check_slug r slug_check = do
    raise_if (not (is_none slug_check)) Error.registration_error
    create_account r

  unfoldable pub check_email : Registration → Option User → Action (User × Organisation)
  check_email r email_check = do
    raise_if (not (is_none email_check)) Error.registration_error
    find_organisation (λ o. str_eq o.slug r.organisation_slug) >>= check_slug r

  unfoldable pub register : Registration → Action (User × Organisation)
  register r = find_user (λ u. str_eq u.email r.email) >>= check_email r
