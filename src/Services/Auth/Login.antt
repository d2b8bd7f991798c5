-- ===== src/Services/Auth/Login.antt =====
-- services/auth_service.py: the two steps of a login.
use atlascore.Base.{
  ℕ, String, ◌&&◌, not, Option, none, some, List, [], ◌∷◌, Error, ◌==◌, str_eq, if◌then◌else◌,
}
use atlascore.Platform.{Platform}
use atlascore.Db.Models.{
  User, Organisation, OrganisationMembership, RefreshToken, PreAuthSession, Value,
}
use atlascore.Db.Table.{select, update}
use atlascore.Db.Session.{
  Action, pure, raise, gets, modify, handle, when, ◌>>=◌, ◌>>◌, set_organisation, set_user, commit,
}
use atlascore.Auth.Password.{verify, needs_rehash, rehash}
use atlascore.Auth.PreAuth.{create as create_pre_auth, consume}
use atlascore.Auth.Refresh.{Fresh, create as create_refresh}
use atlascore.Services.Audit.{Origin, emit_transactional, emit_independent}
use atlascore.Services.Org.{readable}
use atlascore.Services.Auth.{
  AuthService, find_user, find_organisation, find_membership, found_or_refused,
}

-- UPDATE users … WHERE id = …; `users` has no row-level security
abbrev pub update_user : ℕ → (User → User) → Action Unit
update_user user_id f =
    λ s. modify (λ t. record t { users = update (λ u. u.id == user_id) f t.users }) s

pub record Login : Type 0 where
  pub email : String
  pub password : String
  pub origin : Origin
  pub user_agent : Option String
  -- what the clock, `uuid4`, `secrets` and the hasher's salt return
  pub now : ℕ
  pub row_id : ℕ
  pub raw_token : String
  pub salt : ℕ

-- what the call returns: the user, the organisation, the membership and the refresh token
pub record Selected : Type 0 where
  pub user : User
  pub organisation : Organisation
  pub membership : OrganisationMembership
  pub raw_refresh : String
  pub refresh_row : RefreshToken

module _ (py : Platform) (self : AuthService) where
  -- the event of a failed login, committed, and the error
  abbrev pub refuse : {A : Type 0} → Option ℕ → String → String → Origin → Action A
  refuse actor email reason origin = do
    emit_independent py "auth.login_failed" actor
        (("email", Value.text email) ∷ ("reason", Value.text reason) ∷ []) origin "failure"
    commit
    raise Error.authentication_error

  -- the rest of `login_step1`, for a user whose password fits
  unfoldable pub admit_user : Login → User → Action (User × List OrganisationMembership × String)
  admit_user l user = do
    set_user user.id
    memberships ←
        gets (λ s. select (λ m. readable s m && m.user_id == user.id) s.db.org_memberships)
    raw_token ←
        create_pre_auth py self.pre_auth user.id l.origin.client_ip l.user_agent l.now l.row_id
          l.raw_token
    when (needs_rehash self.pwd user.password_hash user.pepper_version) (
        update_user user.id (λ u.
          let renewed = rehash self.pwd l.salt l.password in
          record u { password_hash = renewed.0; pepper_version = renewed.1 }))
    update_user user.id (λ u. record u { last_login_at = some l.now })
    commit
    pure (user, memberships, raw_token)

  unfoldable pub check_user :
      Login → Option User → Action (User × List OrganisationMembership × String)
  check_user l none s = refuse none l.email "user_not_found" l.origin s
  check_user l (some user) s =
      if not user.is_active
      then refuse none l.email "user_not_found" l.origin s
      else if not (verify self.pwd l.password user.password_hash user.pepper_version)
      then refuse (some user.id) l.email "invalid_password" l.origin s
      else admit_user l user s

  unfoldable pub login_step1 : Login → Action (User × List OrganisationMembership × String)
  login_step1 l = do user ← find_user (λ u. str_eq u.email l.email); check_user l user

  -- the handler of `consume`
  unfoldable pub on_pre_auth_error : Origin → Error → Action (Option PreAuthSession)
  on_pre_auth_error origin (Error.pre_auth_session_reuse session_id user_id) = do
    emit_independent py "auth.pre_auth_session_reused" (some user_id)
        (("session_id", Value.uuid session_id) ∷ []) origin "failure"
    commit
    raise Error.org_selection_error
  on_pre_auth_error origin e = raise e

  -- the tokens of a selection whose rows are found
  unfoldable pub grant :
      ℕ → ℕ → Origin → ℕ → Fresh → User → Organisation → OrganisationMembership → Action Selected
  grant user_id organisation_id origin now fresh user organisation membership = do
    issued ← create_refresh py self.refresh user_id organisation_id none origin.client_ip now fresh
    emit_transactional py "org.organisation_selected" organisation_id (some user_id)
        (("org_slug", Value.text organisation.slug) ∷ []) origin "success"
    commit
    pure (record {
      user = user;
      organisation = organisation;
      membership = membership;
      raw_refresh = issued.0;
      refresh_row = issued.1;
    })

  -- the rest of `select_organisation`, from the user and the organisation that it found
  unfoldable pub select_membership :
      ℕ → ℕ → Origin → ℕ → Fresh → User → Organisation → Action Selected
  select_membership user_id organisation_id origin now fresh user organisation =
      (do
        m ← find_membership (λ m. m.user_id == user_id && m.organisation_id == organisation_id)
        found_or_refused m)
      >>= grant user_id organisation_id origin now fresh user organisation

  unfoldable pub select_in : ℕ → ℕ → Origin → ℕ → Fresh → User → Action Selected
  select_in user_id organisation_id origin now fresh user =
      (do o ← find_organisation (λ o. o.id == organisation_id && o.is_active); found_or_refused o)
      >>= select_membership user_id organisation_id origin now fresh user

  -- the rest, from the pre-authentication session that was consumed
  unfoldable pub select_for : ℕ → Origin → ℕ → Fresh → PreAuthSession → Action Selected
  select_for organisation_id origin now fresh pas = do
    set_organisation organisation_id
    set_user pas.user_id
    (do u ← find_user (λ u. u.id == pas.user_id && u.is_active); found_or_refused u)
        >>= select_in pas.user_id organisation_id origin now fresh

  -- `consumed` is the time of the consumption, `now` that of the token
  unfoldable pub select_organisation : String → ℕ → Origin → ℕ → ℕ → Fresh → Action Selected
  select_organisation pre_auth_raw_token organisation_id origin consumed now fresh = do
    (do
      p ← handle (consume py self.pre_auth pre_auth_raw_token consumed) (on_pre_auth_error origin)
      found_or_refused p)
        >>= select_for organisation_id origin now fresh
