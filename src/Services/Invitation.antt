-- ===== src/Services/Invitation.antt =====
-- services/invitation_service.py: invitations to an organisation, accepted at most once.
-- `now` is what `datetime.now(UTC)` returns, `row_id`, `secret` and the like what `uuid4` and
-- `secrets.token_urlsafe` return. `audited` says whether `accept` gets an audit session factory.
pub mod Create
pub mod Joins
pub mod Refusal
pub mod SingleUse
use atlascore.Base.{
  ℕ, ◌+◌, ◌*◌, String, Bool, true, false, ◌&&◌, ◌||◌, not, Option, none, some, List, [], ◌∷◌, ◌++◌,
  Error, ok, ◌==◌, ltb, str_eq, if◌then◌else◌, is_none, opt_eq, length, drop, take,
}
use atlascore.Platform.{Platform, hour}
use atlascore.Db.Models.{Invitation, OrganisationMembership, WorkspaceMembership, Value}
use atlascore.Db.Table.{select, update, exists, count, scalar_one_or_none}
use atlascore.Db.Session.{
  Session, Tables, Action, pure, raise, modify, when, ◌>>=◌, ◌>>◌, raise_if, insert, tenant,
  set_organisation,
}
use atlascore.Auth.RoutingToken.{extract_organisation_hint, routed}
use atlascore.Services.Audit.{Origin, emit_tenant_independent}
use atlascore.Services.Org.{is_member, find_membership, add_membership, found_or}

pub record InvitationService : Type 0 where
  pub pepper : String

-- neither accepted nor revoked
abbrev pub is_pending : Invitation → Bool
is_pending i = is_none i.accepted_at && is_none i.revoked_at

abbrev pub is_addressed : String → ℕ → Invitation → Bool
is_addressed email o i = str_eq i.invited_email email && i.organisation_id == o

-- the unique columns of `invitations`, and the partial index uq_invitations_active_email_org
unfoldable pub conflicts : Invitation → Invitation → Bool
conflicts new i =
    i.id == new.id
    || (str_eq i.token_hash new.token_hash
        || (is_pending new
            && (is_pending i && is_addressed new.invited_email new.organisation_id i)))

unfoldable pub add_invitation : Invitation → Action Unit
unfolding conflicts
add_invitation new s =
    insert (tenant s.organisation new.organisation_id) (exists (conflicts new) s.db.invitations)
      (λ t. record t { invitations = t.invitations ++ new ∷ [] }) s

unfoldable pub find_invitation : (Invitation → Bool) → Action (Option Invitation)
find_invitation p s = (
  scalar_one_or_none
      (select (λ i. tenant s.organisation i.organisation_id && p i) s.db.invitations),
  s,
)

-- the columns that `accept` and `revoke` assign, flushed
unfoldable pub change_invitation : ℕ → (Invitation → Invitation) → Action Unit
change_invitation id change s =
    modify
      (λ t. record t {
        invitations =
            update (λ i. tenant s.organisation i.organisation_id && i.id == id) change
              t.invitations;
      })
      s

abbrev pub accepted : ℕ → Invitation → Invitation
accepted now i = record i { accepted_at = some now; updated_at = some now }

abbrev pub revoked : ℕ → Invitation → Invitation
revoked now i = record i { revoked_at = some now; updated_at = some now }

-- the unique columns of `workspace_memberships`
unfoldable pub workspace_conflicts : WorkspaceMembership → WorkspaceMembership → Bool
workspace_conflicts new m =
    m.id == new.id || (m.workspace_id == new.workspace_id && m.user_id == new.user_id)

unfoldable pub add_workspace_membership : WorkspaceMembership → Action Unit
unfolding workspace_conflicts
add_workspace_membership new s =
    insert (tenant s.organisation new.organisation_id)
      (exists (workspace_conflicts new) s.db.workspace_memberships)
      (λ t. record t { workspace_memberships = t.workspace_memberships ++ new ∷ [] }) s

unfoldable pub find_workspace_membership : ℕ → ℕ → Action (Option WorkspaceMembership)
find_workspace_membership workspace_id user_id s = (
  scalar_one_or_none (
      select
        (λ m.
          tenant s.organisation m.organisation_id
          && (m.workspace_id == workspace_id && m.user_id == user_id))
        s.db.workspace_memberships),
  s,
)

-- the membership of the organisation, where the user has none
unfoldable pub join_if_absent : OrganisationMembership → Option OrganisationMembership → Action Unit
join_if_absent new none = add_membership new
join_if_absent new (some m) = pure tt

unfoldable pub join_organisation : Invitation → ℕ → ℕ → Action Unit
join_organisation invitation user_id row_id =
    find_membership (is_member invitation.organisation_id user_id)
    >>= join_if_absent (record {
      id = row_id;
      organisation_id = invitation.organisation_id;
      user_id = user_id;
      org_role = invitation.org_role;
    })

unfoldable pub join_workspace_if_absent :
    WorkspaceMembership → Option WorkspaceMembership → Action Unit
join_workspace_if_absent new none = add_workspace_membership new
join_workspace_if_absent new (some m) = pure tt

-- the membership of the workspace, where the invitation names one with a role
unfoldable pub join_workspace : Option ℕ → Option String → ℕ → ℕ → ℕ → Action Unit
join_workspace none role organisation_id user_id row_id = pure tt
join_workspace (some w) none organisation_id user_id row_id = pure tt
join_workspace (some w) (some role) organisation_id user_id row_id =
    find_workspace_membership w user_id
    >>= join_workspace_if_absent (record {
      id = row_id;
      workspace_id = w;
      organisation_id = organisation_id;
      user_id = user_id;
      workspace_role = role;
    })

-- who accepts, and where the request comes from
pub record Acceptance : Type 0 where
  pub user_id : ℕ
  pub email : String
  pub origin : Origin
  pub audited : Bool
  pub now : ℕ
  pub membership_id : ℕ
  pub workspace_membership_id : ℕ

module _ (py : Platform) where
  unfoldable pub refuse_expired : Invitation → Acceptance → Action Unit
  refuse_expired invitation a = when (ltb invitation.expires_at a.now) (do
    when a.audited (
        emit_tenant_independent py "invitation.expired" invitation.organisation_id (some a.user_id)
          (("invitation_id", Value.uuid invitation.id) ∷ []) a.origin "failure")
    raise Error.invitation_expired)

  -- the guards of `accept`, in their order
  unfoldable pub check_invitation : Invitation → Acceptance → Action Unit
  check_invitation invitation a = do
    refuse_expired invitation a
    raise_if (not (is_none invitation.revoked_at)) Error.invitation_revoked
    raise_if (not (is_none invitation.accepted_at)) Error.invitation_already_accepted
    raise_if (not (str_eq (py.lower invitation.invited_email) (py.strip (py.lower a.email))))
        Error.invitation_email_mismatch

  -- `accept` behind its guards
  unfoldable pub accept_checked : Acceptance → Invitation → Action Invitation
  accept_checked a invitation = do
    change_invitation invitation.id (accepted a.now)
    join_organisation invitation a.user_id a.membership_id
    join_workspace invitation.workspace_id invitation.workspace_role invitation.organisation_id
        a.user_id a.workspace_membership_id
    pure (accepted a.now invitation)

  -- `accept` from the invitation that it found
  unfoldable pub accept_found : Acceptance → Invitation → Action Invitation
  accept_found a invitation = check_invitation invitation a >> accept_checked a invitation

  -- `revoke` from the invitation that it found
  unfoldable pub revoke_found : ℕ → Invitation → Action Invitation
  revoke_found now invitation = do
    raise_if (not (is_none invitation.revoked_at)) Error.invitation_revoked
    raise_if (not (is_none invitation.accepted_at)) Error.invitation_already_accepted
    change_invitation invitation.id (revoked now)
    pure (revoked now invitation)

  unfoldable pub revoke : ℕ → ℕ → ℕ → Action Invitation
  revoke invitation_id organisation_id now = do
    set_organisation organisation_id
    found ← find_invitation (λ i. i.id == invitation_id && i.organisation_id == organisation_id)
    invitation ← found_or Error.invitation_not_found found
    revoke_found now invitation

  abbrev pub is_active : ℕ → Invitation → Bool
  is_active now i = is_pending i && ltb now i.expires_at

  unfoldable pub find_active_by_email_org : String → ℕ → ℕ → Action (Option Invitation)
  find_active_by_email_org email organisation_id now = do
    set_organisation organisation_id
    find_invitation
        (λ i. is_addressed (py.strip (py.lower email)) organisation_id i && is_active now i)

module _ (py : Platform) (self : InvitationService) where
  unfoldable pub hash_token : String → String
  hash_token raw_token = py.keyed_blake2b self.pepper raw_token

  -- the row that `create` adds
  unfoldable pub draft :
      ℕ → String → Option String → Option ℕ → Option String → ℕ → ℕ → ℕ → ℕ → String → Invitation
  unfolding hash_token
  draft o email org_role workspace workspace_role creator hours now row_id secret = record {
    id = row_id;
    organisation_id = o;
    workspace_id = workspace;
    invited_email = py.strip (py.lower email);
    org_role = org_role;
    workspace_role = workspace_role;
    token_hash = hash_token (routed py.uuid o secret);
    created_by_user_id = some creator;
    expires_at = now + hours * hour;
    accepted_at = none;
    revoked_at = none;
    updated_at = none;
  }

  -- `create` from the active invitation that its query returned
  unfoldable pub create_unless :
      ℕ
      → String
      → Option String
      → Option ℕ
      → Option String
      → ℕ
      → ℕ
      → ℕ
      → ℕ
      → String
      → Option Invitation
      → Action (Invitation × String)
  create_unless o email org_role workspace workspace_role creator hours now row_id secret existing =
      do
        raise_if (not (is_none existing)) Error.invitation_duplicate
        let invitation : Invitation =
            draft o email org_role workspace workspace_role creator hours now row_id secret
        add_invitation invitation
        pure (invitation, routed py.uuid o secret)

  unfoldable pub create :
      ℕ
      → String
      → Option String
      → Option ℕ
      → Option String
      → ℕ
      → ℕ
      → ℕ
      → ℕ
      → String
      → Action (Invitation × String)
  create o email org_role workspace workspace_role creator hours now row_id secret = do
    set_organisation o
    find_active_by_email_org py email o now
        >>= create_unless o email org_role workspace workspace_role creator hours now row_id secret

  unfoldable pub accept_hinted : String → Acceptance → Option ℕ → Action Invitation
  accept_hinted raw_token a none = raise Error.invitation_not_found
  accept_hinted raw_token a (some o) = do
    set_organisation o
    found ← find_invitation (λ i. str_eq i.token_hash (hash_token raw_token))
    invitation ← found_or Error.invitation_not_found found
    accept_found py a invitation

  unfoldable pub accept : String → Acceptance → Action Invitation
  accept raw_token a = accept_hinted raw_token a (extract_organisation_hint py.uuid raw_token)
