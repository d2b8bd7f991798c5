-- ===== src/Services/Org.antt =====
-- services/org_service.py: organisations, their members and their owner.
-- The methods run in a session whose organisation is set (db/engine.py, OrganisationScopedSession);
-- every statement reaches the rows that the row-level security policies let through.
pub mod Ownership
pub mod Methods
pub mod Transfer
pub mod TransferAll
pub mod Admission
use atlascore.Base.{
  ℕ, String, Bool, true, false, ◌&&◌, ◌||◌, not, Option, none, some, List, [], ◌∷◌, ◌++◌, Error, ok,
  ◌==◌, opt_eq, opt_str_eq, is_none, if◌then◌else◌,
}
use atlascore.Platform.{Platform}
use atlascore.Db.Models.{Organisation, OrganisationMembership, User, Value}
use atlascore.Db.Table.{select, update, delete, exists, scalar_one_or_none}
use atlascore.Db.Session.{
  Session, Tables, Action, pure, raise, lift, gets, modify, ◌>>=◌, ◌>>◌, raise_if, insert, tenant,
}
use atlascore.Services.Audit.{Origin, emit_transactional}

abbrev pub owner : String
owner = "owner"

abbrev pub is_owner : OrganisationMembership → Bool
is_owner m = opt_str_eq m.org_role owner

abbrev pub is_member : ℕ → ℕ → OrganisationMembership → Bool
is_member organisation_id user_id m = m.organisation_id == organisation_id && m.user_id == user_id

-- SELECT on organisation_memberships: the tenant policy or the policy for a user's own rows
abbrev pub readable : Session → OrganisationMembership → Bool
readable s m = tenant s.organisation m.organisation_id || opt_eq s.user m.user_id

unfoldable pub find_membership :
    (OrganisationMembership → Bool) → Action (Option OrganisationMembership)
find_membership p s =
    (scalar_one_or_none (select (λ m. readable s m && p m) s.db.org_memberships), s)

-- the unique columns of `organisation_memberships`, its partial index on owners among them
unfoldable pub conflicts : OrganisationMembership → OrganisationMembership → Bool
conflicts new m =
    m.id == new.id
    || (is_member new.organisation_id new.user_id m
        || (is_owner new && (is_owner m && m.organisation_id == new.organisation_id)))

unfoldable pub add_membership : OrganisationMembership → Action Unit
unfolding conflicts
add_membership new s =
    insert (tenant s.organisation new.organisation_id) (exists (conflicts new) s.db.org_memberships)
      (λ t. record t { org_memberships = t.org_memberships ++ new ∷ [] }) s

-- whether a membership other than that of the id owns the organisation, which the partial index
-- forbids beside an update that makes it an owner
abbrev pub other_owner : OrganisationMembership → OrganisationMembership → Bool
other_owner changed m =
    not (m.id == changed.id) && (is_owner m && m.organisation_id == changed.organisation_id)

-- `membership.org_role = role`; flush, which raises where the policy hides the row from UPDATE
unfoldable pub set_role : OrganisationMembership → Option String → Action Unit
set_role membership role s =
    insert (tenant s.organisation membership.organisation_id)
      (opt_str_eq role owner && exists (other_owner membership) s.db.org_memberships)
      (λ t. record t {
        org_memberships =
            update (λ m. tenant s.organisation m.organisation_id && m.id == membership.id)
              (λ m. record m { org_role = role }) t.org_memberships;
      })
      s

-- `session.delete(membership)`; flush
unfoldable pub delete_membership : OrganisationMembership → Action Unit
delete_membership membership = λ s.
    modify
      (λ t. record t {
        org_memberships =
            delete (λ m. tenant s.organisation m.organisation_id && m.id == membership.id)
              t.org_memberships;
      })
      s

unfoldable pub get_organisation : ℕ → Action (Option Organisation)
get_organisation organisation_id s = (
  scalar_one_or_none
      (select (λ o. tenant s.organisation o.id && o.id == organisation_id) s.db.organisations),
  s,
)

-- `if x is None: raise OrgServiceError`
abbrev pub found_or : {A : Type 0} → Error → Option A → Action A
found_or e none = raise e
found_or e (some a) = pure a

-- the query for a membership, and the error where there is none
unfoldable pub require_membership : (OrganisationMembership → Bool) → Action OrganisationMembership
require_membership p = do m ← find_membership p; found_or Error.org_service_error m

abbrev pub or_null : Option String → Value
or_null none = Value.null
or_null (some t) = Value.text t

module _ (py : Platform) where
  unfoldable pub update_organisation : ℕ → Option String → ℕ → Origin → Action Organisation
  update_organisation organisation_id display_name actor_user_id origin = do
    org ← (do o ← get_organisation organisation_id; found_or Error.org_service_error o)
    let name : String = elim display_name [ none ↦ org.display_name | some n ↦ n ]
    let renamed : Organisation = record org { display_name = name }
    emit_transactional py "org.updated" organisation_id (some actor_user_id)
        (("display_name", or_null display_name) ∷ []) origin "success"
    (λ s.
        modify
          (λ t. record t {
            organisations =
                update (λ o. tenant s.organisation o.id && o.id == org.id)
                  (λ o. record o { display_name = name }) t.organisations;
          })
          s)
    pure renamed

  -- `row_id` is the id that the new row gets
  unfoldable pub add_member : ℕ → ℕ → Option String → ℕ → Origin → ℕ → Action OrganisationMembership
  add_member organisation_id user_id org_role actor_user_id origin row_id = do
    user ← (λ s. (scalar_one_or_none (select (λ u. u.id == user_id) s.db.users), s))
    raise_if (is_none user) Error.org_service_error
    existing ← find_membership (is_member organisation_id user_id)
    raise_if (not (is_none existing)) Error.org_service_error
    let membership : OrganisationMembership = record {
      id = row_id;
      organisation_id = organisation_id;
      user_id = user_id;
      org_role = org_role;
    }
    add_membership membership
    emit_transactional py "org.membership_added" organisation_id (some actor_user_id)
        (("target_user_id", Value.uuid user_id) ∷ ("org_role", or_null org_role) ∷ []) origin
        "success"
    pure membership

  -- the rest of `remove_member`, from the membership that it found
  unfoldable pub remove_found : ℕ → ℕ → ℕ → Origin → OrganisationMembership → Action Unit
  remove_found organisation_id user_id actor_user_id origin membership = do
    raise_if (is_owner membership) Error.org_service_error
    delete_membership membership
    emit_transactional py "org.membership_removed" organisation_id (some actor_user_id)
        (("target_user_id", Value.uuid user_id) ∷ []) origin "success"

  unfoldable pub remove_member : ℕ → ℕ → ℕ → Origin → Action Unit
  remove_member organisation_id user_id actor_user_id origin =
      require_membership (is_member organisation_id user_id)
      >>= remove_found organisation_id user_id actor_user_id origin

  -- the rest of `change_member_role`
  unfoldable pub change_found :
      ℕ → ℕ → Option String → ℕ → Origin → OrganisationMembership → Action OrganisationMembership
  change_found organisation_id user_id new_role actor_user_id origin membership = do
    raise_if (is_owner membership) Error.org_service_error
    set_role membership new_role
    emit_transactional py "org.role_changed" organisation_id (some actor_user_id)
        (("target_user_id", Value.uuid user_id)
          ∷ ("old_role", or_null membership.org_role)
          ∷ ("new_role", or_null new_role)
          ∷ [])
        origin "success"
    pure (record membership { org_role = new_role })

  unfoldable pub change_member_role :
      ℕ → ℕ → Option String → ℕ → Origin → Action OrganisationMembership
  change_member_role organisation_id user_id new_role actor_user_id origin =
      require_membership (is_member organisation_id user_id)
      >>= change_found organisation_id user_id new_role actor_user_id origin

  -- the rest of `transfer_ownership`, from the two memberships that it found
  unfoldable pub transfer_found :
      ℕ → ℕ → ℕ → Origin → OrganisationMembership → OrganisationMembership → Action Unit
  transfer_found organisation_id current_owner_id new_owner_id origin owner_mem new_owner_mem = do
    set_role owner_mem (some "administrator")
    set_role new_owner_mem (some owner)
    emit_transactional py "org.ownership_transferred" organisation_id (some current_owner_id)
        (("from_user_id", Value.uuid current_owner_id)
          ∷ ("to_user_id", Value.uuid new_owner_id)
          ∷ [])
        origin "success"

  unfoldable pub transfer_to : ℕ → ℕ → ℕ → Origin → OrganisationMembership → Action Unit
  transfer_to organisation_id current_owner_id new_owner_id origin owner_mem =
      require_membership (is_member organisation_id new_owner_id)
      >>= transfer_found organisation_id current_owner_id new_owner_id origin owner_mem

  unfoldable pub transfer_ownership : ℕ → ℕ → ℕ → Origin → Action Unit
  transfer_ownership organisation_id current_owner_id new_owner_id origin = do
    raise_if (current_owner_id == new_owner_id) Error.org_service_error
    require_membership (λ m. is_member organisation_id current_owner_id m && is_owner m)
        >>= transfer_to organisation_id current_owner_id new_owner_id origin
