-- ===== src/Auth/Permissions/Privilege.antt =====
-- What the permission matrix of auth/permissions.py grants to each role.
use atlascore.Base.{Bool, true, false, not, ◌||◌, ◌≡◌, refl, none, some, str_eq, arith}
use atlascore.Auth.Permissions.{
  OrgRole, Permission, org_read, has_org_permission, org_role_value, permission_value,
}

abbrev pub implies : Bool → Bool → Bool
implies a b = not a || b

abbrev grants : OrgRole → Permission → Bool
grants role p = has_org_permission (some role) p

-- The roles are ordered by what they may do: whatever a viewer may, an analyst, an operator and a
-- workflow builder may; whatever one of these or an auditor may, an administrator may; an owner
-- may everything, and a member without a role nothing.
pub role_order :
    (p : Permission)
    → (implies (grants OrgRole.viewer p) (grants OrgRole.analyst p) ≡ true)
      × (implies (grants OrgRole.viewer p) (grants OrgRole.operator p) ≡ true)
      × (implies (grants OrgRole.viewer p) (grants OrgRole.workflow_builder p) ≡ true)
      × (implies (grants OrgRole.analyst p) (grants OrgRole.administrator p) ≡ true)
      × (implies (grants OrgRole.operator p) (grants OrgRole.administrator p) ≡ true)
      × (implies (grants OrgRole.workflow_builder p) (grants OrgRole.administrator p) ≡ true)
      × (implies (grants OrgRole.auditor p) (grants OrgRole.administrator p) ≡ true)
      × (grants OrgRole.owner p ≡ true)
      × (has_org_permission none p ≡ false)
unfolding has_org_permission
role_order org_read = (refl, refl, refl, refl, refl, refl, refl, refl, refl)
role_order _ = (refl, refl, refl, refl, refl, refl, refl, refl, refl)

-- to delete the organisation, and to transfer its ownership
abbrev is_reserved : Permission → Bool
is_reserved p =
    str_eq (permission_value p) "org:delete" || str_eq (permission_value p) "org:transfer_ownership"

reserved_for_owner :
    (p : Permission) (role : OrgRole)
    → is_reserved p ≡ true
    → grants role p ≡ str_eq (org_role_value role) "owner"
unfolding has_org_permission org_role_value
reserved_for_owner Permission.org_delete OrgRole.owner h = refl
reserved_for_owner Permission.org_delete _ h = refl
reserved_for_owner Permission.org_transfer_ownership OrgRole.owner h = refl
reserved_for_owner Permission.org_transfer_ownership _ h = refl
reserved_for_owner _ role h = ground (arith, h)

-- An administrator lacks exactly two permissions: to delete the organisation, and to transfer its
-- ownership. Of all roles only the owner has these two.
pub administrator_exactly :
    (p : Permission)
    → (grants OrgRole.administrator p ≡ not (is_reserved p))
      × (is_reserved p ≡ true
          → (role : OrgRole) → grants role p ≡ str_eq (org_role_value role) "owner")
unfolding has_org_permission
administrator_exactly org_read = (refl, λ h role. reserved_for_owner org_read role h)
administrator_exactly p = (refl, λ h role. reserved_for_owner p role h)
