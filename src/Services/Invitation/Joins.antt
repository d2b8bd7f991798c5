-- ===== src/Services/Invitation/Joins.antt =====
-- What `accept` of services/invitation_service.py grants.
use atlascore.Base.{
  ℕ, ◌≡◌, refl, true, false, ◌&&◌, [], ◌∷◌, ◌++◌, arith, ◌==◌, String, Option, some, none, ok,
  Result, ap, ◌∙◌,
}
use atlascore.Platform.{Platform}
use atlascore.Db.Models.{Invitation, OrganisationMembership}
use atlascore.Db.Table.{exists}
use atlascore.Db.Table.Count.{count_mono, count-zero_of_exists}
use atlascore.Db.Table.Rows.{one_or_none_of_zero}
use atlascore.Db.Session.{Session, ◌>>◌, pure}
use atlascore.Db.Session.Rules.{bind-ok, insert-ok}
use atlascore.Services.Org.{find_membership, is_member, readable, conflicts, add_membership}
use atlascore.Services.Invitation.{
  InvitationService, Acceptance, accepted, change_invitation, accept_checked, accept,
  join_organisation, join_if_absent, join_workspace,
}
use atlascore.Services.Invitation.Refusal.{Presents, is_acceptable, of_organisation, accept-found}
use atlascore.Services.Invitation.SingleUse.{in_organisation, accept_found-checked}

-- the membership that an invitation grants
abbrev pub granted : Invitation → Acceptance → OrganisationMembership
granted i a = record {
  id = a.membership_id;
  organisation_id = i.organisation_id;
  user_id = a.user_id;
  org_role = i.org_role;
}

abbrev with_member : OrganisationMembership → Session → Session
with_member m s = record s { db = record s.db { org_memberships = s.db.org_memberships ++ m ∷ [] } }

module _ (py : Platform) (self : InvitationService) (raw : String) (o : ℕ) (i : Invitation)
    (a : Acceptance) where
  absent :
      (s : Session)
      → exists (conflicts (granted i a)) s.db.org_memberships ≡ false
      → find_membership (is_member i.organisation_id a.user_id) s ≡ (ok none, s)
  unfolding find_membership conflicts
  absent s free =
      ap (λ (r : Result (Option OrganisationMembership)). (r, s))
        (one_or_none_of_zero (λ m. readable s m && is_member i.organisation_id a.user_id m)
          s.db.org_memberships
          (omega (
            arith,
            count-zero_of_exists (conflicts (granted i a)) s.db.org_memberships free,
            count_mono (λ m. readable s m && is_member i.organisation_id a.user_id m)
                (conflicts (granted i a)) s.db.org_memberships (λ m h. ground arith),
          )))

  join-ok :
      (s : Session)
      → s.organisation ≡ some o
      → (o == i.organisation_id) ≡ true
      → exists (conflicts (granted i a)) s.db.org_memberships ≡ false
      → join_organisation i a.user_id a.membership_id s ≡ (ok tt, with_member (granted i a) s)
  unfolding join_organisation join_if_absent add_membership
  join-ok s here in_o free =
      bind-ok (find_membership (is_member i.organisation_id a.user_id))
        (join_if_absent (granted i a)) s none s (absent s free)
      ∙ insert-ok _ _ _ s (rw here in_o) free

  accept_checked-joins :
      (s : Session)
      → s.organisation ≡ some o
      → (o == i.organisation_id) ≡ true
      → i.workspace_id ≡ none
      → exists (conflicts (granted i a)) s.db.org_memberships ≡ false
      → accept_checked py a i s ≡ (
        ok (accepted a.now i),
        with_member (granted i a) (change_invitation i.id (accepted a.now) s).1,
      )
  unfolding accept_checked join_workspace change_invitation
  accept_checked-joins s here in_o no_workspace free =
      let s1 = (change_invitation i.id (accepted a.now) s).1 in
      let visit =
        join_workspace i.workspace_id i.workspace_role i.organisation_id a.user_id
          a.workspace_membership_id in
      bind-ok (join_organisation i a.user_id a.membership_id)
        (λ _. visit >> pure (accepted a.now i)) s1 tt (with_member (granted i a) s1)
        (join-ok s1 here in_o free)
      ∙ rw no_workspace refl

  -- Accepting a valid invitation to an organisation, by the user it was issued for and who is no
  -- member yet, returns the invitation marked as accepted, and adds exactly the membership with
  -- the role and the organisation of the invitation.
  pub accept-joins :
      (s : Session)
      → Presents py self raw o i s
      → is_acceptable py i a ≡ true
      → i.workspace_id ≡ none
      → exists (conflicts (granted i a)) s.db.org_memberships ≡ false
      → let out = accept py self raw a s in
        (out.0 ≡ ok (accepted a.now i))
        × (out.1.db.org_memberships ≡ s.db.org_memberships ++ granted i a ∷ [])
        × (out.1.db.workspace_memberships ≡ s.db.workspace_memberships)
  unfolding change_invitation
  accept-joins s p fit no_workspace free =
      let whole =
        accept-found py self raw o i a s p
        ∙ accept_found-checked py self raw o i a (of_organisation o s) fit
        ∙ accept_checked-joins (of_organisation o s) refl
            (in_organisation py self raw o i a.now s.db.invitations p.alone) no_workspace free in
      rw whole (refl, refl, refl)
