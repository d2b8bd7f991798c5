-- ===== src/Services/Invitation/SingleUse.antt =====
-- An accepted invitation is refused from then on: `accept` of services/invitation_service.py.
use atlascore.Base.{
  ℕ, ◌≡◌, refl, true, ◌&&◌, List, [], ◌∷◌, arith, ◌==◌, String, Option, some, none, inl, inr,
  ==_refl, Bool-cases, Result, is_ok, str_eq, opt_eq, ap, ◌∙◌,
}
use atlascore.Platform.{Platform}
use atlascore.Db.Models.{Invitation, OrganisationMembership, WorkspaceMembership}
use atlascore.Db.Table.{update, scalar_one_or_none}
use atlascore.Db.Table.Count.{select-update_same}
use atlascore.Db.Table.Rows.{one_or_none-some}
use atlascore.Db.Session.{Session, ◌>>=◌, ◌>>◌, pure, tenant, Action}
use atlascore.Db.Session.Rules.{bind_rule, insert_rule, bind-ok}
use atlascore.Services.Org.{find_membership, is_member, add_membership}
use atlascore.Services.Invitation.{
  InvitationService, Acceptance, accepted, change_invitation, check_invitation, accept_checked,
  accept_found, accept, hash_token, join_organisation, join_workspace, join_if_absent,
  join_workspace_if_absent, add_workspace_membership, find_workspace_membership,
}
use atlascore.Services.Invitation.Refusal.{
  tokens, Presents, IsRefused, is_acceptable, of_organisation, accept-found, accept-IsRefused,
  check-passes,
}

-- After a method that returns, the token finds the invitation accepted.
module _ (py : Platform) (self : InvitationService) (raw : String) (o : ℕ) (i : Invitation)
    (now : ℕ) where
  abbrev pub IsTaken : {A : Type 0} → Result A × Session → Type 0
  IsTaken r = is_ok r.0 ≡ true → tokens py self raw o r.1.db.invitations ≡ accepted now i ∷ []

  add_membership-IsTaken :
      (m : OrganisationMembership) (s : Session)
      → tokens py self raw o s.db.invitations ≡ accepted now i ∷ []
      → IsTaken (add_membership m s)
  unfolding add_membership
  add_membership-IsTaken m s h =
      insert_rule (λ (r : Result (Unit {0}) × Session). IsTaken r) _ _ _ s
        (λ _ k. absurd (ground arith)) (λ _ _ k. absurd (ground arith)) (λ _ _ k. h)

  add_workspace_membership-IsTaken :
      (m : WorkspaceMembership) (s : Session)
      → tokens py self raw o s.db.invitations ≡ accepted now i ∷ []
      → IsTaken (add_workspace_membership m s)
  unfolding add_workspace_membership
  add_workspace_membership-IsTaken m s h =
      insert_rule (λ (r : Result (Unit {0}) × Session). IsTaken r) _ _ _ s
        (λ _ k. absurd (ground arith)) (λ _ _ k. absurd (ground arith)) (λ _ _ k. h)

  join_if_absent-IsTaken :
      (m : OrganisationMembership) (found : Option OrganisationMembership) (s : Session)
      → tokens py self raw o s.db.invitations ≡ accepted now i ∷ []
      → IsTaken (join_if_absent m found s)
  unfolding join_if_absent
  join_if_absent-IsTaken m none s h = add_membership-IsTaken m s h
  join_if_absent-IsTaken m (some x) s h = λ _. h

  join_organisation-IsTaken :
      (invitation : Invitation) (user row : ℕ) (s : Session)
      → tokens py self raw o s.db.invitations ≡ accepted now i ∷ []
      → IsTaken (join_organisation invitation user row s)
  unfolding join_organisation find_membership
  join_organisation-IsTaken invitation user row s h =
      bind_rule (λ (r : Result (Unit {0}) × Session). IsTaken r)
        (find_membership (is_member invitation.organisation_id user)) (join_if_absent _) s
        (λ e _ k. absurd (ground arith)) (λ found _. join_if_absent-IsTaken _ found s h)

  join_workspace_if_absent-IsTaken :
      (m : WorkspaceMembership) (found : Option WorkspaceMembership) (s : Session)
      → tokens py self raw o s.db.invitations ≡ accepted now i ∷ []
      → IsTaken (join_workspace_if_absent m found s)
  unfolding join_workspace_if_absent
  join_workspace_if_absent-IsTaken m none s h = add_workspace_membership-IsTaken m s h
  join_workspace_if_absent-IsTaken m (some x) s h = λ _. h

  join_workspace-IsTaken :
      (w : Option ℕ) (role : Option String) (organisation user row : ℕ) (s : Session)
      → tokens py self raw o s.db.invitations ≡ accepted now i ∷ []
      → IsTaken (join_workspace w role organisation user row s)
  unfolding join_workspace find_workspace_membership
  join_workspace-IsTaken none role organisation user row s h = λ _. h
  join_workspace-IsTaken (some w) none organisation user row s h = λ _. h
  join_workspace-IsTaken (some w) (some role) organisation user row s h =
      bind_rule (λ (r : Result (Unit {0}) × Session). IsTaken r) (find_workspace_membership w user)
        (join_workspace_if_absent _) s (λ e _ k. absurd (ground arith))
        (λ found _. join_workspace_if_absent-IsTaken _ found s h)

  pub in_organisation :
      (rows : List Invitation)
      → tokens py self raw o rows ≡ i ∷ []
      → (o == i.organisation_id) ≡ true
  unfolding scalar_one_or_none
  in_organisation rows alone =
      let found =
        one_or_none-some
          (λ r. opt_eq (some o) r.organisation_id && str_eq r.token_hash (hash_token py self raw))
          rows i (ap (λ (found : List Invitation). scalar_one_or_none found) alone) in
      ground (arith, found.0)

  changed-IsTaken :
      (s : Session)
      → s.organisation ≡ some o
      → tokens py self raw o s.db.invitations ≡ i ∷ []
      → tokens py self raw o (change_invitation i.id (accepted now) s).1.db.invitations
        ≡ accepted now i ∷ []
  unfolding change_invitation update
  changed-IsTaken s here alone =
      select-update_same
        (λ r. opt_eq (some o) r.organisation_id && str_eq r.token_hash (hash_token py self raw))
        (λ r. tenant s.organisation r.organisation_id && r.id == i.id) (accepted now)
        s.db.invitations (λ r. refl)
      ∙ rw alone (rw here (rw (in_organisation s.db.invitations alone) (rw (==_refl i.id) refl)))

module _ (py : Platform) (self : InvitationService) (raw : String) (o : ℕ) (i : Invitation) where
  accept_checked-IsTaken :
      (a : Acceptance) (s : Session)
      → s.organisation ≡ some o
      → tokens py self raw o s.db.invitations ≡ i ∷ []
      → IsTaken py self raw o i a.now (accept_checked py a i s)
  unfolding accept_checked
  accept_checked-IsTaken a s here alone =
      let taken = changed-IsTaken py self raw o i a.now s here alone in
      let s1 = (change_invitation i.id (accepted a.now) s).1 in
      let join = join_organisation i a.user_id a.membership_id in
      let visit =
        join_workspace i.workspace_id i.workspace_role i.organisation_id a.user_id
          a.workspace_membership_id in
      let done : Unit → Action Invitation = λ _. pure (accepted a.now i) in
      bind_rule (λ (r : Result Invitation × Session). IsTaken py self raw o i a.now r)
        (change_invitation i.id (accepted a.now)) (λ _. join >> (visit >>= done)) s
        (λ e _ k. absurd (ground arith))
        (λ _ _.
          bind_rule (λ (r : Result Invitation × Session). IsTaken py self raw o i a.now r) join
            (λ _. visit >>= done) s1 (λ e _ k. absurd (ground arith))
            (λ _ k.
              bind_rule (λ (r : Result Invitation × Session). IsTaken py self raw o i a.now r) visit
                done (join s1).1 (λ e _ k. absurd (ground arith))
                (λ _ k' _.
                  join_workspace-IsTaken py self raw o i a.now i.workspace_id i.workspace_role
                    i.organisation_id a.user_id a.workspace_membership_id (join s1).1
                    (join_organisation-IsTaken py self raw o i a.now i a.user_id a.membership_id s1
                      taken (rw k refl))
                    (rw k' refl))))

  pub accept_found-checked :
      (a : Acceptance) (s : Session)
      → is_acceptable py i a ≡ true
      → accept_found py a i s ≡ accept_checked py a i s
  unfolding accept_found
  accept_found-checked a s h =
      bind-ok (check_invitation py i a) (λ _. accept_checked py a i) s tt s
        (check-passes py i a s h)

  accept_found-IsTaken :
      (a : Acceptance) (s : Session)
      → s.organisation ≡ some o
      → tokens py self raw o s.db.invitations ≡ i ∷ []
      → is_acceptable py i a ≡ true
      → IsTaken py self raw o i a.now (accept_found py a i s)
  accept_found-IsTaken a s here alone h =
      rw (accept_found-checked a s h) (accept_checked-IsTaken a s here alone)

  -- Once `accept` has returned, every later `accept` of the token, by whatever user, in a session
  -- that sees the table of invitations that the first one left, is refused: it raises, and changes
  -- no invitation and no membership. Nothing is said of two calls that race, of which the second
  -- reads the invitation before the first one's change is committed.
  pub accept-single_use :
      (a b : Acceptance) (s s' : Session)
      → Presents py self raw o i s
      → is_ok (accept py self raw a s).0 ≡ true
      → s'.db.invitations ≡ (accept py self raw a s).1.db.invitations
      → IsRefused s' (accept py self raw b s')
  accept-single_use a b s s' p done same = elim (Bool-cases (is_acceptable py i a)) [
    | inr unfit ↦
        absurd (ground (arith, done, (accept-IsRefused py self raw o i a s p unfit).raises))
    | inl fit ↦
        let taken : tokens py self raw o s'.db.invitations ≡ accepted a.now i ∷ [] = rw same (
          rw (accept-found py self raw o i a s p) (
            accept_found-IsTaken a (of_organisation o s) refl p.alone fit
              (rw⁻¹ (accept-found py self raw o i a s p) done))) in
        accept-IsRefused py self raw o (accepted a.now i) b s'
          (record { routed_to = p.routed_to; alone = taken }) (ground arith)
  ]
