-- ===== src/Services/Invitation/Create.antt =====
-- `create` of services/invitation_service.py beside an earlier invitation of the same address.
use atlascore.Base.{
  ℕ, ◌≡◌, ◌≤◌, refl, Bool, true, false, ◌&&◌, not, List, arith, ltb, String, Option, some, none, ok,
  err, Error, Result, inl, inr, Bool-cases, if◌then◌else◌, ==_refl, ap, opt_eq,
}
use atlascore.Platform.{Platform}
use atlascore.Db.Models.{Invitation}
use atlascore.Db.Table.{select, exists, count, scalar_one_or_none, Has}
use atlascore.Db.Table.Count.{count_mono, count-split, count-pos_of_Has}
use atlascore.Db.Table.Rows.{one_or_none_of_zero, one_or_none_of_Has, exists_of_Has}
use atlascore.Db.Session.{Session, pure, set_organisation, rollback}
use atlascore.Db.Session.Rules.{bind-ok, bind-err, insert-conflict}
use atlascore.Auth.RoutingToken.{routed}
use atlascore.Services.Invitation.{
  InvitationService, is_pending, is_addressed, is_active, conflicts, add_invitation,
  find_invitation, find_active_by_email_org, draft, create_unless, create,
}
use atlascore.Services.Invitation.Refusal.{of_organisation}

module _ (py : Platform) (self : InvitationService) (o : ℕ) (email : String) (now : ℕ) where
  -- an invitation of the address, neither accepted nor revoked
  abbrev pub is_earlier : Invitation → Bool
  is_earlier i = is_addressed (py.strip (py.lower email)) o i && is_pending i

  -- the condition of the query for an active invitation
  abbrev is_found : Invitation → Bool
  is_found i =
      opt_eq (some o) i.organisation_id
      && (is_addressed (py.strip (py.lower email)) o i && is_active py now i)

  find_active-ran :
      (found : Option Invitation) (s : Session)
      → scalar_one_or_none (select is_found s.db.invitations) ≡ ok found
      → find_active_by_email_org py email o now s ≡ (ok found, of_organisation o s)
  unfolding find_active_by_email_org find_invitation set_organisation
  find_active-ran found s h = ap (λ (r : Result (Option Invitation)). (r, of_organisation o s)) h

  create-found :
      (found : Option Invitation) (org_role : Option String) (workspace : Option ℕ)
      (workspace_role : Option String) (creator hours row_id : ℕ) (secret : String) (s : Session)
      → scalar_one_or_none (select is_found s.db.invitations) ≡ ok found
      → create py self o email org_role workspace workspace_role creator hours now row_id secret s
        ≡ create_unless py self o email org_role workspace workspace_role creator hours now row_id
            secret found
            (of_organisation o s)
  unfolding create set_organisation
  create-found found org_role workspace workspace_role creator hours row_id secret s h =
      bind-ok (find_active_by_email_org py email o now)
        (create_unless py self o email org_role workspace workspace_role creator hours now row_id
          secret)
        (of_organisation o s) found (of_organisation o s)
        (find_active-ran found (of_organisation o s) h)

  no_active :
      (i : Invitation) (rows : List Invitation)
      → Has i rows
      → is_earlier i ≡ true
      → count is_earlier rows ≤ 1
      → ltb now i.expires_at ≡ false
      → scalar_one_or_none (select is_found rows) ≡ ok none
  no_active i rows has earlier one expired = one_or_none_of_zero is_found rows (
      omega (
        arith,
        one,
        count-split is_earlier (λ r. ltb now r.expires_at) rows,
        count_mono is_found (λ r. is_earlier r && ltb now r.expires_at) rows (λ r h. ground arith),
        count-pos_of_Has (λ r. is_earlier r && not (ltb now r.expires_at)) i rows has
            (rw earlier (rw expired refl)),
      ))

  the_active :
      (i : Invitation) (rows : List Invitation)
      → Has i rows
      → is_earlier i ≡ true
      → count is_earlier rows ≤ 1
      → ltb now i.expires_at ≡ true
      → scalar_one_or_none (select is_found rows) ≡ ok (some i)
  the_active i rows has earlier one active =
      one_or_none_of_Has is_found i rows has (ground (arith, ==_refl o))
        (omega (arith, one, count_mono is_found is_earlier rows (λ r h. ground arith)))

  module _ (org_role : Option String) (workspace : Option ℕ) (workspace_role : Option String)
      (creator hours row_id : ℕ) (secret : String) where
    abbrev row : Invitation
    row = draft py self o email org_role workspace workspace_role creator hours now row_id secret

    row-conflicts :
        (i : Invitation) (rows : List Invitation)
        → Has i rows
        → is_earlier i ≡ true
        → exists (conflicts row) rows ≡ true
    unfolding conflicts draft
    row-conflicts i rows has earlier = exists_of_Has (conflicts row) i rows has (ground arith)

    refused_by_index :
        (i : Invitation) (s : Session)
        → Has i s.db.invitations
        → is_earlier i ≡ true
        → add_invitation row (of_organisation o s) ≡ (err Error.integrity_error, rollback s)
    unfolding add_invitation draft rollback
    refused_by_index i s has earlier =
        insert-conflict _ _ _ (of_organisation o s) (==_refl o)
          (row-conflicts i s.db.invitations has earlier)

    create-refused :
        (i : Invitation) (s : Session)
        → Has i s.db.invitations
        → is_earlier i ≡ true
        → create_unless py self o email org_role workspace workspace_role creator hours now row_id
            secret none
            (of_organisation o s)
          ≡ (err Error.integrity_error, rollback s)
    unfolding create_unless
    create-refused i s has earlier =
        bind-err (add_invitation row) (λ _. pure (row, routed py.uuid o secret))
          (of_organisation o s) Error.integrity_error (rollback s)
          (refused_by_index i s has earlier)

    create-duplicate :
        (i : Invitation) (s : Session)
        → create_unless py self o email org_role workspace workspace_role creator hours now row_id
            secret
            (some i)
            s
          ≡ (err Error.invitation_duplicate, s)
    unfolding create_unless
    create-duplicate i s = refl

    -- The address has an invitation that is neither accepted nor revoked: `create` raises. Where
    -- it is still active the error is InvitationDuplicateError. Where it has expired the query for
    -- an active one finds nothing, and the unique index, which has no condition on the time,
    -- refuses the row: the error is the IntegrityError of the database.
    pub create-beside_earlier :
        (i : Invitation) (s : Session)
        → Has i s.db.invitations
        → is_earlier i ≡ true
        → count is_earlier s.db.invitations ≤ 1
        → (create py self o email org_role workspace workspace_role creator hours now row_id secret
            s).0
          ≡ err (if ltb now i.expires_at then Error.invitation_duplicate else Error.integrity_error)
    create-beside_earlier i s has earlier one = elim (Bool-cases (ltb now i.expires_at)) [
      | inl active ↦ rw active (
          rw
            (create-found (some i) org_role workspace workspace_role creator hours row_id secret s
              (the_active i s.db.invitations has earlier one active))
            (rw (create-duplicate i (of_organisation o s)) refl))
      | inr expired ↦ rw expired (
          rw
            (create-found none org_role workspace workspace_role creator hours row_id secret s
              (no_active i s.db.invitations has earlier one expired))
            (rw (create-refused i s has earlier) refl))
    ]
