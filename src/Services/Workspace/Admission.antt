-- ===== src/Services/Workspace/Admission.antt =====
-- `add_member` of services/workspace_service.py: who joins a workspace.
use atlascore.Base.{
  ℕ, String, ◌≡◌, refl, true, false, ◌&&◌, [], ◌∷◌, ◌++◌, Option, none, some, arith, ok, err, Error,
  Result, ◌⊎◌, inl, inr,
}
use atlascore.Platform.{Platform}
use atlascore.Db.Models.{Workspace, WorkspaceMembership, OrganisationMembership, Value}
use atlascore.Db.Table.{select, scalar_one_or_none, exists, Has}
use atlascore.Db.Table.Rows.{one_or_none-some}
use atlascore.Db.Session.{Session, Action, tenant, rollback, lift, pure, ◌>>=◌, ◌>>◌}
use atlascore.Db.Session.Rules.{insert_rule}
use atlascore.Services.Audit.{Origin, emit_transactional}
use atlascore.Services.Org.{is_member, readable, find_membership}
use atlascore.Services.Invitation.{
  add_workspace_membership, find_workspace_membership, workspace_conflicts,
}
use atlascore.Services.Workspace.{
  is_workspace, find_workspace, get_workspace, enrol, check_new, check_workspace, check_member,
  add_member,
}

module _ (py : Platform) (workspace_id organisation_id user_id : ℕ) (role : String) (actor : ℕ)
    (origin : Origin) (row_id : ℕ) where
  -- The user is a member of the organisation, which has the workspace; the unique columns are free;
  -- and the membership is the one row that is new.
  pub record IsAdmitted (s t : Session) (wm : WorkspaceMembership) : Type 0 where
    pub member : OrganisationMembership
    pub member_stands : Has member s.db.org_memberships
    pub member_is : is_member organisation_id user_id member ≡ true
    pub workspace : Workspace
    pub workspace_stands : Has workspace s.db.workspaces
    pub workspace_is : is_workspace workspace_id organisation_id workspace ≡ true
    pub free : exists (workspace_conflicts wm) s.db.workspace_memberships ≡ false
    pub row : wm ≡ record {
      id = row_id;
      workspace_id = workspace_id;
      organisation_id = organisation_id;
      user_id = user_id;
      workspace_role = role;
    }
    pub rows : t.db.workspace_memberships ≡ s.db.workspace_memberships ++ wm ∷ []

  -- A success is an admission. After a failure the rows are as before, or as they are committed
  -- where the database refused the new one.
  abbrev pub Verdict : Session → Result WorkspaceMembership × Session → Type 0
  Verdict s (ok wm, t) = IsAdmitted s t wm
  Verdict s (err e, t) =
      (t.db.workspace_memberships ≡ s.db.workspace_memberships)
      ⊎ (t.db.workspace_memberships ≡ s.committed.workspace_memberships)

  found_rule :
      {A : Type 0} (Q : Result WorkspaceMembership × Session → Type 0) (r : Result (Option A))
      (f : Option A → Action WorkspaceMembership) (s : Session)
      → ((e : Error) → Q (err e, s))
      → Q (f none s)
      → ((a : A) → r ≡ ok (some a) → Q (f (some a) s))
      → Q ((lift r >>= f) s)
  found_rule Q (err e) f s fails absent goes = fails e
  found_rule Q (ok none) f s fails absent goes = absent
  found_rule Q (ok (some a)) f s fails absent goes = goes a refl

  abbrev newcomer : WorkspaceMembership
  newcomer = record {
    id = row_id;
    workspace_id = workspace_id;
    organisation_id = organisation_id;
    user_id = user_id;
    workspace_role = role;
  }

  -- what `enrol` does behind its insertion
  abbrev welcomed : Action WorkspaceMembership
  welcomed = do
    emit_transactional py "workspace.membership_added" organisation_id (some actor)
        (("workspace_id", Value.uuid workspace_id)
          ∷ ("target_user_id", Value.uuid user_id)
          ∷ ("workspace_role", Value.text role)
          ∷ [])
        origin "success"
    pure newcomer

  module _ (s : Session) (m : OrganisationMembership) (w : Workspace)
      (m_stands : Has m s.db.org_memberships) (m_is : is_member organisation_id user_id m ≡ true)
      (w_stands : Has w s.db.workspaces)
      (w_is : is_workspace workspace_id organisation_id w ≡ true) where
    enrol-Verdict :
        Verdict s (enrol py workspace_id organisation_id user_id role actor origin row_id s)
    unfolding enrol add_workspace_membership emit_transactional rollback
    enrol-Verdict =
        insert_rule (λ (out : Result (Unit {0}) × Session). Verdict s (((λ _. out) >> welcomed) s))
          (tenant s.organisation organisation_id)
          (exists (workspace_conflicts newcomer) s.db.workspace_memberships)
          (λ t. record t { workspace_memberships = t.workspace_memberships ++ newcomer ∷ [] }) s
          (λ h. inr refl) (λ h k. inr refl)
          (λ h k. record {
            member = m;
            member_stands = m_stands;
            member_is = m_is;
            workspace = w;
            workspace_stands = w_stands;
            workspace_is = w_is;
            free = k;
            row = refl;
            rows = refl;
          })

    check_new-Verdict :
        (r : Result (Option WorkspaceMembership))
        → Verdict s (
            (lift r >>= check_new py workspace_id organisation_id user_id role actor origin row_id)
              s)
    unfolding check_new
    check_new-Verdict r =
        found_rule (Verdict s) r
          (check_new py workspace_id organisation_id user_id role actor origin row_id) s
          (λ e. inl refl) enrol-Verdict (λ a h. inl refl)

  -- Whoever `add_member` adds to a workspace is a member of its organisation and was not in it yet,
  -- and the organisation has the workspace; the new row has the role asked for, and no other row
  -- changes. After an error the memberships are as they were, or, where the database refused the
  -- row and the transaction rolled back, as they are committed.
  pub add_member-Verdict :
      (s : Session)
      → Verdict s (add_member py workspace_id organisation_id user_id role actor origin row_id s)
  unfolding add_member check_member check_workspace find_membership get_workspace find_workspace
      find_workspace_membership
  add_member-Verdict s =
      found_rule (Verdict s)
        (scalar_one_or_none
          (select (λ m. readable s m && is_member organisation_id user_id m) s.db.org_memberships))
        (check_member py workspace_id organisation_id user_id role actor origin row_id) s
        (λ e. inl refl) (inl refl)
        (λ m h.
          found_rule (Verdict s)
            (scalar_one_or_none (
              select
                (λ w.
                  tenant s.organisation w.organisation_id
                  && is_workspace workspace_id organisation_id w)
                s.db.workspaces))
            (check_workspace py workspace_id organisation_id user_id role actor origin row_id) s
            (λ e. inl refl) (inl refl)
            (λ w k.
              let fm = one_or_none-some _ s.db.org_memberships m h in
              let fw = one_or_none-some _ s.db.workspaces w k in
              check_new-Verdict s m w fm.1 (ground (arith, fm.0)) fw.1 (ground (arith, fw.0)) _))
