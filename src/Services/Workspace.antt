-- ===== src/Services/Workspace.antt =====
-- services/workspace_service.py: the workspaces of an organisation and their members.
-- The methods run in a session whose organisation is set, as those of Services.Org do.
pub mod Admission
use atlascore.Base.{
  ℕ, String, Bool, true, ◌&&◌, Option, none, some, List, [], ◌∷◌, Error, ◌==◌, str_eq,
}
use atlascore.Platform.{Platform}
use atlascore.Db.Models.{Workspace, WorkspaceMembership, OrganisationMembership, Value}
use atlascore.Db.Table.{select, update, delete, scalar_one_or_none}
use atlascore.Db.Session.{Session, Action, pure, raise, lift, modify, ◌>>=◌, ◌>>◌, tenant}
use atlascore.Services.Audit.{Origin, emit_transactional}
use atlascore.Services.Org.{is_member, readable, find_membership, found_or}
use atlascore.Services.Invitation.{add_workspace_membership, find_workspace_membership}
use atlascore.Services.Auth.Register.{add_workspace}

abbrev pub is_workspace : ℕ → ℕ → Workspace → Bool
is_workspace workspace_id organisation_id w =
    w.id == workspace_id && w.organisation_id == organisation_id

unfoldable pub find_workspace : (Workspace → Bool) → Action (Option Workspace)
find_workspace p s = (
  scalar_one_or_none (select (λ w. tenant s.organisation w.organisation_id && p w) s.db.workspaces),
  s,
)

unfoldable pub get_workspace : ℕ → ℕ → Action (Option Workspace)
get_workspace workspace_id organisation_id =
    find_workspace (is_workspace workspace_id organisation_id)

-- `if x is not None: raise WorkspaceServiceError`
abbrev pub absent_or_refused : {A : Type 0} → Option A → Action Unit
absent_or_refused none = pure tt
absent_or_refused (some a) = raise Error.workspace_service_error

abbrev pub changed : Option String → Option String → Workspace → Workspace
changed display_name description w = record w {
  display_name = elim display_name [ none ↦ w.display_name | some n ↦ n ];
  description = elim description [ none ↦ w.description | some d ↦ some d ];
}

module _ (py : Platform) where
  -- `workspace_id` and `row_id` are the ids that the new rows get
  unfoldable pub create_workspace :
      ℕ → String → String → Option String → ℕ → Origin → ℕ → ℕ → Action Workspace
  create_workspace organisation_id slug display_name description actor_user_id origin workspace_id
        row_id =
      do
        taken ← find_workspace (λ w. w.organisation_id == organisation_id && str_eq w.slug slug)
        absent_or_refused taken
        let workspace : Workspace = record {
          id = workspace_id;
          organisation_id = organisation_id;
          slug = slug;
          display_name = display_name;
          description = description;
          is_active = true;
        }
        add_workspace workspace
        add_workspace_membership (record {
          id = row_id;
          workspace_id = workspace_id;
          organisation_id = organisation_id;
          user_id = actor_user_id;
          workspace_role = "administrator";
        })
        emit_transactional py "workspace.created" organisation_id (some actor_user_id)
            (("workspace_id", Value.uuid workspace_id) ∷ ("slug", Value.text slug) ∷ []) origin
            "success"
        emit_transactional py "workspace.membership_added" organisation_id (some actor_user_id)
            (("workspace_id", Value.uuid workspace_id)
              ∷ ("target_user_id", Value.uuid actor_user_id)
              ∷ ("workspace_role", Value.text "administrator")
              ∷ [])
            origin "success"
        pure workspace

  unfoldable pub update_workspace : ℕ → ℕ → Option String → Option String → Action Workspace
  update_workspace workspace_id organisation_id display_name description = do
    ws ← (do
      w ← get_workspace workspace_id organisation_id
      found_or Error.workspace_service_error w)
    (λ s.
        modify
          (λ t. record t {
            workspaces =
                update (λ w. tenant s.organisation w.organisation_id && w.id == ws.id)
                  (changed display_name description) t.workspaces;
          })
          s)
    pure (changed display_name description ws)

  -- the rest of `add_member`, where its three queries let the user in
  unfoldable pub enrol : ℕ → ℕ → ℕ → String → ℕ → Origin → ℕ → Action WorkspaceMembership
  enrol workspace_id organisation_id user_id workspace_role actor_user_id origin row_id = do
    let wm : WorkspaceMembership = record {
      id = row_id;
      workspace_id = workspace_id;
      organisation_id = organisation_id;
      user_id = user_id;
      workspace_role = workspace_role;
    }
    add_workspace_membership wm
    emit_transactional py "workspace.membership_added" organisation_id (some actor_user_id)
        (("workspace_id", Value.uuid workspace_id)
          ∷ ("target_user_id", Value.uuid user_id)
          ∷ ("workspace_role", Value.text workspace_role)
          ∷ [])
        origin "success"
    pure wm

  unfoldable pub check_new :
      ℕ → ℕ → ℕ → String → ℕ → Origin → ℕ → Option WorkspaceMembership → Action WorkspaceMembership
  check_new workspace_id organisation_id user_id role actor origin row_id (some existing) =
      raise Error.workspace_service_error
  check_new workspace_id organisation_id user_id role actor origin row_id none =
      enrol workspace_id organisation_id user_id role actor origin row_id

  unfoldable pub check_workspace :
      ℕ → ℕ → ℕ → String → ℕ → Origin → ℕ → Option Workspace → Action WorkspaceMembership
  check_workspace workspace_id organisation_id user_id role actor origin row_id none =
      raise Error.workspace_service_error
  check_workspace workspace_id organisation_id user_id role actor origin row_id (some w) =
      find_workspace_membership workspace_id user_id
      >>= check_new workspace_id organisation_id user_id role actor origin row_id

  unfoldable pub check_member :
      ℕ
      → ℕ
      → ℕ
      → String
      → ℕ
      → Origin
      → ℕ
      → Option OrganisationMembership
      → Action WorkspaceMembership
  check_member workspace_id organisation_id user_id role actor origin row_id none =
      raise Error.workspace_service_error
  check_member workspace_id organisation_id user_id role actor origin row_id (some m) =
      get_workspace workspace_id organisation_id
      >>= check_workspace workspace_id organisation_id user_id role actor origin row_id

  unfoldable pub add_member : ℕ → ℕ → ℕ → String → ℕ → Origin → ℕ → Action WorkspaceMembership
  add_member workspace_id organisation_id user_id workspace_role actor_user_id origin row_id =
      find_membership (is_member organisation_id user_id)
      >>= check_member workspace_id organisation_id user_id workspace_role actor_user_id origin
          row_id

  unfoldable pub remove_found : ℕ → ℕ → ℕ → ℕ → Origin → WorkspaceMembership → Action Unit
  remove_found workspace_id organisation_id user_id actor_user_id origin wm = do
    (λ s.
        modify
          (λ t. record t {
            workspace_memberships =
                delete (λ m. tenant s.organisation m.organisation_id && m.id == wm.id)
                  t.workspace_memberships;
          })
          s)
    emit_transactional py "workspace.membership_removed" organisation_id (some actor_user_id)
        (("workspace_id", Value.uuid workspace_id) ∷ ("target_user_id", Value.uuid user_id) ∷ [])
        origin "success"

  unfoldable pub remove_member : ℕ → ℕ → ℕ → ℕ → Origin → Action Unit
  remove_member workspace_id organisation_id user_id actor_user_id origin =
      (do
        m ← find_workspace_membership workspace_id user_id
        found_or Error.workspace_service_error m)
      >>= remove_found workspace_id organisation_id user_id actor_user_id origin
