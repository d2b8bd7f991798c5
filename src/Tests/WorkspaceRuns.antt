-- ===== src/Tests/WorkspaceRuns.antt =====
-- Runs of services/workspace_service.py.
use atlascore.Base.{◌≡◌, refl, true, none, some, [], ◌∷◌, is_ok}
use atlascore.Db.Models.{Workspace}
use atlascore.Db.Session.{Session, begin, no_rows, insert}
use atlascore.Db.Table.{select, exists, scalar_one_or_none}
use atlascore.Services.Org.{find_membership}
use atlascore.Services.Audit.{emit_transactional}
use atlascore.Services.Invitation.{
  find_workspace_membership, add_workspace_membership, workspace_conflicts,
}
use atlascore.Services.Workspace.{
  add_member, check_member, check_workspace, check_new, enrol, get_workspace, find_workspace,
}
use atlascore.Services.Workspace.Admission.{Verdict, add_member-Verdict}
use atlascore.Tests.Examples.{plain, members, nowhere}

abbrev laboratory : Workspace
laboratory = record {
  id = 8;
  organisation_id = 2;
  slug = "lab";
  display_name = "L";
  description = none;
  is_active = true;
}

abbrev workspace_session : Session
workspace_session =
    record (begin (record no_rows { org_memberships = members; workspaces = laboratory ∷ [] })) {
      organisation = some 2;
    }

admitted : is_ok (add_member plain 8 2 6 "viewer" 5 nowhere 9 workspace_session).0 ≡ true
unfolding add_member check_member check_workspace check_new enrol get_workspace find_workspace
    find_membership find_workspace_membership add_workspace_membership workspace_conflicts select
    exists scalar_one_or_none insert emit_transactional
admitted = refl

add_member-Verdict_example :
    Verdict plain 8 2 6 "viewer" 5 nowhere 9 workspace_session
      (add_member plain 8 2 6 "viewer" 5 nowhere 9 workspace_session)
add_member-Verdict_example = add_member-Verdict plain 8 2 6 "viewer" 5 nowhere 9 workspace_session
