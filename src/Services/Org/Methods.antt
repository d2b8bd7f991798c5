-- ===== src/Services/Org/Methods.antt =====
-- Every method of services/org_service.py keeps exactly one owner in the session's organisation.
use atlascore.Base.{
  ℕ, ◌≡◌, false, List, arith, String, Option, some, inl, inr, ok, err, Error, contains, [], ◌∷◌,
  Bool-cases, opt_str_eq, Result,
}
use atlascore.Platform.{Platform}
use atlascore.Db.Models.{OrganisationMembership, Value}
use atlascore.Db.Table.{Has}
use atlascore.Db.Session.{Session, ◌>>◌, pure, rollback}
use atlascore.Db.Session.Rules.{bind_rule, insert_rule, if_rule}
use atlascore.Db.Session.Keeps.{Keeps, Keeps-then, Keeps-pure}
use atlascore.Services.Audit.{Origin, emit_transactional, all_event_types, event, log}
use atlascore.Services.Org.{
  owner, is_owner, or_null, set_role, delete_membership, remove_found, remove_member, change_found,
  change_member_role,
}
use atlascore.Services.Org.Ownership.{
  IsSound, require_rule, delete-IsOwned, set_role-IsOwned, other_owner-exists,
}

emit-IsSound :
    (py : Platform) (o : ℕ) (event_type : String) (organisation : ℕ) (actor : Option ℕ)
    (fields : List (String × Value)) (origin : Origin) (outcome : String) (s : Session)
    → IsSound o s
    → IsSound o (emit_transactional py event_type organisation actor fields origin outcome s).1
unfolding emit_transactional
emit-IsSound py o event_type organisation actor fields origin outcome s v =
    if_rule (λ (r : Result (Unit {0}) × Session). IsSound o r.1)
      (contains event_type all_event_types)
      (ok tt, log (event py event_type (some organisation) actor fields origin outcome) s)
      (err Error.value_error, s) (λ h. record { pending = v.pending; committed = v.committed })
      (λ h. v)

pub emit-Keeps :
    (py : Platform) (o : ℕ) (event_type : String) (organisation : ℕ) (actor : Option ℕ)
    (fields : List (String × Value)) (origin : Origin) (outcome : String)
    → Keeps (IsSound o) (emit_transactional py event_type organisation actor fields origin outcome)
emit-Keeps py o event_type organisation actor fields origin outcome = record {
  keep = emit-IsSound py o event_type organisation actor fields origin outcome;
}

remove_found-IsSound :
    (py : Platform) (o organisation_id user_id actor : ℕ) (origin : Origin) (s : Session)
    (m : OrganisationMembership)
    → s.organisation ≡ some o
    → IsSound o s
    → Has m s.db.org_memberships
    → IsSound o (remove_found py organisation_id user_id actor origin m s).1
unfolding remove_found delete_membership
remove_found-IsSound py o organisation_id user_id actor origin s m here v has =
    elim (Bool-cases (is_owner m)) [
      | inl own ↦ rw own v
      | inr other ↦ rw other (
          emit-IsSound py o "org.membership_removed" organisation_id (some actor)
            (("target_user_id", Value.uuid user_id) ∷ []) origin "success" _
            (record {
              pending = rw here (delete-IsOwned o s.db.org_memberships m v.pending has other);
              committed = v.committed;
            }))
    ]

-- A membership that is no owner gets a role.
set_role-IsSound :
    (o : ℕ) (m : OrganisationMembership) (role : Option String) (s : Session)
    → s.organisation ≡ some o
    → IsSound o s
    → Has m s.db.org_memberships
    → is_owner m ≡ false
    → IsSound o (set_role m role s).1
unfolding set_role rollback
set_role-IsSound o m role s here v has other =
    insert_rule (λ (r : Result (Unit {0}) × Session). IsSound o r.1) _ _ _ s
      (λ h. record { pending = v.committed; committed = v.committed })
      (λ h k. record { pending = v.committed; committed = v.committed })
      (λ h k. record {
        pending = rw here (
            set_role-IsOwned o s.db.org_memberships m role v.pending has other
              (elim (Bool-cases (opt_str_eq role owner)) [
                | inl own ↦ absurd (
                    ground (
                      arith,
                      h,
                      k,
                      here,
                      own,
                      other_owner-exists o s.db.org_memberships m v.pending has other,
                    ))
                | inr plain ↦ plain
              ]));
        committed = v.committed;
      })

change_found-IsSound :
    (py : Platform) (o organisation_id user_id : ℕ) (role : Option String) (actor : ℕ)
    (origin : Origin) (s : Session) (m : OrganisationMembership)
    → s.organisation ≡ some o
    → IsSound o s
    → Has m s.db.org_memberships
    → IsSound o (change_found py organisation_id user_id role actor origin m s).1
unfolding change_found
change_found-IsSound py o organisation_id user_id role actor origin s m here v has =
    elim (Bool-cases (is_owner m)) [
      | inl own ↦ rw own v
      | inr other ↦ rw other (
          let v' = set_role-IsSound o m role s here v has other in
          bind_rule (λ (r : Result OrganisationMembership × Session). IsSound o r.1)
            (set_role m role)
            (λ _. do
              emit_transactional py "org.role_changed" organisation_id (some actor)
                  (("target_user_id", Value.uuid user_id)
                    ∷ ("old_role", or_null m.org_role)
                    ∷ ("new_role", or_null role)
                    ∷ [])
                  origin "success"
              pure (record m { org_role = role }))
            s (λ e h. v')
            (λ a h.
              (Keeps-then
                  (emit-Keeps py o "org.role_changed" organisation_id (some actor)
                    (("target_user_id", Value.uuid user_id)
                      ∷ ("old_role", or_null m.org_role)
                      ∷ ("new_role", or_null role)
                      ∷ [])
                    origin "success")
                  Keeps-pure).keep
                (set_role m role s).1 v'))
    ]

-- Removing a member, in a session of the organisation
-- whose memberships, pending and committed, have exactly one owner, distinct ids, and no user twice
-- in an organisation, keeps all of that, whatever the
-- member and the outcome.
pub remove_member-IsSound :
    (py : Platform) (o organisation_id user_id actor : ℕ) (origin : Origin) (s : Session)
    → s.organisation ≡ some o
    → IsSound o s
    → IsSound o (remove_member py organisation_id user_id actor origin s).1
unfolding remove_member
remove_member-IsSound py o organisation_id user_id actor origin s here v =
    require_rule (λ (r : Result (Unit {0}) × Session). IsSound o r.1) _
      (remove_found py organisation_id user_id actor origin) s (λ e. v)
      (λ m p has. remove_found-IsSound py o organisation_id user_id actor origin s m here v has)

-- Changing a role, in a session of the organisation
-- whose memberships, pending and committed, have exactly one owner, distinct ids, and no user twice
-- in an organisation, keeps all of that, whatever the
-- member, the new role and the outcome.
pub change_member_role-IsSound :
    (py : Platform) (o organisation_id user_id : ℕ) (role : Option String) (actor : ℕ)
    (origin : Origin) (s : Session)
    → s.organisation ≡ some o
    → IsSound o s
    → IsSound o (change_member_role py organisation_id user_id role actor origin s).1
unfolding change_member_role
change_member_role-IsSound py o organisation_id user_id role actor origin s here v =
    require_rule (λ (r : Result OrganisationMembership × Session). IsSound o r.1) _
      (change_found py organisation_id user_id role actor origin) s (λ e. v)
      (λ m p has.
        change_found-IsSound py o organisation_id user_id role actor origin s m here v has)
