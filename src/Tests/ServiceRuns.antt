-- ===== src/Tests/ServiceRuns.antt =====
-- Runs of backend/app/services and of backend/app/knowledge.
use atlascore.Base.{
  ℕ, ◌≡◌, ◌≤◌, refl, true, false, Option, none, some, [], ◌∷◌, ◌++◌, arith, inl, inr, ok, err,
  Error,
}
use atlascore.Db.Models.{Value, User}
use atlascore.Db.Session.{Session}
use atlascore.Services.Org.Admission.{Admits, add_member-Admits}
use atlascore.Services.Audit.{emit_transactional, emit_independent, emit_tenant_independent}
use atlascore.Services.Audit.Redaction.{IsCleanLog, emit-IsCleanLog}
use atlascore.Db.Table.{select, count, Has, exists}
use atlascore.Auth.RoutingToken.{partition, extract_organisation_hint}
use atlascore.Services.Org.{
  conflicts, add_member, remove_member, change_member_role, transfer_ownership,
}
use atlascore.Services.Org.Ownership.{IsOwned, IsSound}
use atlascore.Services.Org.Methods.{remove_member-IsSound, change_member_role-IsSound}
use atlascore.Services.Org.Transfer.{transfer_ownership-moves}
use atlascore.Services.Org.TransferAll.{transfer_ownership-IsSound}
use atlascore.Services.Invitation.{hash_token, accepted, accept, create}
use atlascore.Services.Invitation.Refusal.{Presents, IsRefused, is_acceptable, accept-IsRefused}
use atlascore.Services.Invitation.SingleUse.{accept-single_use}
use atlascore.Services.Invitation.Joins.{granted, accept-joins}
use atlascore.Services.Invitation.Create.{is_earlier, create-beside_earlier}
use atlascore.Knowledge.Chunker.{text_chunker, chunk}
use atlascore.Knowledge.Chunker.Coverage.{IsChunked, chunk-IsChunked}
use atlascore.Tests.Examples.{
  plain, unary_uuid, tally, first_member, second_member, members, member_session, nowhere,
  invitation_service, invitation, invitation_session, guest,
}

members-IsOwned : IsOwned 2 members
unfolding count select
members-IsOwned = record {
  one_owner = refl;
  unique_id = λ i. ground arith;
  unique_user = λ c u. ground arith;
}

member_session-IsSound : IsSound 2 member_session
member_session-IsSound = record { pending = members-IsOwned; committed = members-IsOwned }

transfer_example :
    let out = transfer_ownership plain 2 5 6 nowhere member_session in
    let rows = out.1.db.org_memberships in
    (out.0 ≡ ok tt)
    × Has (record first_member { org_role = some "administrator" }) rows
    × Has (record second_member { org_role = some "owner" }) rows
    × IsOwned 2 rows
transfer_example =
    transfer_ownership-moves plain 2 5 6 nowhere member_session first_member second_member refl
      members-IsOwned (λ h. ground (arith, h)) (inl refl) refl (inr (inl refl)) refl

remove_example : IsSound 2 (remove_member plain 2 5 5 nowhere member_session).1
remove_example =
    remove_member-IsSound plain 2 2 5 5 nowhere member_session refl member_session-IsSound

change_example : IsSound 2 (change_member_role plain 2 6 (some "owner") 5 nowhere member_session).1
change_example =
    change_member_role-IsSound plain 2 2 6 (some "owner") 5 nowhere member_session refl
      member_session-IsSound

-- a user who is no member of organisation 2 yet
abbrev outsider : User
outsider = record {
  id = 7;
  email = "o";
  email_verified = true;
  full_name = "n";
  password_hash = "h";
  pepper_version = 1;
  is_active = true;
  is_platform_admin = false;
  last_login_at = none;
}

abbrev newcomer_session : Session
newcomer_session = record member_session { db = record member_session.db { users = outsider ∷ [] } }

add_example :
    Admits plain 2 7
      (some "viewer")
      5
      nowhere
      4
      newcomer_session
      (add_member plain 2 7 (some "viewer") 5 nowhere 4 newcomer_session)
add_example = add_member-Admits plain 2 7 (some "viewer") 5 nowhere 4 newcomer_session

invitation-Presents :
    (revoked_at : Option ℕ)
    → Presents plain invitation_service "aa.s" 2
        (invitation revoked_at)
        (invitation_session revoked_at)
unfolding plain unary_uuid tally extract_organisation_hint partition hash_token select
invitation-Presents revoked_at = record { routed_to = refl; alone = refl }

free_membership : exists (conflicts (granted (invitation none) (guest 10))) members ≡ false
unfolding exists conflicts
free_membership = refl

guest-fits : is_acceptable plain (invitation none) (guest 10) ≡ true
unfolding plain
guest-fits = refl

still_pending : is_earlier plain invitation_service 2 "g" 200 (invitation none) ≡ true
unfolding plain
still_pending = refl

alone_pending : count (is_earlier plain invitation_service 2 "g" 200) (invitation none ∷ []) ≤ 1
unfolding plain count select
alone_pending = omega arith

two_words : text_chunker 2 1 ≡ ok (record { chunk_size = 2; overlap = 1; step = 1 })
unfolding text_chunker
two_words = refl

joins_example :
    let out = accept plain invitation_service "aa.s" (guest 10) (invitation_session none) in
    (out.0 ≡ ok (accepted 10 (invitation none)))
    × (out.1.db.org_memberships ≡ members ++ granted (invitation none) (guest 10) ∷ [])
    × (out.1.db.workspace_memberships ≡ [])
joins_example =
    accept-joins plain invitation_service "aa.s" 2 (invitation none) (guest 10)
      (invitation_session none) (invitation-Presents none) guest-fits refl free_membership

accept-IsRefused_example :
    IsRefused
      (invitation_session (some 4))
      (accept plain invitation_service "aa.s" (guest 10) (invitation_session (some 4)))
accept-IsRefused_example =
    accept-IsRefused plain invitation_service "aa.s" 2 (invitation (some 4)) (guest 10)
      (invitation_session (some 4)) (invitation-Presents (some 4)) refl

single_use_example :
    let s = (accept plain invitation_service "aa.s" (guest 10) (invitation_session none)).1 in
    IsRefused s (accept plain invitation_service "aa.s" (guest 20) s)
single_use_example =
    accept-single_use plain invitation_service "aa.s" 2 (invitation none) (guest 10) (guest 20)
      (invitation_session none)
      (accept plain invitation_service "aa.s" (guest 10) (invitation_session none)).1
      (invitation-Presents none) (rw joins_example.0 refl) refl

beside_example :
    (create plain invitation_service 2 "g"
      (some "viewer")
      none
      none
      5
      72
      200
      11
      "t"
      (invitation_session none)).0
    ≡ err Error.integrity_error
beside_example =
    create-beside_earlier plain invitation_service 2 "g" 200 (some "viewer") none none 5 72 11 "t"
      (invitation none) (invitation_session none) (inl refl) still_pending alone_pending

chunk_example :
    IsChunked plain 2 1 "text"
      (chunk plain (record { chunk_size = 2; overlap = 1; step = 1 }) "text")
chunk_example =
    chunk-IsChunked plain 2 1 (record { chunk_size = 2; overlap = 1; step = 1 }) "text" two_words

no_events : IsCleanLog plain member_session
no_events = record { pending = tt; committed = tt }

clean_example :
    IsCleanLog plain
      (emit_transactional plain "org.updated" 2 none
        (("token", Value.text "x") ∷ [])
        nowhere
        "success"
        member_session).1
    × IsCleanLog plain
        (emit_independent plain "org.updated" none
          (("token", Value.text "x") ∷ [])
          nowhere
          "success"
          member_session).1
    × IsCleanLog plain
        (emit_tenant_independent plain "org.updated" 2 none
          (("token", Value.text "x") ∷ [])
          nowhere
          "success"
          member_session).1
clean_example =
    emit-IsCleanLog plain "org.updated" 2 none (("token", Value.text "x") ∷ []) nowhere "success"
      member_session no_events

transfer_ownership-IsSound_example :
    IsSound 2 (transfer_ownership plain 2 6 5 nowhere member_session).1
transfer_ownership-IsSound_example =
    transfer_ownership-IsSound plain 2 2 6 5 nowhere member_session refl member_session-IsSound
