-- ===== src/Tests/AuthRuns.antt =====
-- Runs of the services of backend/app/auth.
use atlascore.Base.{
  str_eq, ℕ, ◌+◌, ◌*◌, ◌≡◌, refl, Bool, true, false, Option, none, some, [], ◌∷◌, arith, inl, ok,
  err, Error, str_eq_iff,
}
use atlascore.Platform.{day}
use atlascore.Db.Models.{RefreshToken}
use atlascore.Db.Table.{select, count, update, exists}
use atlascore.Auth.RoutingToken.{partition, extract_organisation_hint, routed, extract-routed}
use atlascore.Auth.Refresh.{rotate, hash, conflicts, new_token, revoked}
use atlascore.Auth.Refresh.Families.{IsValid, active_in}
use atlascore.Auth.Refresh.Rotation.{IsSound, rotate-IsSound}
use atlascore.Auth.Refresh.Reuse.{
  Presents, reuse_revokes_family, rotate_live, replay_after_rotate, issued_token,
}
use atlascore.Auth.Refresh.Isolation.{of_org, rotate_isolated}
use atlascore.Auth.PreAuth.{hash as pre_auth_hash, consume, claim}
use atlascore.Auth.PreAuth.SingleUse.{IsRow, consume-live, consume-replayed, claim_once}
use atlascore.Auth.Permissions.{
  OrgRole, Permission, has_org_permission, org_role_value, permission_value,
}
use atlascore.Auth.Permissions.Privilege.{implies, role_order, administrator_exactly}
use atlascore.Tests.Examples.{
  pre_auth_service, pre_auth_row, pre_auth_session, plain, unary_uuid, unary_uuid-UuidLaws, unary,
  tally, refresh_service, first_token, fresh_values, token_session,
}

routed_text : extract_organisation_hint unary_uuid (routed unary_uuid 2 "s") ≡ some 2
routed_text =
    extract-routed unary_uuid unary_uuid-UuidLaws 2 "s" (λ h. ground (arith, h, str_eq_iff "s" ""))

abbrev pub one_organisation : ℕ → ℕ
one_organisation f = 2

pub first_token-IsValid : (active : Bool) → IsValid one_organisation (first_token active ∷ [])
unfolding count select
first_token-IsValid active = record {
  one_active = λ f. ground arith;
  same_org = (refl, tt);
  unique_hash = λ h. ground arith;
}

token_session-IsSound : (active : Bool) → IsSound one_organisation (token_session active)
token_session-IsSound active = record {
  pending = first_token-IsValid active;
  committed = first_token-IsValid active;
}

pub first_token-Presents :
    (active : Bool) → Presents plain refresh_service "aa.s" (first_token active)
unfolding plain unary_uuid hash extract_organisation_hint partition tally
first_token-Presents active = record { hint = refl; hash_fits = refl }

reuse_example :
    let (r, s') =
      rotate plain refresh_service "aa.s" none 10 11 fresh_values (token_session false) in
    (r ≡ err (Error.refresh_token_reuse 9)) × (count (active_in 9) s'.db.refresh_tokens ≡ 0)
reuse_example =
    reuse_revokes_family plain refresh_service "aa.s" (first_token false) one_organisation none 10
      11 fresh_values (token_session false) (first_token-Presents false) (first_token-IsValid false)
      (inl refl) refl

unused :
    exists
      (conflicts
        (issued_token plain refresh_service "aa.s" (first_token true) none 11 fresh_values))
      (first_token true ∷ [])
    ≡ false
unfolding exists conflicts new_token plain unary_uuid unary routed hash
unused = refl

rotate-IsSound_example :
    IsSound one_organisation
      (rotate plain refresh_service "aa.s" none 10 11 fresh_values (token_session true)).1
rotate-IsSound_example =
    rotate-IsSound plain refresh_service one_organisation "aa.s" none 10 11 fresh_values
      (token_session true) (token_session-IsSound true)

-- the token that the exchange issues
abbrev second_token : RefreshToken
second_token = record {
  id = 2;
  user_id = 5;
  organisation_id = 2;
  family_id = 9;
  jti = 2;
  token_hash = "aa.t";
  is_active = true;
  expires_at = 11 + 7 * day;
  revoked_at = none;
  family_revoked_at = none;
  client_ip = none;
}

rotate_live_example :
    rotate plain refresh_service "aa.s" none 10 11 fresh_values (token_session true) ≡ (
      ok (some ("aa.t", second_token)),
      record (token_session true) {
        organisation = some 2;
        db = record (token_session true).db {
          refresh_tokens = revoked 10 (first_token true) ∷ second_token ∷ [];
        };
      },
    )
unfolding new_token plain unary_uuid unary routed hash update
rotate_live_example =
    rotate_live plain refresh_service "aa.s" (first_token true) one_organisation none 10 11
      fresh_values (token_session true) (first_token-Presents true) (first_token-IsValid true)
      (inl refl) refl (omega arith) unused

replay_example :
    let later = rotate plain refresh_service "aa.s" none 10 11 fresh_values (token_session true) in
    let (r, t') = rotate plain refresh_service "aa.s" none 20 21 fresh_values later.1 in
    (r ≡ err (Error.refresh_token_reuse 9)) × (count (active_in 9) t'.db.refresh_tokens ≡ 0)
replay_example =
    replay_after_rotate plain refresh_service "aa.s" (first_token true) one_organisation none none
      10 11 20 21 fresh_values fresh_values (token_session true)
      (rotate plain refresh_service "aa.s" none 10 11 fresh_values (token_session true)).1
      (first_token-Presents true) (token_session-IsSound true) (inl refl) refl (omega arith) unused
      refl

isolated_example :
    select
      (of_org 3)
      (rotate plain refresh_service "aa.s" none 10 11 fresh_values
        (token_session true)).1.db.refresh_tokens
    ≡ select (of_org 3) (first_token true ∷ [])
isolated_example =
    rotate_isolated plain refresh_service 2 3 "aa.s" none 10 11 fresh_values (token_session true).db
      (first_token-Presents true).hint (λ h. ground (arith, h))

pre_auth_row-IsRow :
    (consumed_at : Option ℕ)
    → IsRow plain pre_auth_service "p" (pre_auth_row consumed_at) (pre_auth_row consumed_at ∷ [])
unfolding count select pre_auth_hash plain
pre_auth_row-IsRow consumed_at = record { fits = refl; stands = inl refl; alone = ground arith }

consume-live_example : consume plain pre_auth_service "p" 10 (pre_auth_session none) ≡ (
  ok (some (pre_auth_row (some 10))),
  record (pre_auth_session none) {
    db = record (pre_auth_session none).db { pre_auth_sessions = pre_auth_row (some 10) ∷ [] };
  },
)
unfolding update
consume-live_example =
    consume-live plain pre_auth_service "p" (pre_auth_row none) 10 (pre_auth_session none)
      (pre_auth_row-IsRow none) refl (omega arith)

consume-replayed_example :
    consume plain pre_auth_service "p" 10 (pre_auth_session (some 3))
    ≡ (err (Error.pre_auth_session_reuse 4 5), pre_auth_session (some 3))
consume-replayed_example =
    consume-replayed plain pre_auth_service "p" (pre_auth_row (some 3)) 10
      (pre_auth_session (some 3)) (pre_auth_row-IsRow (some 3)) refl

claim_once_example :
    claim (pre_auth_row none) 12 (claim (pre_auth_row none) 10 (pre_auth_session none)).1 ≡ (
      err (Error.pre_auth_session_reuse 4 5),
      (claim (pre_auth_row none) 10 (pre_auth_session none)).1,
    )
unfolding claim exists
claim_once_example =
    claim_once (pre_auth_row none) (pre_auth_row none) 10 12 (pre_auth_session none)
      (claim (pre_auth_row none) 10 (pre_auth_session none)).1 refl refl refl

role_order_example :
    implies
      (has_org_permission (some OrgRole.viewer) Permission.org_read)
      (has_org_permission (some OrgRole.analyst) Permission.org_read)
    ≡ true
role_order_example = (role_order Permission.org_read).0

administrator_example :
    (has_org_permission (some OrgRole.administrator) Permission.org_delete ≡ false)
    × (true ≡ true
        → (role : OrgRole)
        → has_org_permission (some role) Permission.org_delete
          ≡ str_eq (org_role_value role) "owner")
unfolding permission_value
administrator_example = administrator_exactly Permission.org_delete
