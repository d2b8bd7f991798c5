-- ===== src/Tests/Examples.antt =====
-- A platform whose functions can be run, and rows to run the services on.
use atlascore.Base.{
  ℕ, zero, suc, ◌+◌, ◌≡◌, refl, Bool, true, Option, none, some, List, [], ◌∷◌, String, ap,
}
use atlascore.Platform.{Uuid, Platform}
use atlascore.Db.Models.{
  RefreshToken, PreAuthSession, OrganisationMembership, Invitation, ServiceAccount, ApiKey,
}
use atlascore.Db.Session.{Session, begin, no_rows}
use atlascore.Auth.RoutingToken.{partition, UuidLaws}
use atlascore.Auth.Refresh.{RefreshTokenService, Fresh}
use atlascore.Auth.PreAuth.{PreAuthSessionService}
use atlascore.Services.Audit.{Origin}
use atlascore.Services.ApiKey.{ServiceAccountService, Fresh as KeyFresh}
use atlascore.Services.Invitation.{InvitationService, Acceptance}

-- an identifier in unary
unfoldable pub unary : ℕ → String
unary zero = String.[]
unary (suc n) = String.◌∷◌ "a" (unary n)

unfoldable pub tally : String → ℕ
tally String.[] = 0
tally (String.◌∷◌ c s) = suc (tally s)

unfoldable pub unary_uuid : Uuid
unfolding unary tally
unary_uuid = record { show = unary; parse = λ s. some (tally s) }

tally-unary : (n : ℕ) → tally (unary n) ≡ n
unfolding tally unary
tally-unary zero = refl
tally-unary (suc n) = ap suc (tally-unary n)

partition-unary : (n : ℕ) → partition (unary n) ≡ none
unfolding unary partition
partition-unary zero = refl
partition-unary (suc n) = rw (partition-unary n) refl

pub unary_uuid-UuidLaws : UuidLaws unary_uuid
unfolding unary_uuid
unary_uuid-UuidLaws = record { parse-show = λ n. ap some (tally-unary n); no_dot = partition-unary }

unfoldable pub plain : Platform
unfolding unary_uuid
plain = record {
  uuid = unary_uuid;
  blake2b = λ t. t;
  sha256 = λ t. t;
  keyed_blake2b = λ key t. t;
  lower = λ t. t;
  strip = λ t. t;
  split = λ t. "one" ∷ "two" ∷ "three" ∷ [];
}

abbrev pub refresh_service : RefreshTokenService
refresh_service = record { pepper = ""; expire_days = 7 }

-- a token of user 5 in organisation 2 and family 9
abbrev pub first_token : Bool → RefreshToken
first_token active = record {
  id = 1;
  user_id = 5;
  organisation_id = 2;
  family_id = 9;
  jti = 1;
  token_hash = "aa.s";
  is_active = active;
  expires_at = 100;
  revoked_at = none;
  family_revoked_at = none;
  client_ip = none;
}

abbrev pub fresh_values : Fresh
fresh_values = record { row_id = 2; jti = 2; family = 3; secret = "t" }

abbrev pub token_session : Bool → Session
token_session active = begin (record no_rows { refresh_tokens = first_token active ∷ [] })

abbrev pub pre_auth_service : PreAuthSessionService
pre_auth_service = record { pepper = ""; expire_minutes = 5 }

abbrev pub pre_auth_row : Option ℕ → PreAuthSession
pre_auth_row consumed_at = record {
  id = 4;
  user_id = 5;
  token_hash = "p";
  expires_at = 100;
  consumed_at = consumed_at;
  client_ip = none;
  user_agent = none;
}

abbrev pub pre_auth_session : Option ℕ → Session
pre_auth_session consumed_at =
    begin (record no_rows { pre_auth_sessions = pre_auth_row consumed_at ∷ [] })

-- the memberships of organisation 2: an owner and a viewer
abbrev pub first_member : OrganisationMembership
first_member = record { id = 1; organisation_id = 2; user_id = 5; org_role = some "owner" }

abbrev pub second_member : OrganisationMembership
second_member = record { id = 2; organisation_id = 2; user_id = 6; org_role = some "viewer" }

abbrev pub members : List OrganisationMembership
members = first_member ∷ second_member ∷ []

abbrev pub member_session : Session
member_session = record (begin (record no_rows { org_memberships = members })) {
  organisation = some 2;
}

abbrev pub nowhere : Origin
nowhere = record { request_id = none; client_ip = none }

abbrev pub invitation_service : InvitationService
invitation_service = record { pepper = "" }

-- an invitation of "g" to organisation 2 as an analyst
abbrev pub invitation : Option ℕ → Invitation
invitation revoked_at = record {
  id = 3;
  organisation_id = 2;
  workspace_id = none;
  invited_email = "g";
  org_role = some "analyst";
  workspace_role = none;
  token_hash = "aa.s";
  created_by_user_id = some 5;
  expires_at = 100;
  accepted_at = none;
  revoked_at = revoked_at;
  updated_at = none;
}

abbrev pub invitation_session : Option ℕ → Session
invitation_session revoked_at =
    begin (record no_rows { org_memberships = members; invitations = invitation revoked_at ∷ [] })

abbrev pub guest : ℕ → Acceptance
guest now = record {
  user_id = 7;
  email = "g";
  origin = nowhere;
  audited = true;
  now = now;
  membership_id = 8;
  workspace_membership_id = 9;
}

-- a service account of organisation 2
abbrev pub account : ServiceAccount
account = record {
  id = 6;
  organisation_id = 2;
  workspace_id = none;
  name = "a";
  description = none;
  is_active = true;
  created_by_user_id = some 5;
  updated_at = none;
  disabled_at = none;
  last_used_at = none;
}

abbrev pub key_service : ServiceAccountService
key_service = record { api_key_pepper = "" }

abbrev pub key_values : ℕ → KeyFresh
key_values n = record { row_id = 3 + n; key_prefix = "p"; secret = "s" }

-- the key that is made for it from the values that are drawn first
abbrev pub first_key : ApiKey
first_key = record {
  id = 5;
  service_account_id = 6;
  organisation_id = 2;
  workspace_id = none;
  name = "k";
  key_prefix = "p";
  secret_hash = "atk_aa_p_s";
  scopes = "org:read" ∷ [];
  expires_at = none;
  last_used_at = none;
  revoked_at = none;
}

abbrev pub key_session : List ApiKey → Session
key_session keys = begin (record no_rows { service_accounts = account ∷ []; api_keys = keys })
