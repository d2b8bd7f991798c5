-- ===== src/Tests/LoginRuns.antt =====
-- Runs of services/auth_service.py.
use atlascore.Base.{◌≡◌, refl, true, false, none, [], ◌∷◌, err, Error, inl}
use atlascore.Db.Models.{User, Organisation}
use atlascore.Db.Session.{Session, begin, no_rows, rollback}
use atlascore.Db.Table.{count, Has, exists}
use atlascore.Auth.Refresh.Families.{active_in}
use atlascore.Services.Auth.{AuthService}
use atlascore.Services.Auth.Register.{Registration, user_of, user_conflicts, register}
use atlascore.Services.Auth.Login.{select_organisation}
use atlascore.Services.Auth.Tokens.{refresh_tokens}
use atlascore.Services.Auth.Refreshing.{detected, refresh_tokens-reuse}
use atlascore.Services.Auth.Selection.{Verdict, select_organisation-Verdict}
use atlascore.Services.Auth.Registering.{register-taken_slug}
use atlascore.Tests.AuthRuns.{one_organisation, first_token-Presents, first_token-IsValid}
use atlascore.Tests.Examples.{
  plain, refresh_service, pre_auth_service, first_token, fresh_values, token_session, pre_auth_row,
  first_member, nowhere,
}

abbrev auth : AuthService
auth = record {
  pwd = record {
    pepper = "";
    pepper_version = 1;
    ph = record { hash = λ salt t. t; verify = λ t h. true };
  };
  refresh = refresh_service;
  pre_auth = pre_auth_service;
}

durable_example :
    let (r, s') =
      refresh_tokens plain auth "aa.s" nowhere 10 11 fresh_values (token_session false) in
    (r ≡ err (Error.refresh_token_reuse 9))
    × (count (active_in 9) s'.committed.refresh_tokens ≡ 0)
    × Has
        (detected plain auth "aa.s" (first_token false) nowhere 10 11 fresh_values)
        s'.committed.audit_events
durable_example =
    refresh_tokens-reuse plain auth "aa.s" (first_token false) nowhere 10 11 fresh_values
      one_organisation (token_session false) (first_token-Presents false)
      (first_token-IsValid false) (inl refl) refl

abbrev user : User
user = record {
  id = 5;
  email = "e";
  email_verified = false;
  full_name = "n";
  password_hash = "h";
  pepper_version = 1;
  is_active = true;
  is_platform_admin = false;
  last_login_at = none;
}

abbrev organisation : Organisation
organisation = record { id = 2; slug = "acme"; display_name = "A"; is_active = true }

-- user 5 between the steps of a login, a member of organisation 2
abbrev between : Session
between = begin (record no_rows {
  users = user ∷ [];
  organisations = organisation ∷ [];
  org_memberships = first_member ∷ [];
  pre_auth_sessions = pre_auth_row none ∷ [];
})

selection_example :
    Verdict plain auth "p" 2 nowhere 10 11 fresh_values between
      (select_organisation plain auth "p" 2 nowhere 10 11 fresh_values between)
selection_example =
    select_organisation-Verdict plain auth "p" 2 nowhere 10 11 fresh_values between refl refl

-- another user who asks for the slug of that organisation
abbrev registration : Registration
registration = record {
  email = "f";
  password = "w";
  full_name = "m";
  organisation_name = "B";
  organisation_slug = "acme";
  origin = nowhere;
  salt = 1;
  user_id = 6;
  organisation_id = 3;
  membership_id = 7;
  workspace_id = 8;
  workspace_membership_id = 9;
}

taken_slug_example :
    register plain auth registration between ≡ (err Error.integrity_error, rollback between)
taken_slug_example =
    register-taken_slug plain auth registration between refl
      (unfold exists user_conflicts user_of in refl) (unfold exists in refl)
