-- ===== src/Tests/KeyRuns.antt =====
-- Runs of services/service_account_service.py.
use atlascore.Base.{
  ℕ, ◌≡◌, ◌≢◌, refl, false, none, some, [], ◌∷◌, arith, ok, is_ok, zero, suc, ◌≤◌, ◌==◌,
}
use atlascore.Db.Models.{ServiceAccount, ApiKey}
use atlascore.Db.Session.{begin, insert, set_organisation}
use atlascore.Db.Table.{select, count, update, exists, scalar_one_or_none}
use atlascore.Services.ServiceAccount.{get_service_account, find_account}
use atlascore.Services.ApiKey.Format.{
  cut, UuidLaws, extract_org_and_prefix, key_text, split_underscore, from_parts,
}
use atlascore.Services.ApiKey.{
  Fresh as KeyFresh, authenticate_api_key, authenticate_found, authenticate_account, check_key,
  verify_key, hash_key, create_api_key, create_found, attempts, attempt, add_key, new_key,
  conflicts, find_key, touch, revoked, used_key, revoke_api_key, revoke_found, rotate_api_key,
  rotate_found, get_api_key, find_key_id,
}
use atlascore.Services.ApiKey.Authentic.{Verdict, authenticate_api_key-Verdict}
use atlascore.Services.ApiKey.Acceptance.{
  has_account_id, create_api_key-collision, create_then_authenticate,
}
use atlascore.Services.ApiKey.Retirement.{revoke_api_key-final, rotate_api_key-final}
use atlascore.Tests.Examples.{
  plain, unary_uuid, unary, tally, unary_uuid-UuidLaws, account, key_service, key_values, first_key,
  key_session,
}

cut-unary : (n : ℕ) → cut (unary n) ≡ none
unfolding cut unary
cut-unary zero = refl
cut-unary (suc n) = rw (cut-unary n) refl

unary_laws : UuidLaws unary_uuid
unfolding unary_uuid
unary_laws = record { parse-show = unary_uuid-UuidLaws.parse-show; no_underscore = cut-unary }

created :
    create_api_key plain key_service 6 2 "k" ("org:read" ∷ []) none 10 key_values (key_session [])
    ≡ (
      ok (first_key, "atk_aa_p_s"),
      record (key_session (first_key ∷ [])) {
        organisation = some 2;
        committed = (key_session []).db;
      },
    )
unfolding create_api_key create_found get_service_account find_account set_organisation select
    scalar_one_or_none attempts attempt add_key insert exists conflicts new_key hash_key key_text
    plain unary_uuid unary
created = refl

-- what the key's row says after its use at 20
abbrev first_use : ApiKey
first_use = used_key 20 first_key

accepted_example :
    Verdict plain key_service "atk_aa_p_s" ("org:read" ∷ []) 20 (key_session (first_key ∷ [])) (
      authenticate_api_key plain key_service "atk_aa_p_s"
        ("org:read" ∷ [])
        20
        (key_session (first_key ∷ [])))
accepted_example =
    authenticate_api_key-Verdict plain key_service "atk_aa_p_s" ("org:read" ∷ []) 20
      (key_session (first_key ∷ []))

collision_example :
    is_ok
      (create_api_key plain key_service 6 2 "k"
        ("org:read" ∷ [])
        none
        10
        key_values
        (key_session (first_key ∷ []))).0
    ≡ false
collision_example =
    create_api_key-collision plain key_service 6 2 "k" ("org:read" ∷ []) none 10 key_values
      (key_session (first_key ∷ [])) (unfold exists in refl)

one_account : (i : ℕ) → count (has_account_id i) (account ∷ []) ≤ 1
unfolding count select
one_account i = ground arith

round_trip_example :
    (a : ServiceAccount) × (a.id ≡ 6)
    × ((authenticate_api_key plain key_service "atk_aa_p_s"
          ("org:read" ∷ [])
          20
          (begin (key_session (first_key ∷ [])).db)).0
        ≡ ok (first_use, a))
unfolding plain cut
round_trip_example =
    create_then_authenticate plain unary_laws key_service 6 2 "k" ("org:read" ∷ []) none 10
      key_values (key_session [])
      (record (key_session (first_key ∷ [])) {
        organisation = some 2;
        committed = (key_session []).db;
      })
      (begin (key_session (first_key ∷ [])).db) first_key "atk_aa_p_s" ("org:read" ∷ []) 20 refl
      one_account created refl refl refl

-- another key of the account
abbrev other_key : ApiKey
other_key = record first_key { id = 9; key_prefix = "q"; secret_hash = "atk_aa_q_s" }

one_key : count (λ k. k.id == 5) (first_key ∷ other_key ∷ []) ≤ 1
unfolding count select
one_key = ground arith

used_other :
    (authenticate_api_key plain key_service "atk_aa_q_s" [] 40
      (begin (key_session (revoked 30 first_key ∷ other_key ∷ [])).db)).0
    ≡ ok (used_key 40 other_key, record account { last_used_at = some 40 })
unfolding authenticate_api_key authenticate_found authenticate_account check_key verify_key hash_key
    find_key find_account touch extract_org_and_prefix split_underscore from_parts cut
    set_organisation select scalar_one_or_none update plain unary_uuid tally
used_other = refl

revoke_example : (used_key 40 other_key).id ≢ 5
unfolding revoke_api_key revoke_found get_api_key find_key_id set_organisation select
    scalar_one_or_none update
revoke_example =
    revoke_api_key-final plain key_service 5 2 30 (key_session (first_key ∷ other_key ∷ []))
      (begin (key_session (revoked 30 first_key ∷ other_key ∷ [])).db) "atk_aa_q_s" [] 40
      (used_key 40 other_key) (record account { last_used_at = some 40 }) (revoked 30 first_key)
      (record (key_session (revoked 30 first_key ∷ other_key ∷ [])) {
        organisation = some 2;
        committed = (key_session (first_key ∷ other_key ∷ [])).db;
      })
      one_key refl refl used_other

-- what replaces the key
abbrev new_values : KeyFresh
new_values = record { row_id = 7; key_prefix = "r"; secret = "t" }

abbrev next_key : ApiKey
next_key = record first_key {
  id = 7;
  name = "k (rotated)";
  key_prefix = "r";
  secret_hash = "atk_aa_r_t";
}

used_next :
    (authenticate_api_key plain key_service "atk_aa_r_t"
      ("org:read" ∷ [])
      40
      (begin (key_session (revoked 30 first_key ∷ next_key ∷ [])).db)).0
    ≡ ok (used_key 40 next_key, record account { last_used_at = some 40 })
unfolding authenticate_api_key authenticate_found authenticate_account check_key verify_key hash_key
    find_key find_account touch extract_org_and_prefix split_underscore from_parts cut
    set_organisation select scalar_one_or_none update plain unary_uuid tally
used_next = refl

rotate_example : (used_key 40 next_key).id ≢ 5
unfolding rotate_api_key rotate_found get_api_key find_key_id set_organisation select
    scalar_one_or_none update add_key insert exists conflicts new_key hash_key key_text plain
    unary_uuid unary
rotate_example =
    rotate_api_key-final plain key_service 5 2 30 (key_session (first_key ∷ []))
      (begin (key_session (revoked 30 first_key ∷ next_key ∷ [])).db) "atk_aa_r_t" ("org:read" ∷ [])
      40 (used_key 40 next_key) (record account { last_used_at = some 40 }) new_values next_key
      "atk_aa_r_t"
      (record (key_session (revoked 30 first_key ∷ next_key ∷ [])) {
        organisation = some 2;
        committed = (key_session (first_key ∷ [])).db;
      })
      (unfold count select in ground arith) refl refl used_next
