-- ===== src/Services/ServiceAccount.antt =====
-- services/service_account_service.py: service accounts, the non-human members of an organisation.
-- A time that `updated_at` gets from the server, by its default or by `onupdate`, is `none`.
use atlascore.Base.{
  ℕ, String, Bool, true, false, ◌&&◌, ◌||◌, Option, none, some, List, [], ◌∷◌, ◌++◌, Error, ok,
  ◌==◌, str_eq, if◌then◌else◌,
}
use atlascore.Db.Models.{ServiceAccount}
use atlascore.Db.Table.{select, update, exists, scalar_one_or_none}
use atlascore.Db.Session.{
  Action, pure, raise, handle, ◌>>=◌, ◌>>◌, set_organisation, insert, tenant,
}

abbrev pub has_id : ℕ → ServiceAccount → Bool
has_id i a = a.id == i

-- uq_service_accounts_org_name
abbrev pub same_name : ServiceAccount → ServiceAccount → Bool
same_name new a = a.organisation_id == new.organisation_id && str_eq a.name new.name

unfoldable pub conflicts : ServiceAccount → ServiceAccount → Bool
conflicts new a = has_id new.id a || same_name new a

unfoldable pub add_account : ServiceAccount → Action Unit
unfolding conflicts
add_account new s =
    insert (tenant s.organisation new.organisation_id)
      (exists (conflicts new) s.db.service_accounts)
      (λ t. record t { service_accounts = t.service_accounts ++ new ∷ [] }) s

-- what the handler of the flush raises: the primary key is checked before the name
unfoldable pub name_error : ServiceAccount → List ServiceAccount → Error → Error
name_error new rows Error.integrity_error =
    if exists (has_id new.id) rows
    then Error.integrity_error
    else if exists (same_name new) rows
    then Error.service_account_duplicate
    else Error.integrity_error
name_error new rows e = e

-- `row_id` is what `uuid4` returns
unfoldable pub create_service_account :
    ℕ → String → Option String → Option ℕ → ℕ → ℕ → Action ServiceAccount
create_service_account organisation_id name description workspace_id created_by_user_id row_id = do
  set_organisation organisation_id
  let sa : ServiceAccount = record {
    id = row_id;
    organisation_id = organisation_id;
    workspace_id = workspace_id;
    name = name;
    description = description;
    is_active = true;
    created_by_user_id = some created_by_user_id;
    updated_at = none;
    disabled_at = none;
    last_used_at = none;
  }
  (λ s. handle (add_account sa) (λ e. raise (name_error sa s.db.service_accounts e)) s)
  pure sa

unfoldable pub find_account : ℕ → ℕ → Action (Option ServiceAccount)
find_account sa_id organisation_id s = (
  scalar_one_or_none (
      select
        (λ a.
          tenant s.organisation a.organisation_id
          && (a.id == sa_id && a.organisation_id == organisation_id))
        s.db.service_accounts),
  s,
)

-- `if x is None: raise`
abbrev pub found_or : {A : Type 0} → Error → Option A → Action A
found_or e none = raise e
found_or e (some a) = pure a

unfoldable pub get_service_account : ℕ → ℕ → Action ServiceAccount
get_service_account sa_id organisation_id = do
  set_organisation organisation_id
  sa ← find_account sa_id organisation_id
  found_or Error.service_account_not_found sa

-- UPDATE of the row of one account
abbrev pub update_account : ℕ → (ServiceAccount → ServiceAccount) → Action Unit
update_account sa_id f s = (
  ok tt,
  record s {
    db = record s.db {
      service_accounts =
          update (λ a. tenant s.organisation a.organisation_id && a.id == sa_id) f
            s.db.service_accounts;
    };
  },
)

abbrev pub disabled : ℕ → ServiceAccount → ServiceAccount
disabled now a = record a { is_active = false; disabled_at = some now; updated_at = some now }

abbrev pub enabled : ℕ → ServiceAccount → ServiceAccount
enabled now a = record a { is_active = true; disabled_at = none; updated_at = some now }

unfoldable pub disable_service_account : ℕ → ℕ → ℕ → Action ServiceAccount
disable_service_account sa_id organisation_id now = do
  sa ← get_service_account sa_id organisation_id
  update_account sa.id (disabled now)
  pure (disabled now sa)

unfoldable pub enable_service_account : ℕ → ℕ → ℕ → Action ServiceAccount
enable_service_account sa_id organisation_id now = do
  sa ← get_service_account sa_id organisation_id
  update_account sa.id (enabled now)
  pure (enabled now sa)
