-- ===== src/Services/ApiKey.antt =====
-- services/service_account_service.py: API keys, which a service account presents.
-- `now` is what `datetime.now` returns at a call, `Fresh` what `secrets` and `uuid4` return.
pub mod Format
pub mod Authentic
pub mod Creation
pub mod Acceptance
pub mod Retirement
use Prim.Native.String.{◌++◌ as append}
use atlascore.Base.{
  ℕ, zero, suc, ◌+◌, ◌*◌, String, Bool, true, false, ◌&&◌, ◌||◌, not, Option, none, some, List, [],
  ◌∷◌, ◌++◌, Error, ok, err, Result, ◌==◌, ltb, str_eq, contains, is_none, if◌then◌else◌,
}
use atlascore.Platform.{Platform, day}
use atlascore.Db.Models.{ServiceAccount, ApiKey}
use atlascore.Db.Table.{select, update, exists, scalar_one_or_none}
use atlascore.Db.Session.{
  Session, Tables, Action, pure, raise, lift, handle, raise_if, ◌>>=◌, ◌>>◌, set_organisation,
  insert, tenant,
}
use atlascore.Services.ServiceAccount.{found_or, find_account, get_service_account}
use Format.{extract_org_and_prefix, key_text}

pub record ServiceAccountService : Type 0 where
  pub api_key_pepper : String

pub record Fresh : Type 0 where
  pub row_id : ℕ
  pub key_prefix : String
  pub secret : String

abbrev pub has_id : ℕ → ApiKey → Bool
has_id i k = k.id == i

-- uq_api_keys_prefix
abbrev pub has_prefix : String → ApiKey → Bool
has_prefix p k = str_eq k.key_prefix p

unfoldable pub conflicts : ApiKey → ApiKey → Bool
conflicts new k = has_id new.id k || has_prefix new.key_prefix k

-- session.add(api_key); flush
unfoldable pub add_key : ApiKey → Action Unit
unfolding conflicts
add_key new s =
    insert (tenant s.organisation new.organisation_id) (exists (conflicts new) s.db.api_keys)
      (λ t. record t { api_keys = t.api_keys ++ new ∷ [] }) s

-- whether the exception is an IntegrityError that names the prefix: the primary key is checked first
unfoldable pub is_prefix_collision : ApiKey → List ApiKey → Error → Bool
is_prefix_collision new rows Error.integrity_error =
    not (exists (has_id new.id) rows) && exists (has_prefix new.key_prefix) rows
is_prefix_collision new rows e = false

-- the handler of the flush, which has rolled the transaction back
abbrev pub retry_on :
    ApiKey → List ApiKey → Action (ApiKey × String) → Error → Action (ApiKey × String)
retry_on new rows retry e s = if is_prefix_collision new rows e then retry s else raise e s

-- what a new key takes from the caller
pub record Request : Type 0 where
  pub service_account_id : ℕ
  pub organisation_id : ℕ
  pub name : String
  pub scopes : List String
  pub expires_at : Option ℕ

unfoldable pub find_key : String → Action (Option ApiKey)
find_key key_prefix s = (
  scalar_one_or_none (
      select (λ k. tenant s.organisation k.organisation_id && has_prefix key_prefix k)
        s.db.api_keys),
  s,
)

unfoldable pub find_key_id : ℕ → ℕ → Action (Option ApiKey)
find_key_id key_id organisation_id s = (
  scalar_one_or_none (
      select
        (λ k.
          tenant s.organisation k.organisation_id
          && (k.id == key_id && k.organisation_id == organisation_id))
        s.db.api_keys),
  s,
)

unfoldable pub get_api_key : ℕ → ℕ → Action ApiKey
get_api_key key_id organisation_id = do
  set_organisation organisation_id
  key ← find_key_id key_id organisation_id
  found_or Error.api_key_not_found key

-- UPDATE of the row of one key
abbrev pub update_key : ℕ → (ApiKey → ApiKey) → Action Unit
update_key key_id f s = (
  ok tt,
  record s {
    db = record s.db {
      api_keys =
          update (λ k. tenant s.organisation k.organisation_id && k.id == key_id) f s.db.api_keys;
    };
  },
)

abbrev pub revoked : ℕ → ApiKey → ApiKey
revoked now k = record k { revoked_at = some now }

unfoldable pub revoke_found : ℕ → ApiKey → Action ApiKey
revoke_found now key = do
  raise_if (not (is_none key.revoked_at)) Error.api_key_revoked
  update_key key.id (revoked now)
  pure (revoked now key)

unfoldable pub revoke_api_key : ℕ → ℕ → ℕ → Action ApiKey
revoke_api_key key_id organisation_id now = get_api_key key_id organisation_id >>= revoke_found now

-- every required scope is one of the key's; true for None and for the empty list
abbrev pub covers : List String → List String → Bool
covers [] scopes = true
covers (r ∷ required) scopes = contains r scopes && covers required scopes

abbrev pub is_expired : ApiKey → ℕ → Bool
is_expired key now = elim key.expires_at [ none ↦ false | some e ↦ ltb e now ]

abbrev pub used_key : ℕ → ApiKey → ApiKey
used_key now k = record k { last_used_at = some now }

-- `onupdate` of the column lets the server fill `updated_at`
abbrev pub used_account : ℕ → ServiceAccount → ServiceAccount
used_account now a = record a { last_used_at = some now; updated_at = none }

-- `key.last_used_at = now; sa.last_used_at = now`, written at the next flush
unfoldable pub touch : ApiKey → ServiceAccount → ℕ → Action Unit
touch key sa now s = (
  ok tt,
  record s {
    db = record s.db {
      api_keys =
          update (λ k. tenant s.organisation k.organisation_id && k.id == key.id) (used_key now)
            s.db.api_keys;
      service_accounts =
          update (λ a. tenant s.organisation a.organisation_id && a.id == sa.id) (used_account now)
            s.db.service_accounts;
    };
  },
)

-- the rest of `authenticate_api_key`, from the service account that it found
unfoldable pub authenticate_account :
    List String → ℕ → ApiKey → Option ServiceAccount → Action (ApiKey × ServiceAccount)
authenticate_account required now key none = raise Error.service_account_disabled
authenticate_account required now key (some sa) = do
  raise_if (not sa.is_active) Error.service_account_disabled
  raise_if (not (covers required key.scopes)) Error.api_key_scope
  touch key sa now
  pure (used_key now key, used_account now sa)

module _ (py : Platform) (self : ServiceAccountService) where
  unfoldable pub hash_key : String → String
  hash_key raw_key = py.keyed_blake2b self.api_key_pepper raw_key

  unfoldable pub verify_key : String → String → Bool
  unfolding hash_key
  verify_key raw_key secret_hash = str_eq (hash_key raw_key) secret_hash

  -- `_generate_api_key` and the row with its values
  unfoldable pub new_key : Request → Option ℕ → Fresh → ApiKey
  unfolding hash_key
  new_key r workspace_id fresh = record {
    id = fresh.row_id;
    service_account_id = r.service_account_id;
    organisation_id = r.organisation_id;
    workspace_id = workspace_id;
    name = r.name;
    key_prefix = fresh.key_prefix;
    secret_hash = hash_key (key_text py.uuid r.organisation_id fresh.key_prefix fresh.secret);
    scopes = r.scopes;
    expires_at = r.expires_at;
    last_used_at = none;
    revoked_at = none;
  }

  -- one turn of the loop, whose handler goes on with `retry`
  unfoldable pub attempt :
      Request → Option ℕ → Fresh → Action (ApiKey × String) → Action (ApiKey × String)
  attempt r workspace_id fresh retry s =
      let key = new_key r workspace_id fresh in
      handle
        (do
          add_key key
          pure (key, key_text py.uuid r.organisation_id fresh.key_prefix fresh.secret))
        (retry_on key s.db.api_keys retry) s

  -- The turns of the loop: `last` is the one after which nothing is retried, `fresh n` the values
  -- that are drawn where `n` turns are left behind it.
  unfoldable pub attempts : ℕ → (ℕ → Fresh) → Request → Option ℕ → Action (ApiKey × String)
  attempts zero fresh r workspace_id =
      attempt r workspace_id (fresh 0) (raise Error.integrity_error)
  attempts (suc n) fresh r workspace_id =
      attempt r workspace_id (fresh (suc n)) (attempts n fresh r workspace_id)

  -- the rest of `create_api_key`, from the account that it found
  unfoldable pub create_found : (ℕ → Fresh) → Request → ServiceAccount → Action (ApiKey × String)
  create_found fresh r sa = do
    raise_if (not sa.is_active) Error.service_account_disabled
    attempts 2 fresh r sa.workspace_id

  unfoldable pub create_api_key :
      ℕ → ℕ → String → List String → Option ℕ → ℕ → (ℕ → Fresh) → Action (ApiKey × String)
  create_api_key service_account_id organisation_id name scopes expires_in_days now fresh = do
    set_organisation organisation_id
    let r : Request = record {
      service_account_id = service_account_id;
      organisation_id = organisation_id;
      name = name;
      scopes = scopes;
      expires_at = elim expires_in_days [ none ↦ none | some d ↦ some (now + d * day) ];
    }
    get_service_account service_account_id organisation_id >>= create_found fresh r

  -- the rest of `rotate_api_key`, from the key that it found
  unfoldable pub rotate_found : ℕ → Fresh → ApiKey → Action (ApiKey × String)
  rotate_found now fresh old = do
    raise_if (not (is_none old.revoked_at)) Error.api_key_revoked
    update_key old.id (revoked now)
    let r : Request = record {
      service_account_id = old.service_account_id;
      organisation_id = old.organisation_id;
      name = append old.name " (rotated)";
      scopes = old.scopes;
      expires_at = old.expires_at;
    }
    let key = new_key r old.workspace_id fresh
    add_key key
    pure (key, key_text py.uuid old.organisation_id fresh.key_prefix fresh.secret)

  unfoldable pub rotate_api_key : ℕ → ℕ → ℕ → Fresh → Action (ApiKey × String)
  rotate_api_key key_id organisation_id now fresh =
      get_api_key key_id organisation_id >>= rotate_found now fresh

  -- the checks of the row, whatever it is
  unfoldable pub check_key : String → ℕ → ℕ → Option ApiKey → Result ApiKey
  unfolding verify_key
  check_key raw_key organisation_id now none = err Error.api_key_invalid
  check_key raw_key organisation_id now (some key) =
      if not (key.organisation_id == organisation_id)
      then err Error.api_key_invalid
      else if not (verify_key raw_key key.secret_hash)
      then err Error.api_key_invalid
      else if not (is_none key.revoked_at)
      then err Error.api_key_revoked
      else if is_expired key now
      then err Error.api_key_expired
      else ok key

  unfoldable pub authenticate_found :
      String → ℕ → List String → ℕ → Option ApiKey → Action (ApiKey × ServiceAccount)
  authenticate_found raw_key organisation_id required now found = do
    key ← lift (check_key raw_key organisation_id now found)
    sa ← find_account key.service_account_id organisation_id
    authenticate_account required now key sa

  unfoldable pub authenticate_api_key : String → List String → ℕ → Action (ApiKey × ServiceAccount)
  authenticate_api_key raw_key required now = elim (extract_org_and_prefix py.uuid raw_key) [
    | none ↦ raise Error.api_key_invalid
    | some (organisation_id, key_prefix) ↦ do
      set_organisation organisation_id
      found ← find_key key_prefix
      authenticate_found raw_key organisation_id required now found
  ]
