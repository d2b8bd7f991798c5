-- ===== src/Auth/Refresh.antt =====
-- auth/refresh.py: refresh tokens in families, rotated at every use, with reuse detection.
-- `now` is what `datetime.now(UTC)` returns at a call, `Fresh` what `secrets` and `uuid4` return.
pub mod Families
pub mod Rotation
pub mod Reuse
pub mod Isolation
use Prim.Native.String.{◌++◌ as append}
use atlascore.Base.{
  ℕ, ◌+◌, ◌*◌, String, Bool, true, false, ◌&&◌, ◌||◌, not, Option, none, some, List, [], ◌∷◌, ◌++◌,
  Error, ◌==◌, ltb, str_eq, if◌then◌else◌, ok,
}
use atlascore.Platform.{Platform, day}
use atlascore.Db.Models.{RefreshToken}
use atlascore.Db.Table.{select, update, exists, scalar_one_or_none}
use atlascore.Db.Session.{
  Session, Tables, Action, pure, raise, lift, ◌>>=◌, ◌>>◌, set_organisation, insert, tenant,
}
use atlascore.Auth.RoutingToken.{extract_organisation_hint, routed}

pub record RefreshTokenService : Type 0 where
  pub pepper : String
  pub expire_days : ℕ

pub record Fresh : Type 0 where
  pub row_id : ℕ
  pub jti : ℕ
  pub family : ℕ
  pub secret : String

-- the unique columns of `refresh_tokens`
unfoldable pub conflicts : RefreshToken → RefreshToken → Bool
conflicts new r = r.id == new.id || (r.jti == new.jti || str_eq r.token_hash new.token_hash)

-- session.add(rt); flush
unfoldable pub add_token : RefreshToken → Action Unit
unfolding conflicts
add_token rt s =
    insert (tenant s.organisation rt.organisation_id) (exists (conflicts rt) s.db.refresh_tokens)
      (λ t. record t { refresh_tokens = t.refresh_tokens ++ rt ∷ [] }) s

-- `is_active = False; revoked_at = now` on one row; flush
abbrev pub revoked : ℕ → RefreshToken → RefreshToken
revoked now r = record r { is_active = false; revoked_at = some now }

abbrev pub family_revoked : ℕ → RefreshToken → RefreshToken
family_revoked now r = record r {
  is_active = false;
  revoked_at = some now;
  family_revoked_at = some now;
}

-- UPDATE refresh_tokens: it reaches the rows of the current organisation only.
unfoldable pub update_tokens : (RefreshToken → Bool) → (RefreshToken → RefreshToken) → Action Unit
update_tokens p f s = (
  ok tt,
  record s {
    db = record s.db {
      refresh_tokens =
          update (λ r. tenant s.organisation r.organisation_id && p r) f s.db.refresh_tokens;
    };
  },
)

-- SELECT … WHERE on refresh_tokens, of at most one row
unfoldable pub find_token : (RefreshToken → Bool) → Action (Option RefreshToken)
find_token p s = (
  scalar_one_or_none
      (select (λ r. tenant s.organisation r.organisation_id && p r) s.db.refresh_tokens),
  s,
)

module _ (py : Platform) (self : RefreshTokenService) where
  -- `_hash_token(pepper, raw_token)`
  unfoldable pub hash : String → String
  hash raw_token = py.blake2b (append self.pepper raw_token)

  unfoldable pub new_token : ℕ → ℕ → ℕ → Option String → ℕ → Fresh → RefreshToken
  unfolding hash
  new_token user_id organisation_id family_id client_ip now fresh = record {
    id = fresh.row_id;
    user_id = user_id;
    organisation_id = organisation_id;
    family_id = family_id;
    jti = fresh.jti;
    token_hash = hash (routed py.uuid organisation_id fresh.secret);
    is_active = true;
    expires_at = now + self.expire_days * day;
    revoked_at = none;
    family_revoked_at = none;
    client_ip = client_ip;
  }

  unfoldable pub create :
      ℕ → ℕ → Option ℕ → Option String → ℕ → Fresh → Action (String × RefreshToken)
  create user_id organisation_id family_id client_ip now fresh = do
    set_organisation organisation_id
    let fid : ℕ = elim family_id [ none ↦ fresh.family | some f ↦ f ]
    let rt = new_token user_id organisation_id fid client_ip now fresh
    add_token rt
    pure (routed py.uuid organisation_id fresh.secret, rt)

  -- the rest of `rotate`, from the row that the query found
  unfoldable pub rotate_row :
      ℕ → RefreshToken → Option String → ℕ → ℕ → Fresh → Action (Option (String × RefreshToken))
  rotate_row organisation_id old client_ip now issued fresh =
      if not (old.organisation_id == organisation_id)
      then pure none
      else if not old.is_active
      then (do
        update_tokens (λ r. r.family_id == old.family_id && r.is_active) (family_revoked now)
        raise (Error.refresh_token_reuse old.family_id))
      else if ltb old.expires_at now
      then (do update_tokens (λ r. r.id == old.id) (revoked now); pure none)
      else (do
        update_tokens (λ r. r.id == old.id) (revoked now)
        issue ← create old.user_id old.organisation_id (some old.family_id) client_ip issued fresh
        pure (some issue))

  unfoldable pub rotate_found :
      ℕ
      → Option String
      → ℕ
      → ℕ
      → Fresh
      → Option RefreshToken
      → Action (Option (String × RefreshToken))
  rotate_found organisation_id client_ip now issued fresh none = pure none
  rotate_found organisation_id client_ip now issued fresh (some old) =
      rotate_row organisation_id old client_ip now issued fresh

  -- `now` is the time of the checks, `issued` the later time that `create` reads.
  unfoldable pub rotate :
      String → Option String → ℕ → ℕ → Fresh → Action (Option (String × RefreshToken))
  rotate raw_token client_ip now issued fresh = elim (extract_organisation_hint py.uuid raw_token) [
    | none ↦ pure none
    | some organisation_id ↦ do
      set_organisation organisation_id
      found ← find_token (λ r. str_eq r.token_hash (hash raw_token))
      rotate_found organisation_id client_ip now issued fresh found
  ]

  unfoldable pub find_active_by_raw_token : String → ℕ → Action (Option RefreshToken)
  find_active_by_raw_token raw_token now = elim (extract_organisation_hint py.uuid raw_token) [
    | none ↦ pure none
    | some organisation_id ↦ do
      set_organisation organisation_id
      find_token
          (λ r. str_eq r.token_hash (hash raw_token) && (r.is_active && ltb now r.expires_at))
  ]

unfoldable pub revoke_family : ℕ → Option ℕ → ℕ → Action Unit
revoke_family family_id organisation_id now = do
  elim organisation_id [ none ↦ pure tt | some o ↦ set_organisation o ]
  update_tokens (λ r. r.family_id == family_id && r.is_active) (revoked now)

unfoldable pub revoke_all_for_user_org : ℕ → ℕ → ℕ → Action Unit
revoke_all_for_user_org user_id organisation_id now = do
  set_organisation organisation_id
  update_tokens (λ r. r.user_id == user_id && (r.organisation_id == organisation_id && r.is_active))
      (revoked now)
