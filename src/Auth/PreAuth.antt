-- ===== src/Auth/PreAuth.antt =====
-- auth/pre_auth.py: the session between the two steps of a login, consumed at most once.
-- `pre_auth_sessions` has no row-level security. `now` is what `datetime.now(UTC)` returns.
pub mod SingleUse
pub mod Outcome
use Prim.Native.String.{◌++◌ as append}
use atlascore.Base.{
  ℕ, ◌+◌, ◌*◌, String, Bool, true, false, ◌&&◌, ◌||◌, not, Option, none, some, List, [], ◌∷◌, ◌++◌,
  Error, ok, ◌==◌, ltb, str_eq, if◌then◌else◌, is_none,
}
use atlascore.Platform.{Platform, minute}
use atlascore.Db.Models.{PreAuthSession}
use atlascore.Db.Table.{select, update, exists, scalar_one_or_none}
use atlascore.Db.Session.{
  Session, Tables, Action, pure, raise, lift, gets, modify, ◌>>=◌, ◌>>◌, insert,
}

pub record PreAuthSessionService : Type 0 where
  pub pepper : String
  pub expire_minutes : ℕ

-- the unique columns of `pre_auth_sessions`
unfoldable pub conflicts : PreAuthSession → PreAuthSession → Bool
conflicts new r = r.id == new.id || str_eq r.token_hash new.token_hash

unfoldable pub add_session : PreAuthSession → Action Unit
unfolding conflicts
add_session pas s =
    insert true (exists (conflicts pas) s.db.pre_auth_sessions)
      (λ t. record t { pre_auth_sessions = t.pre_auth_sessions ++ pas ∷ [] }) s

unfoldable pub find_session : String → Action (Option PreAuthSession)
find_session token_hash s =
    (scalar_one_or_none (select (λ r. str_eq r.token_hash token_hash) s.db.pre_auth_sessions), s)

abbrev pub unconsumed : ℕ → PreAuthSession → Bool
unconsumed id r = r.id == id && is_none r.consumed_at

abbrev pub consumed : ℕ → PreAuthSession → PreAuthSession
consumed now r = record r { consumed_at = some now }

-- UPDATE … SET consumed_at WHERE id = … AND consumed_at IS NULL RETURNING id, and what follows it
unfoldable pub claim : PreAuthSession → ℕ → Action PreAuthSession
claim pas now s =
    if exists (unconsumed pas.id) s.db.pre_auth_sessions
    then (
      ok (consumed now pas),
      record s {
        db = record s.db {
          pre_auth_sessions = update (unconsumed pas.id) (consumed now) s.db.pre_auth_sessions;
        };
      },
    )
    else raise (Error.pre_auth_session_reuse pas.id pas.user_id) s

-- what `consume` does before its UPDATE: `none` where it returns None
unfoldable pub check_session : Option PreAuthSession → ℕ → Action (Option PreAuthSession)
check_session none now = pure none
check_session (some pas) now =
    if not (is_none pas.consumed_at)
    then raise (Error.pre_auth_session_reuse pas.id pas.user_id)
    else if ltb pas.expires_at now
    then pure none
    else pure (some pas)

unfoldable pub claim_found : ℕ → Option PreAuthSession → Action (Option PreAuthSession)
claim_found now none = pure none
claim_found now (some pas) = do claimed ← claim pas now; pure (some claimed)

module _ (py : Platform) (self : PreAuthSessionService) where
  -- `_hash_token(pepper, raw_token)`
  unfoldable pub hash : String → String
  hash raw_token = py.sha256 (append self.pepper raw_token)

  -- `row_id` and `raw_token` are what `uuid4` and `secrets.token_urlsafe` return
  unfoldable pub create : ℕ → Option String → Option String → ℕ → ℕ → String → Action String
  unfolding hash
  create user_id client_ip user_agent now row_id raw_token = do
    add_session (record {
      id = row_id;
      user_id = user_id;
      token_hash = hash raw_token;
      expires_at = now + self.expire_minutes * minute;
      consumed_at = none;
      client_ip = client_ip;
      user_agent = user_agent;
    })
    pure raw_token

  unfoldable pub look_up : String → ℕ → Action (Option PreAuthSession)
  look_up raw_token now = do found ← find_session (hash raw_token); check_session found now

  unfoldable pub consume : String → ℕ → Action (Option PreAuthSession)
  consume raw_token now = do checked ← look_up raw_token now; claim_found now checked
