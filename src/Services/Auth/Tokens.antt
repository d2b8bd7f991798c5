-- ===== src/Services/Auth/Tokens.antt =====
-- services/auth_service.py: the refresh of tokens, and logout.
use atlascore.Base.{ℕ, String, true, Option, none, some, [], ◌∷◌, Error}
use atlascore.Platform.{Platform}
use atlascore.Db.Models.{RefreshToken, Value}
use atlascore.Db.Session.{Action, pure, raise, handle, ◌>>=◌, ◌>>◌, commit}
use atlascore.Auth.Refresh.{Fresh, rotate, revoke_family, revoke_all_for_user_org}
use atlascore.Services.Audit.{Origin, emit_transactional, emit_independent}
use atlascore.Services.Auth.{AuthService}

module _ (py : Platform) (self : AuthService) where
  -- the handler of `rotate`, which raises the error again
  unfoldable pub on_reuse : Origin → Error → Action (Option (String × RefreshToken))
  on_reuse origin (Error.refresh_token_reuse family_id) = do
    emit_independent py "auth.token_reuse_detected" none (("family_id", Value.uuid family_id) ∷ [])
        origin "failure"
    commit
    raise (Error.refresh_token_reuse family_id)
  on_reuse origin e = raise e

  unfoldable pub refresh_tokens :
      String → Origin → ℕ → ℕ → Fresh → Action (Option (String × RefreshToken))
  refresh_tokens raw_refresh_token origin now issued fresh = do
    result ←
        handle (rotate py self.refresh raw_refresh_token origin.client_ip now issued fresh)
          (on_reuse origin)
    commit
    pure result

unfoldable pub logout : Platform → ℕ → ℕ → ℕ → Origin → ℕ → Action Unit
logout py family_id user_id organisation_id origin now = do
  revoke_family family_id (some organisation_id) now
  emit_transactional py "auth.logout" organisation_id (some user_id) [] origin "success"
  commit

unfoldable pub logout_all : Platform → ℕ → ℕ → Origin → ℕ → Action Unit
logout_all py user_id organisation_id origin now = do
  revoke_all_for_user_org user_id organisation_id now
  emit_transactional py "auth.logout" organisation_id (some user_id)
      (("all_sessions", Value.flag true) ∷ []) origin "success"
  commit
