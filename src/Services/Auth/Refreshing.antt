-- ===== src/Services/Auth/Refreshing.antt =====
-- `refresh_tokens` of services/auth_service.py where a token is used again.
use atlascore.Base.{ℕ, String, ◌≡◌, refl, false, [], ◌∷◌, none, err, Error, ap}
use atlascore.Platform.{Platform}
use atlascore.Db.Models.{RefreshToken, Value, AuditEvent}
use atlascore.Db.Table.{count, Has}
use atlascore.Db.Table.Rows.{Has-append_last}
use atlascore.Db.Session.{Session, commit, pure, handle, ◌>>◌}
use atlascore.Db.Session.Rules.{bind-err, handle-err}
use atlascore.Auth.Refresh.{Fresh, rotate}
use atlascore.Auth.Refresh.Families.{IsValid, active_in}
use atlascore.Auth.Refresh.Reuse.{Presents, reuse_revokes_family}
use atlascore.Services.Audit.{Origin, emit_independent, event, log}
use atlascore.Services.Auth.{AuthService}
use atlascore.Services.Auth.Tokens.{on_reuse, refresh_tokens}

module _ (py : Platform) (self : AuthService) (raw : String) (old : RefreshToken) (origin : Origin)
    (now issued : ℕ) (fresh : Fresh) where
  -- the event of the reuse
  abbrev pub detected : AuditEvent
  detected =
      event py "auth.token_reuse_detected" none none (("family_id", Value.uuid old.family_id) ∷ [])
        origin "failure"

  -- what the handler leaves
  abbrev pub reported : Session → Session
  reported t = (commit (log detected t)).1

  refresh_tokens-reported :
      (s t : Session)
      → rotate py self.refresh raw origin.client_ip now issued fresh s
        ≡ (err (Error.refresh_token_reuse old.family_id), t)
      → refresh_tokens py self raw origin now issued fresh s
        ≡ (err (Error.refresh_token_reuse old.family_id), reported t)
  unfolding refresh_tokens on_reuse emit_independent commit
  refresh_tokens-reported s t h =
      bind-err
        (handle (rotate py self.refresh raw origin.client_ip now issued fresh)
          (on_reuse py self origin))
        (λ result. commit >> pure result) s (Error.refresh_token_reuse old.family_id) (reported t)
        (handle-err (rotate py self.refresh raw origin.client_ip now issued fresh)
          (on_reuse py self origin) s (Error.refresh_token_reuse old.family_id) t h)

  -- In a valid table of refresh tokens, a request with a token that was revoked fails with the reuse
  -- error, and what is committed then has no active token of its family, and the event of the
  -- reuse: the caller's rollback loses neither.
  pub refresh_tokens-reuse :
      (owner : ℕ → ℕ) (s : Session)
      → Presents py self.refresh raw old
      → IsValid owner s.db.refresh_tokens
      → Has old s.db.refresh_tokens
      → old.is_active ≡ false
      → let (r, s') = refresh_tokens py self raw origin now issued fresh s in
        (r ≡ err (Error.refresh_token_reuse old.family_id))
        × (count (active_in old.family_id) s'.committed.refresh_tokens ≡ 0)
        × Has detected s'.committed.audit_events
  unfolding commit
  refresh_tokens-reuse owner s p v has dead =
      let reused =
        reuse_revokes_family py self.refresh raw old owner origin.client_ip now issued fresh s p v
          has dead in
      let t = (rotate py self.refresh raw origin.client_ip now issued fresh s).1 in
      rw (refresh_tokens-reported s t (ap (λ r. (r, t)) reused.0))
        (refl, reused.1, Has-append_last t.db.audit_events detected)
