-- ===== src/Auth/Refresh/Isolation.antt =====
-- Tenant isolation of auth/refresh.py: a call reaches the tokens of one organisation only.
use atlascore.Base.{
  ℕ, ◌≡◌, ◌≢◌, refl, Bool, true, List, arith, ◌==◌, String, Option, some, none, Bool-cases, inl,
  inr, ltb, ◌∙◌, str_eq,
}
use atlascore.Platform.{Platform}
use atlascore.Db.Models.{RefreshToken}
use atlascore.Db.Table.{select}
use atlascore.Db.Table.Count.{select-update_other, select-append_other}
use atlascore.Db.Session.{Session, Tables, set_organisation, pure, Action, begin, rollback, ◌>>=◌}
use atlascore.Db.Session.Rules.{bind_rule, insert_rule}
use atlascore.Auth.RoutingToken.{extract_organisation_hint, routed}
use atlascore.Auth.Refresh.{
  RefreshTokenService, Fresh, add_token, revoked, family_revoked, update_tokens, find_token, hash,
  new_token, create, rotate_row, rotate_found, rotate,
}

abbrev pub of_org : ℕ → RefreshToken → Bool
of_org o r = r.organisation_id == o

-- The session works in organisation `here`, and has the same tokens of organisation `o` as `t`,
-- pending and committed.
record Leaves (o : ℕ) (t : List RefreshToken) (s : Session) : Type 0 where
  pending : select (of_org o) s.db.refresh_tokens ≡ select (of_org o) t
  committed : select (of_org o) s.committed.refresh_tokens ≡ select (of_org o) t

module _ (o here : ℕ) (t : List RefreshToken) (other : here ≢ o) where
  add_token-Leaves :
      (rt : RefreshToken) (s : Session)
      → rt.organisation_id ≡ here
      → Leaves o t s
      → Leaves o t (add_token rt s).1
  unfolding add_token rollback
  add_token-Leaves rt s e h =
      insert_rule (λ r. Leaves o t r.1) _ _ _ s
        (λ _. record { pending = h.committed; committed = h.committed })
        (λ _ _. record { pending = h.committed; committed = h.committed })
        (λ _ _. record {
          pending =
              select-append_other (of_org o) s.db.refresh_tokens rt (ground arith) ∙ h.pending;
          committed = h.committed;
        })

  update_tokens-Leaves :
      (p : RefreshToken → Bool) (g : RefreshToken → RefreshToken) (s : Session)
      → ((r : RefreshToken) → (g r).organisation_id ≡ r.organisation_id)
      → s.organisation ≡ some here
      → Leaves o t s
      → Leaves o t (update_tokens p g s).1
  unfolding update_tokens
  update_tokens-Leaves p g s keeps e h = record {
    pending =
        select-update_other (of_org o) _ g s.db.refresh_tokens
          (λ r q. (ground arith, ground (arith, keeps r)))
        ∙ h.pending;
    committed = h.committed;
  }

module _ (py : Platform) (self : RefreshTokenService) (o : ℕ) (t : List RefreshToken) where
  create-Leaves :
      (user_id here family : ℕ) (ip : Option String) (now : ℕ) (fresh : Fresh) (s : Session)
      → here ≢ o
      → Leaves o t s
      → Leaves o t (create py self user_id here (some family) ip now fresh s).1
  unfolding create set_organisation
  create-Leaves user_id here family ip now fresh s other h =
      bind_rule (λ r. Leaves o t r.1) (add_token rt)
        (λ _. pure (routed py.uuid here fresh.secret, rt)) s₁ (λ _ _. added) (λ _ _. added)
    where
      rt : RefreshToken
      rt = new_token py self user_id here family ip now fresh

      s₁ : Session
      s₁ = record s { organisation = some here }

      added : Leaves o t (add_token rt s₁).1
      added =
          add_token-Leaves o here t other rt s₁ (unfold new_token in refl)
            (record { pending = h.pending; committed = h.committed })

  rotate_row-Leaves :
      (here : ℕ) (old : RefreshToken) (ip : Option String) (now issued : ℕ) (fresh : Fresh)
      (s : Session)
      → here ≢ o
      → s.organisation ≡ some here
      → Leaves o t s
      → Leaves o t (rotate_row py self here old ip now issued fresh s).1
  unfolding rotate_row update_tokens
  rotate_row-Leaves here old ip now issued fresh s other e h =
      elim (Bool-cases (old.organisation_id == here)) [
        | inr foreign ↦ rw foreign h
        | inl home ↦ rw home (elim (Bool-cases old.is_active) [
          | inr dead ↦
              rw dead (update_tokens-Leaves o here t other _ (family_revoked now) s (λ r. refl) e h)
          | inl active ↦ rw active (elim (Bool-cases (ltb old.expires_at now)) [
            | inl late ↦ rw late ended
            | inr live ↦ rw live (
                bind_rule (λ r. Leaves o t r.1) making (λ issue. pure (some issue)) s₁
                  (λ _ _. made home) (λ _ _. made home))
          ])
        ])
      ]
    where
      s₁ : Session
      s₁ = (update_tokens (λ r. r.id == old.id) (revoked now) s).1

      making : Action (String × RefreshToken)
      making = create py self old.user_id old.organisation_id (some old.family_id) ip issued fresh

      ended : Leaves o t s₁
      ended = update_tokens-Leaves o here t other _ (revoked now) s (λ r. refl) e h

      made : (old.organisation_id == here) ≡ true → Leaves o t (making s₁).1
      made home =
          create-Leaves old.user_id old.organisation_id old.family_id ip issued fresh s₁
            (ground arith) ended

  rotate_found-Leaves :
      (here : ℕ) (r : Option RefreshToken) (ip : Option String) (now issued : ℕ) (fresh : Fresh)
      (s : Session)
      → here ≢ o
      → s.organisation ≡ some here
      → Leaves o t s
      → Leaves o t (rotate_found py self here ip now issued fresh r s).1
  unfolding rotate_found
  rotate_found-Leaves here none ip now issued fresh s other e h = h
  rotate_found-Leaves here (some old) ip now issued fresh s other e h =
      rotate_row-Leaves here old ip now issued fresh s other e h

-- Presenting a token of one organisation, in a transaction of its own, changes no token of any
-- other organisation, whether the token is valid or not.
pub rotate_isolated :
    (py : Platform) (self : RefreshTokenService) (here o : ℕ) (raw : String) (ip : Option String)
    (now issued : ℕ) (fresh : Fresh) (t : Tables)
    → extract_organisation_hint py.uuid raw ≡ some here
    → here ≢ o
    → select (of_org o) (rotate py self raw ip now issued fresh (begin t)).1.db.refresh_tokens
      ≡ select (of_org o) t.refresh_tokens
unfolding rotate set_organisation find_token
rotate_isolated py self here o raw ip now issued fresh t hint other =
    rw (hint, rotate) rotated.pending
  where
    s₁ : Session
    s₁ = record (begin t) { organisation = some here }

    same : Leaves o t.refresh_tokens s₁
    same = record { pending = refl; committed = refl }

    query : Action (Option RefreshToken)
    query = find_token (λ r. str_eq r.token_hash (hash py self raw))

    rotated :
        Leaves o t.refresh_tokens ((query >>= rotate_found py self here ip now issued fresh) s₁).1
    rotated =
        bind_rule (λ r. Leaves o t.refresh_tokens r.1) query
          (rotate_found py self here ip now issued fresh) s₁ (λ _ _. same)
          (λ r _.
            rotate_found-Leaves py self o t.refresh_tokens here r ip now issued fresh s₁ other refl
              same)
