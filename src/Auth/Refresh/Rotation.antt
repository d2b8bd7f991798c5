-- ===== src/Auth/Refresh/Rotation.antt =====
-- `create` and `rotate` of auth/refresh.py over whole sessions.
use mathlib.Core.Path.{subst}
use atlascore.Base.{
  ◌∙◌, sym, ℕ, ◌≡◌, refl, Bool, true, ◌&&◌, arith, ◌==◌, str_eq, String, ==_refl, ap, Option, some,
  none, Bool-cases, inl, inr, ok, ltb, Option-cases,
}
use atlascore.Platform.{Platform}
use atlascore.Db.Models.{RefreshToken}
use atlascore.Db.Table.{count, Has}
use atlascore.Db.Table.Rows.{one_or_none-some, All_of_Has}
use atlascore.Db.Session.{Session, set_organisation, rollback, tenant, pure, Action}
use atlascore.Db.Session.Rules.{bind_rule, insert_rule}
use atlascore.Auth.RoutingToken.{extract_organisation_hint, routed}
use atlascore.Auth.Refresh.{
  RefreshTokenService, Fresh, add_token, revoked, update_tokens, find_token, hash, new_token,
  create, rotate_row, rotate_found, rotate,
}
use atlascore.Auth.Refresh.Families.{
  IsValid, Ends, active_in, revoked-Ends, family_revoked-Ends, end-IsValid, count-active-end_one,
  append-IsValid,
}

-- The invariant holds of what the transaction sees and of what is committed.
pub record IsSound (owner : ℕ → ℕ) (s : Session) : Type 0 where
  pub pending : IsValid owner s.db.refresh_tokens
  pub committed : IsValid owner s.committed.refresh_tokens

pub add_token-IsSound :
    (owner : ℕ → ℕ) (rt : RefreshToken) (s : Session)
    → IsSound owner s
    → count (active_in rt.family_id) s.db.refresh_tokens ≡ 0
    → rt.organisation_id ≡ owner rt.family_id
    → IsSound owner (add_token rt s).1
unfolding add_token rollback
add_token-IsSound owner rt s v none_active same =
    insert_rule (λ o. IsSound owner o.1) _ _ _ s
      (λ _. record { pending = v.committed; committed = v.committed })
      (λ _ _. record { pending = v.committed; committed = v.committed })
      (λ _ free. record {
        pending = append-IsValid owner s.db.refresh_tokens rt v.pending none_active free same;
        committed = v.committed;
      })

update_tokens-IsSound :
    (owner : ℕ → ℕ) (p : RefreshToken → Bool) (g : RefreshToken → RefreshToken) (s : Session)
    → Ends g
    → IsSound owner s
    → IsSound owner (update_tokens p g s).1
unfolding update_tokens
update_tokens-IsSound owner p g s ends v = record {
  pending = end-IsValid _ g ends owner s.db.refresh_tokens v.pending;
  committed = v.committed;
}

module _ (py : Platform) (self : RefreshTokenService) where
  create-IsSound :
      (owner : ℕ → ℕ) (user_id organisation_id family : ℕ) (ip : Option String) (now : ℕ)
      (fresh : Fresh) (s : Session)
      → IsSound owner s
      → count (active_in family) s.db.refresh_tokens ≡ 0
      → organisation_id ≡ owner family
      → IsSound owner (create py self user_id organisation_id (some family) ip now fresh s).1
  unfolding create set_organisation
  create-IsSound owner user_id organisation_id family ip now fresh s v none_active same =
      bind_rule (λ o. IsSound owner o.1) (add_token rt)
        (λ _. pure (routed py.uuid organisation_id fresh.secret, rt)) s' (λ _ _. added)
        (λ _ _. added)
    where
      rt : RefreshToken
      rt = new_token py self user_id organisation_id family ip now fresh

      s' : Session
      s' = record s { organisation = some organisation_id }

      added : IsSound owner (add_token rt s').1
      added =
          unfold new_token in
          add_token-IsSound owner rt s' (record { pending = v.pending; committed = v.committed })
            none_active same

-- After `rotate` has revoked an active token that it may see, its family has no active token.
-- The row that a query on the tokens returns: it fits, it is of the current organisation, and it
-- stands in the table.
find_token-some :
    (p : RefreshToken → Bool) (o : ℕ) (s : Session) (old : RefreshToken)
    → s.organisation ≡ some o
    → (find_token p s).0 ≡ ok (some old)
    → (p old ≡ true) × (old.organisation_id ≡ o) × Has old s.db.refresh_tokens
unfolding find_token
find_token-some p o s old here e =
    let found =
      one_or_none-some (λ r. tenant s.organisation r.organisation_id && p r) s.db.refresh_tokens old
        e in
    (ground (arith, found.0), ground (arith, found.0), found.1)

revoke_one-clears :
    (owner : ℕ → ℕ) (old : RefreshToken) (g : RefreshToken → RefreshToken) (s : Session)
    → Ends g
    → IsSound owner s
    → Has old s.db.refresh_tokens
    → s.organisation ≡ some old.organisation_id
    → old.is_active ≡ true
    → count (active_in old.family_id) (update_tokens (λ r. r.id == old.id) g s).1.db.refresh_tokens
      ≡ 0
unfolding update_tokens
revoke_one-clears owner old g s ends v has here active =
    count-active-end_one (λ r. tenant s.organisation r.organisation_id && r.id == old.id) g owner
      s.db.refresh_tokens old ends v.pending has (ground arith) active

module _ (py : Platform) (self : RefreshTokenService) where
  rotate_row-IsSound :
      (owner : ℕ → ℕ) (old : RefreshToken) (ip : Option String) (now issued : ℕ) (fresh : Fresh)
      (s : Session)
      → s.organisation ≡ some old.organisation_id
      → IsSound owner s
      → Has old s.db.refresh_tokens
      → IsSound owner (rotate_row py self old.organisation_id old ip now issued fresh s).1
  unfolding rotate_row update_tokens
  rotate_row-IsSound owner old ip now issued fresh s here v has =
      rw (==_refl old.organisation_id) (elim (Bool-cases old.is_active) [
        | inr dead ↦ rw dead (update_tokens-IsSound owner _ _ s (family_revoked-Ends now) v)
        | inl active ↦ rw active (elim (Bool-cases (ltb old.expires_at now)) [
          | inl late ↦ rw late (ended)
          | inr live ↦ rw live (
              bind_rule (λ o. IsSound owner o.1) making (λ issue. pure (some issue)) s₁
                (λ _ _. made active) (λ _ _. made active))
        ])
      ])
    where
      s₁ : Session
      s₁ = (update_tokens (λ r. r.id == old.id) (revoked now) s).1

      making : Action (String × RefreshToken)
      making = create py self old.user_id old.organisation_id (some old.family_id) ip issued fresh

      ended : IsSound owner s₁
      ended = update_tokens-IsSound owner _ _ s (revoked-Ends now) v

      made : old.is_active ≡ true → IsSound owner (making s₁).1
      made active =
          create-IsSound py self owner old.user_id old.organisation_id old.family_id ip issued fresh
            s₁ ended
            (revoke_one-clears owner old (revoked now) s (revoked-Ends now) v has here active)
            (All_of_Has _ old s.db.refresh_tokens v.pending.same_org has)

  rotate_found-IsSound :
      (owner : ℕ → ℕ) (o : ℕ) (raw : String) (ip : Option String) (now issued : ℕ) (fresh : Fresh)
      (s : Session) (r : Option RefreshToken)
      → s.organisation ≡ some o
      → IsSound owner s
      → (find_token (λ x. str_eq x.token_hash (hash py self raw)) s).0 ≡ ok r
      → IsSound owner (rotate_found py self o ip now issued fresh r s).1
  unfolding rotate_found
  rotate_found-IsSound owner o raw ip now issued fresh s none here v e = v
  rotate_found-IsSound owner o raw ip now issued fresh s (some old) here v e =
      let found = find_token-some _ o s old here e in
      subst (λ x. IsSound owner (rotate_row py self x old ip now issued fresh s).1) found.1
        (rotate_row-IsSound owner old ip now issued fresh s (here ∙ ap some (sym found.1)) v
          found.2)

  -- `rotate` keeps the invariant of the refresh tokens, pending and committed, whatever token is
  -- presented and however it ends: each family has at most one active token, all its tokens are of
  -- one organisation, and no two tokens have the same hash.
  pub rotate-IsSound :
      (owner : ℕ → ℕ) (raw : String) (ip : Option String) (now issued : ℕ) (fresh : Fresh)
      (s : Session)
      → IsSound owner s
      → IsSound owner (rotate py self raw ip now issued fresh s).1
  unfolding rotate set_organisation find_token
  rotate-IsSound owner raw ip now issued fresh s v =
      elim (Option-cases (extract_organisation_hint py.uuid raw)) [
        | inl no_hint ↦ rw (no_hint, rotate) v
        | inr (o, hint) ↦
            rw (hint, rotate)
              (bind_rule (λ r. IsSound owner r.1)
                (find_token (λ r. str_eq r.token_hash (hash py self raw)))
                (rotate_found py self o ip now issued fresh) (record s { organisation = some o })
                (λ _ _. here o)
                (λ r e. rotate_found-IsSound owner o raw ip now issued fresh _ r refl (here o) e))
      ]
    where
      here : (o : ℕ) → IsSound owner (record s { organisation = some o })
      here o = record { pending = v.pending; committed = v.committed }
