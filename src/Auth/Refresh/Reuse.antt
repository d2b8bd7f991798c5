-- ===== src/Auth/Refresh/Reuse.antt =====
-- Reuse detection of auth/refresh.py, and what `rotate` does on each branch.
use mathlib.Core.Path.{subst}
use atlascore.Base.{
  ℕ, ◌≤◌, ◌≡◌, refl, Bool, true, false, ◌&&◌, not, List, [], ◌∷◌, ◌++◌, arith, ◌==◌, str_eq, String,
  ==_refl, ap, Option, some, ok, err, Error, ltb, sym, ◌∙◌, All-map,
}
use atlascore.Platform.{Platform}
use atlascore.Db.Models.{RefreshToken}
use atlascore.Db.Table.{select, update, exists, count, Has, scalar_one_or_none}
use atlascore.Db.Table.Count.{count_mono, count-zero_of_All, exists-update_same}
use atlascore.Db.Table.Rows.{All_of_Has, one_or_none_of_Has, Has-update_self, Has-append}
use atlascore.Db.Session.{Session, set_organisation, tenant, pure, Action}
use atlascore.Db.Session.Rules.{bind-ok, insert-ok}
use atlascore.Auth.RoutingToken.{extract_organisation_hint, routed}
use atlascore.Auth.Refresh.{
  RefreshTokenService, Fresh, conflicts, add_token, revoked, family_revoked, update_tokens,
  find_token, hash, new_token, create, rotate_row, rotate_found, rotate,
}
use atlascore.Auth.Refresh.Rotation.{IsSound, rotate-IsSound}
use atlascore.Auth.Refresh.Families.{
  IsValid, active_in, has_hash, family_revoked-Ends, count-active-end,
}

-- The presented token routes to its row's organisation and hashes to that row.
pub record Presents (py : Platform) (self : RefreshTokenService) (raw : String) (old : RefreshToken)
    : Type 0 where
  pub hint : extract_organisation_hint py.uuid raw ≡ some old.organisation_id
  pub hash_fits : str_eq old.token_hash (hash py self raw) ≡ true

module _ (py : Platform) (self : RefreshTokenService) (raw : String) (old : RefreshToken) where
  find_token-Presents :
      (owner : ℕ → ℕ) (s : Session)
      → s.organisation ≡ some old.organisation_id
      → Presents py self raw old
      → IsValid owner s.db.refresh_tokens
      → Has old s.db.refresh_tokens
      → find_token (λ r. str_eq r.token_hash (hash py self raw)) s ≡ (ok (some old), s)
  unfolding find_token
  find_token-Presents owner s here p v has = ap (λ r. (r, s)) found
    where
      fits : RefreshToken → Bool
      fits r = tenant s.organisation r.organisation_id && str_eq r.token_hash (hash py self raw)

      fits_old : fits old ≡ true
      fits_old = rw here (ground (arith, p.hash_fits))

      found : scalar_one_or_none (select fits s.db.refresh_tokens) ≡ ok (some old)
      found = one_or_none_of_Has fits old s.db.refresh_tokens has fits_old (
          omega (
            arith,
            count_mono fits (has_hash (hash py self raw)) s.db.refresh_tokens (λ r h. ground arith),
            v.unique_hash (hash py self raw),
          ))

  -- `rotate` of a presented row goes on with that row.
  pub rotate-Presents :
      (owner : ℕ → ℕ) (ip : Option String) (now issued : ℕ) (fresh : Fresh) (s : Session)
      → Presents py self raw old
      → IsValid owner s.db.refresh_tokens
      → Has old s.db.refresh_tokens
      → rotate py self raw ip now issued fresh s
        ≡ rotate_row py self old.organisation_id old ip now issued fresh
            (record s { organisation = some old.organisation_id })
  unfolding rotate rotate_found set_organisation
  rotate-Presents owner ip now issued fresh s p v has =
      rw (p.hint, rotate)
        (bind-ok (find_token (λ r. str_eq r.token_hash (hash py self raw)))
          (rotate_found py self old.organisation_id ip now issued fresh) s₁ (some old) s₁
          (find_token-Presents owner s₁ refl p v has))
    where
      s₁ : Session
      s₁ = record s { organisation = some old.organisation_id }

revoke_family-clears :
    (owner : ℕ → ℕ) (old : RefreshToken) (now : ℕ) (rows : List RefreshToken)
    → IsValid owner rows
    → Has old rows
    → count (active_in old.family_id) (
        update
          (λ r.
            tenant (some old.organisation_id) r.organisation_id
            && (r.family_id == old.family_id && r.is_active))
          (family_revoked now)
          rows)
      ≡ 0
revoke_family-clears owner old now rows v has =
    let home : old.organisation_id ≡ owner old.family_id = All_of_Has _ old rows v.same_org has in
    count-active-end _ _ (family_revoked-Ends now) old.family_id rows
    ∙ count-zero_of_All _ rows (All-map rows (λ r same. hidden home r same) v.same_org)
  where
    hidden :
        old.organisation_id ≡ owner old.family_id
        → (r : RefreshToken) → r.organisation_id ≡ owner r.family_id
        → (active_in old.family_id r
            && not (
                tenant (some old.organisation_id) r.organisation_id
                && (r.family_id == old.family_id && r.is_active)))
          ≡ false
    hidden home r same = ground arith

module _ (py : Platform) (self : RefreshTokenService) where
  -- `create` in a given family, where the random values are unused.
  create-ok :
      (user_id organisation_id family : ℕ) (ip : Option String) (now : ℕ) (fresh : Fresh)
      (s : Session)
      → exists
          (conflicts (new_token py self user_id organisation_id family ip now fresh))
          s.db.refresh_tokens
        ≡ false
      → create py self user_id organisation_id (some family) ip now fresh s ≡ (
        ok (
          routed py.uuid organisation_id fresh.secret,
          new_token py self user_id organisation_id family ip now fresh,
        ),
        record s {
          organisation = some organisation_id;
          db = record s.db {
            refresh_tokens =
                s.db.refresh_tokens
                ++ new_token py self user_id organisation_id family ip now fresh ∷ [];
          };
        },
      )
  unfolding create add_token set_organisation
  create-ok user_id organisation_id family ip now fresh s unused =
      bind-ok (add_token rt) (λ _. pure (routed py.uuid organisation_id fresh.secret, rt)) s₁ tt _
        (insert-ok _ _ _ s₁ (unfold new_token in ==_refl organisation_id) unused)
    where
      rt : RefreshToken
      rt = new_token py self user_id organisation_id family ip now fresh

      s₁ : Session
      s₁ = record s { organisation = some organisation_id }

conflicts-revoked :
    (now : ℕ) (new r : RefreshToken) → conflicts new (revoked now r) ≡ conflicts new r
unfolding conflicts
conflicts-revoked now new r = refl

module _ (py : Platform) (self : RefreshTokenService) (raw : String) (old : RefreshToken) where
  -- In a valid table of refresh tokens, a token that is presented after it was revoked raises the
  -- reuse error, and then its family has no active token at all.
  pub reuse_revokes_family :
      (owner : ℕ → ℕ) (ip : Option String) (now issued : ℕ) (fresh : Fresh) (s : Session)
      → Presents py self raw old
      → IsValid owner s.db.refresh_tokens
      → Has old s.db.refresh_tokens
      → old.is_active ≡ false
      → let (r, s') = rotate py self raw ip now issued fresh s in
        (r ≡ err (Error.refresh_token_reuse old.family_id))
        × (count (active_in old.family_id) s'.db.refresh_tokens ≡ 0)
  unfolding rotate_row update_tokens
  reuse_revokes_family owner ip now issued fresh s p v has dead =
      rw (rotate-Presents py self raw old owner ip now issued fresh s p v has) (
        rw (==_refl old.organisation_id)
          (rw dead (refl, revoke_family-clears owner old now s.db.refresh_tokens v has)))

  abbrev pub issued_token : Option String → ℕ → Fresh → RefreshToken
  issued_token ip issued fresh =
      new_token py self old.user_id old.organisation_id old.family_id ip issued fresh

  -- the rows after `rotate` has exchanged the presented token
  abbrev pub exchanged : Option String → ℕ → ℕ → Fresh → List RefreshToken → List RefreshToken
  exchanged ip now issued fresh rows =
      update (λ r. old.organisation_id == r.organisation_id && r.id == old.id) (revoked now) rows
      ++ issued_token ip issued fresh ∷ []

  -- In a valid table, a live token that has not expired is exchanged: it is revoked, and one new
  -- token of its user, organisation and family takes its place, provided that the random values of
  -- the new one are unused. Nothing else of the database changes.
  pub rotate_live :
      (owner : ℕ → ℕ) (ip : Option String) (now issued : ℕ) (fresh : Fresh) (s : Session)
      → Presents py self raw old
      → IsValid owner s.db.refresh_tokens
      → Has old s.db.refresh_tokens
      → old.is_active ≡ true
      → now ≤ old.expires_at
      → exists (conflicts (issued_token ip issued fresh)) s.db.refresh_tokens ≡ false
      → rotate py self raw ip now issued fresh s ≡ (
        ok (some (routed py.uuid old.organisation_id fresh.secret, issued_token ip issued fresh)),
        record s {
          organisation = some old.organisation_id;
          db = record s.db { refresh_tokens = exchanged ip now issued fresh s.db.refresh_tokens };
        },
      )
  unfolding rotate_row update_tokens
  rotate_live owner ip now issued fresh s p v has active live unused =
      rw (rotate-Presents py self raw old owner ip now issued fresh s p v has) (
        rw (==_refl old.organisation_id) (
          rw active (
            rw in_time (
              bind-ok making (λ issue. pure (some issue)) s₁
                (routed py.uuid old.organisation_id fresh.secret, issued_token ip issued fresh) _
                (create-ok py self old.user_id old.organisation_id old.family_id ip issued fresh s₁
                  unused₁)))))
    where
      in_time : ltb old.expires_at now ≡ false
      in_time = ground arith

      s₁ : Session
      s₁ =
          (update_tokens (λ r. r.id == old.id) (revoked now)
            (record s { organisation = some old.organisation_id })).1

      making : Action (String × RefreshToken)
      making = create py self old.user_id old.organisation_id (some old.family_id) ip issued fresh

      unused₁ : exists (conflicts (issued_token ip issued fresh)) s₁.db.refresh_tokens ≡ false
      unused₁ =
          exists-update_same (conflicts (issued_token ip issued fresh)) _ (revoked now)
            s.db.refresh_tokens (conflicts-revoked now (issued_token ip issued fresh))
          ∙ unused

module _ (py : Platform) (self : RefreshTokenService) (raw : String) (old : RefreshToken) where
  -- Replay: after an exchange of a live token in a valid table, with unused random values, whoever
  -- presents the same token again, at any time and in any later transaction that sees the exchange,
  -- raises the reuse error, and then the family has no active token: the one that the exchange
  -- issued is revoked with it.
  pub replay_after_rotate :
      (owner : ℕ → ℕ) (ip ip' : Option String) (now issued now' issued' : ℕ) (fresh fresh' : Fresh)
      (s t : Session)
      → Presents py self raw old
      → IsSound owner s
      → Has old s.db.refresh_tokens
      → old.is_active ≡ true
      → now ≤ old.expires_at
      → exists (conflicts (issued_token py self raw old ip issued fresh)) s.db.refresh_tokens
        ≡ false
      → t.db.refresh_tokens ≡ (rotate py self raw ip now issued fresh s).1.db.refresh_tokens
      → let (r, t') = rotate py self raw ip' now' issued' fresh' t in
        (r ≡ err (Error.refresh_token_reuse old.family_id))
        × (count (active_in old.family_id) t'.db.refresh_tokens ≡ 0)
  replay_after_rotate owner ip ip' now issued now' issued' fresh fresh' s t p v has active live
        unused sees =
      reuse_revokes_family py self raw (revoked now old) owner ip' now' issued' fresh' t
        (record { hint = p.hint; hash_fits = p.hash_fits })
        (subst (IsValid owner) (sym sees)
          (rotate-IsSound py self owner raw ip now issued fresh s v).pending)
        (subst (Has (revoked now old)) (sym (sees ∙ ap (λ o. o.1.db.refresh_tokens) exchange))
          still_there)
        refl
    where
      exchange : rotate py self raw ip now issued fresh s ≡ (
        ok (
            some (
              routed py.uuid old.organisation_id fresh.secret,
              issued_token py self raw old ip issued fresh,
            )),
        record s {
          organisation = some old.organisation_id;
          db = record s.db {
            refresh_tokens = exchanged py self raw old ip now issued fresh s.db.refresh_tokens;
          };
        },
      )
      exchange =
          rotate_live py self raw old owner ip now issued fresh s p v.pending has active live unused

      still_there :
          Has (revoked now old) (exchanged py self raw old ip now issued fresh s.db.refresh_tokens)
      still_there =
          Has-append _ _ _
            (Has-update_self _ (revoked now) old s.db.refresh_tokens has (ground arith))
