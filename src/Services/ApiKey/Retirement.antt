-- ===== src/Services/ApiKey/Retirement.antt =====
-- A key that `revoke_api_key` or `rotate_api_key` of services/service_account_service.py retired
-- never authenticates again.
use mathlib.Core.Path.{subst}
use Prim.Native.String.{◌++◌ as append}
use atlascore.Base.{
  ℕ, ◌≡◌, ◌≢◌, ◌≤◌, refl, Bool, true, false, ◌&&◌, not, List, [], ◌∷◌, ◌++◌, arith, ◌==◌, String,
  Option, some, none, ok, err, Error, Result, is_none, ==_refl, ap, sym, ◌∙◌, inl, inr, ◌⊎◌,
  if◌then◌else◌,
}
use atlascore.Platform.{Platform}
use atlascore.Db.Models.{ServiceAccount, ApiKey}
use atlascore.Db.Table.{update, exists, count, Has}
use atlascore.Db.Table.Rows.{one_or_none-some, one_or_none_of_Has, Has-update_self, exists_of_Has}
use atlascore.Db.Session.{Session, Action, set_organisation, tenant, lift, pure, ◌>>=◌, ◌>>◌}
use atlascore.Db.Session.Rules.{raise_if_rule, insert_rule}
use atlascore.Services.ServiceAccount.{found_or}
use atlascore.Services.ApiKey.Format.{key_text}
use atlascore.Services.ApiKey.{
  ServiceAccountService, Fresh, has_id, conflicts, add_key, find_key_id, get_api_key, revoked,
  update_key, revoke_found, revoke_api_key, rotate_found, rotate_api_key, new_key,
  authenticate_api_key,
}
use atlascore.Services.ApiKey.Authentic.{Verdict, authenticate_api_key-Verdict}

-- every row with the id is revoked
abbrev pub IsRetired : ℕ → List ApiKey → Type 0
IsRetired i rows = (k : ApiKey) → Has k rows → k.id ≡ i → is_none k.revoked_at ≡ false

Has-update :
    (p : ApiKey → Bool) (f : ApiKey → ApiKey) (k : ApiKey) (rows : List ApiKey)
    → Has k (update p f rows)
    → (r : ApiKey) × Has r rows × (k ≡ (if p r then f r else r))
unfolding update
Has-update p f k [] h = absurd h
Has-update p f k (x ∷ rows) (inl e) = (x, inl refl, e)
Has-update p f k (x ∷ rows) (inr h) =
    let (r, there, e) = Has-update p f k rows h in (r, inr there, e)

Has-append_inv :
    (k new : ApiKey) (rows : List ApiKey) → Has k (rows ++ new ∷ []) → Has k rows ⊎ (k ≡ new)
Has-append_inv k new [] (inl e) = inr e
Has-append_inv k new [] (inr h) = absurd h
Has-append_inv k new (x ∷ rows) (inl e) = inl (inl e)
Has-append_inv k new (x ∷ rows) (inr h) = elim (Has-append_inv k new rows h) [
  | inl there ↦ inl (inr there)
  | inr e ↦ inr e
]

one_row :
    (a b : ApiKey) (rows : List ApiKey)
    → Has a rows
    → Has b rows
    → a.id ≡ b.id
    → count (has_id b.id) rows ≤ 1
    → a ≡ b
one_row a b rows ha hb same alone = ground (
  arith,
  one_or_none_of_Has (has_id b.id) a rows ha (ground (arith, same)) alone,
  one_or_none_of_Has (has_id b.id) b rows hb (==_refl b.id) alone,
)

abbrev reached : ℕ → ℕ → ApiKey → Bool
reached o i k = tenant (some o) k.organisation_id && k.id == i

same_id : (b : Bool) (now : ℕ) (r k : ApiKey) → k ≡ (if b then revoked now r else r) → k.id ≡ r.id
same_id true now r k e = ap (λ x. x.id) e
same_id false now r k e = ap (λ x. x.id) e

revoked_at_of :
    (b : Bool) (now : ℕ) (r k : ApiKey)
    → b ≡ true
    → k ≡ (if b then revoked now r else r)
    → is_none k.revoked_at ≡ false
revoked_at_of true now r k it e = ap (λ x. is_none x.revoked_at) e
revoked_at_of false now r k it e = absurd (ground (arith, it))

update-IsRetired :
    (o now : ℕ) (key : ApiKey) (rows : List ApiKey)
    → Has key rows
    → key.organisation_id ≡ o
    → count (has_id key.id) rows ≤ 1
    → IsRetired key.id (update (reached o key.id) (revoked now) rows)
update-IsRetired o now key rows has home alone k h same =
    let (r, there, e) = Has-update (reached o key.id) (revoked now) k rows h in
    let id : r.id ≡ key.id = sym (same_id (reached o key.id r) now r k e) ∙ same in
    revoked_at_of (reached o key.id r) now r k
      (rw (one_row r key rows there has id alone) (ground (arith, home))) e

append-IsRetired :
    (i : ℕ) (new : ApiKey) (rows : List ApiKey)
    → IsRetired i rows
    → new.id ≢ i
    → IsRetired i (rows ++ new ∷ [])
append-IsRetired i new rows retired other k h same = elim (Has-append_inv k new rows h) [
  | inl there ↦ retired k there same
  | inr e ↦ absurd (other (sym (ap (λ x. x.id) e) ∙ same))
]

module _ (py : Platform) (self : ServiceAccountService) where
  refused_of_IsRetired :
      (raw : String) (required : List String) (later i : ℕ) (t : Session)
      (out : Result (ApiKey × ServiceAccount) × Session)
      → IsRetired i t.db.api_keys
      → Verdict py self raw required later t out
      → (k : ApiKey) (a : ServiceAccount) → out.0 ≡ ok (k, a)
      → k.id ≢ i
  refused_of_IsRetired raw required later i t (ok (k', a'), t') retired v k a got same = ground (
    arith,
    got,
    same,
    ap (λ x. x.id) v.key_used,
    retired v.key v.entitled.key_stands,
    v.entitled.unrevoked,
  )
  refused_of_IsRetired raw required later i t (err e, t') retired v k a got same =
      ground (arith, got)

module _ {A : Type 0} (i : ℕ) where
  -- a success retires the key with the id
  abbrev pub Retires : Result A × Session → Type 0
  Retires (ok a, s') = IsRetired i s'.db.api_keys
  Retires (err e, s') = Unit

  key_rule :
      (f : ApiKey → Action A) (s : Session) (found : Result (Option ApiKey))
      → ((key : ApiKey) → found ≡ ok (some key) → Retires (f key s))
      → Retires (((lift found >>= found_or Error.api_key_not_found) >>= f) s)
  key_rule f s (err e) goes = tt
  key_rule f s (ok none) goes = tt
  key_rule f s (ok (some key)) goes = goes key refl

  get_api_key-Retires :
      (o : ℕ) (f : ApiKey → Action A) (s : Session)
      → ((key : ApiKey)
          → Has key s.db.api_keys
          → key.id ≡ i
          → key.organisation_id ≡ o
          → Retires (f key (record s { organisation = some o })))
      → Retires ((get_api_key i o >>= f) s)
  unfolding get_api_key find_key_id set_organisation
  get_api_key-Retires o f s goes =
      key_rule f (record s { organisation = some o }) _
        (λ key h.
          let fits = one_or_none-some _ s.db.api_keys key h in
          goes key fits.1 (ground (arith, fits.0)) (ground (arith, fits.0)))

revoke_found-Retires :
    (i o now : ℕ) (s : Session) (key : ApiKey)
    → count (has_id i) s.db.api_keys ≤ 1
    → Has key s.db.api_keys
    → key.id ≡ i
    → key.organisation_id ≡ o
    → Retires i (revoke_found now key (record s { organisation = some o }))
unfolding revoke_found
revoke_found-Retires i o now s key alone has fits home =
    raise_if_rule (Retires i) (not (is_none key.revoked_at)) Error.api_key_revoked
      (update_key key.id (revoked now) >> pure (revoked now key))
      (record s { organisation = some o }) (λ h. tt)
      (λ h.
        subst (λ j. IsRetired j (update (reached o key.id) (revoked now) s.db.api_keys)) fits
          (update-IsRetired o now key s.db.api_keys has home (rw fits alone)))

module _ (py : Platform) (self : ServiceAccountService) where
  other_id :
      (new key : ApiKey) (rows : List ApiKey)
      → Has key rows
      → exists (conflicts new) rows ≡ false
      → new.id ≢ key.id
  unfolding conflicts
  other_id new key rows has free same =
      ground (arith, free, exists_of_Has (conflicts new) key rows has (rw same (ground arith)))

  add_key-Retires :
      (i : ℕ) (new : ApiKey) (raw : String) (s : Session)
      → IsRetired i s.db.api_keys
      → (exists (conflicts new) s.db.api_keys ≡ false → new.id ≢ i)
      → Retires {A = ApiKey × String} i ((add_key new >> pure (new, raw)) s)
  unfolding add_key
  add_key-Retires i new raw s retired other =
      insert_rule
        (λ (out : Result (Unit {0}) × Session).
          Retires {A = ApiKey × String} i (((λ _. out) >> pure (new, raw)) s))
        _ _ _ s (λ h. tt) (λ h k. tt)
        (λ h free. append-IsRetired i new s.db.api_keys retired (other free))

  rotate_found-Retires :
      (i o now : ℕ) (fresh : Fresh) (s : Session) (key : ApiKey)
      → count (has_id i) s.db.api_keys ≤ 1
      → Has key s.db.api_keys
      → key.id ≡ i
      → key.organisation_id ≡ o
      → Retires i (rotate_found py self now fresh key (record s { organisation = some o }))
  unfolding rotate_found
  rotate_found-Retires i o now fresh s key alone has fits home =
      raise_if_rule (Retires i) (not (is_none key.revoked_at)) Error.api_key_revoked
        (update_key key.id (revoked now)
          >> (add_key (renewal key) >> pure (renewal key, raw_of key)))
        (record s { organisation = some o }) (λ h. tt)
        (λ h.
          subst
            (λ j.
              Retires {A = ApiKey × String} j
                ((add_key (renewal key) >> pure (renewal key, raw_of key)) (after key)))
            fits
            (add_key-Retires key.id (renewal key) (raw_of key) (after key)
              (update-IsRetired o now key s.db.api_keys has home (rw fits alone))
              (λ free.
                other_id (renewal key) (revoked now key) (after key).db.api_keys
                  (Has-update_self (reached o key.id) (revoked now) key s.db.api_keys has
                    (ground (arith, home)))
                  free)))
    where
      renewal : ApiKey → ApiKey
      renewal k =
          new_key py self
            (record {
              service_account_id = k.service_account_id;
              organisation_id = k.organisation_id;
              name = append k.name " (rotated)";
              scopes = k.scopes;
              expires_at = k.expires_at;
            })
            k.workspace_id fresh

      raw_of : ApiKey → String
      raw_of k = key_text py.uuid k.organisation_id fresh.key_prefix fresh.secret

      after : ApiKey → Session
      after k = (update_key k.id (revoked now) (record s { organisation = some o })).1

  module _ (i o now : ℕ) (s t : Session) (raw : String) (required : List String) (later : ℕ)
      (used : ApiKey) (account : ServiceAccount) where
    retired_never :
        (s' : Session)
        → IsRetired i s'.db.api_keys
        → t.db ≡ s'.db
        → (authenticate_api_key py self raw required later t).0 ≡ ok (used, account)
        → used.id ≢ i
    retired_never s' retired same got =
        refused_of_IsRetired py self raw required later i t
          (authenticate_api_key py self raw required later t) (rw same retired)
          (authenticate_api_key-Verdict py self raw required later t) used account got

    -- Once `revoke_api_key` has returned for a key, of an id that no other key has, whatever
    -- authenticates later, with the rows as that call left them, is another key.
    pub revoke_api_key-final :
        (k : ApiKey) (s' : Session)
        → count (has_id i) s.db.api_keys ≤ 1
        → revoke_api_key i o now s ≡ (ok k, s')
        → t.db ≡ s'.db
        → (authenticate_api_key py self raw required later t).0 ≡ ok (used, account)
        → used.id ≢ i
    unfolding revoke_api_key
    revoke_api_key-final k s' alone done same got =
        retired_never s'
          (subst (Retires i) done (
            get_api_key-Retires i o (revoke_found now) s
              (λ key has fits home. revoke_found-Retires i o now s key alone has fits home)))
          same got

    -- Once `rotate_api_key` has returned for a key, of an id that no other key has, whatever
    -- authenticates later, with the rows as that call left them, is another key.
    pub rotate_api_key-final :
        (fresh : Fresh) (k : ApiKey) (new_raw : String) (s' : Session)
        → count (has_id i) s.db.api_keys ≤ 1
        → rotate_api_key py self i o now fresh s ≡ (ok (k, new_raw), s')
        → t.db ≡ s'.db
        → (authenticate_api_key py self raw required later t).0 ≡ ok (used, account)
        → used.id ≢ i
    unfolding rotate_api_key
    rotate_api_key-final fresh k new_raw s' alone done same got =
        retired_never s'
          (subst (Retires i) done (
            get_api_key-Retires i o (rotate_found py self now fresh) s
              (λ key has fits home. rotate_found-Retires i o now fresh s key alone has fits home)))
          same got
