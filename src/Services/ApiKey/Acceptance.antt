-- ===== src/Services/ApiKey/Acceptance.antt =====
-- `authenticate_api_key` of services/service_account_service.py accepts every key that is entitled,
-- and so the one that `create_api_key` has just returned.
use mathlib.Core.Path.{subst}
use atlascore.Base.{
  Result, ℕ, ◌≡◌, ◌≤◌, refl, Bool, true, false, ◌&&◌, not, List, [], ◌∷◌, ◌++◌, arith, ◌==◌, String,
  Option, some, none, ok, err, Error, ap, sym, ◌∙◌, str_eq_refl, is_ok,
}
use atlascore.Platform.{Platform}
use atlascore.Db.Models.{ServiceAccount, ApiKey}
use atlascore.Db.Table.{exists, count}
use atlascore.Db.Table.Count.{count_mono, count-append_one, count-zero_of_exists, exists_of_count}
use atlascore.Db.Table.Rows.{one_or_none_of_Has, Has-append_last}
use atlascore.Db.Session.{Session, set_organisation, tenant, lift, raise_if, pure, ◌>>=◌, ◌>>◌}
use atlascore.Db.Session.Rules.{bind-ok}
use atlascore.Services.ServiceAccount.{find_account}
use atlascore.Services.ApiKey.Format.{UuidLaws, cut, extract_org_and_prefix, extract-key_text}
use atlascore.Services.ApiKey.{
  ServiceAccountService, Fresh, has_prefix, conflicts, find_key, covers, is_expired, used_key,
  used_account, touch, new_key, hash_key, verify_key, check_key, create_api_key,
  authenticate_account, authenticate_found, authenticate_api_key,
}
use atlascore.Services.ApiKey.Authentic.{IsEntitled}
use atlascore.Services.ApiKey.Creation.{IsCreated, Created, create_api_key-Created}

abbrev pub has_account_id : ℕ → ServiceAccount → Bool
has_account_id i a = a.id == i

module _ (py : Platform) (self : ServiceAccountService) (raw : String) (required : List String)
    (now : ℕ) (s : Session) (o : ℕ) (key : ApiKey) (sa : ServiceAccount)
    (e : IsEntitled py self raw required now s o key sa) where
  abbrev here : Session
  here = record s { organisation = some o }

  find_key-entitled :
      count (has_prefix key.key_prefix) s.db.api_keys ≤ 1
      → find_key key.key_prefix here ≡ (ok (some key), here)
  unfolding find_key
  find_key-entitled alone =
      ap (λ x. (x, here))
        (one_or_none_of_Has (λ k. tenant (some o) k.organisation_id && has_prefix key.key_prefix k)
          key s.db.api_keys e.key_stands (ground (arith, e.key_home, str_eq_refl key.key_prefix))
          (omega (
            arith,
            alone,
            count_mono (λ k. tenant (some o) k.organisation_id && has_prefix key.key_prefix k)
                (has_prefix key.key_prefix) s.db.api_keys (λ k h. ground arith),
          )))

  find_account-entitled :
      count (has_account_id sa.id) s.db.service_accounts ≤ 1
      → find_account key.service_account_id o here ≡ (ok (some sa), here)
  unfolding find_account
  find_account-entitled alone =
      ap (λ x. (x, here))
        (one_or_none_of_Has
          (λ a.
            tenant (some o) a.organisation_id
            && (a.id == key.service_account_id && a.organisation_id == o))
          sa s.db.service_accounts e.account_stands (ground (arith, e.account_fits, e.account_home))
          (omega (
            arith,
            alone,
            count_mono
                (λ a.
                  tenant (some o) a.organisation_id
                  && (a.id == key.service_account_id && a.organisation_id == o))
                (has_account_id sa.id) s.db.service_accounts
                (λ a h. ground (arith, e.account_fits)),
          )))

  check_key-entitled : check_key py self raw o now (some key) ≡ ok key
  unfolding check_key
  check_key-entitled = rw (e.hash_fits, e.in_time) (ground (arith, e.key_home, e.unrevoked))

  authenticate_account-entitled :
      authenticate_account required now key (some sa) here
      ≡ (ok (used_key now key, used_account now sa), (touch key sa now here).1)
  unfolding authenticate_account touch
  authenticate_account-entitled =
      bind-ok (raise_if (not sa.is_active) Error.service_account_disabled)
        (λ _.
          raise_if (not (covers required key.scopes)) Error.api_key_scope
          >> (touch key sa now >> pure (used_key now key, used_account now sa)))
        here tt here (ground (arith, e.account_active))
      ∙ bind-ok (raise_if (not (covers required key.scopes)) Error.api_key_scope)
          (λ _. touch key sa now >> pure (used_key now key, used_account now sa)) here tt here
          (ground (arith, e.scopes_cover))

  -- A key whose row and whose account's row entitle its bearer authenticates, where no other key
  -- has its prefix and no other account its account's id: the call returns the two rows with the
  -- time of their use, which it writes.
  pub authenticate_api_key-entitled :
      count (has_prefix key.key_prefix) s.db.api_keys ≤ 1
      → count (has_account_id sa.id) s.db.service_accounts ≤ 1
      → authenticate_api_key py self raw required now s
        ≡ (ok (used_key now key, used_account now sa), (touch key sa now here).1)
  unfolding authenticate_api_key set_organisation authenticate_found
  authenticate_api_key-entitled alone single =
      rw (e.routed, authenticate_api_key)
        (bind-ok (find_key key.key_prefix) (authenticate_found py self raw o required now) here
            (some key) here (find_key-entitled alone)
          ∙ bind-ok (lift (check_key py self raw o now (some key)))
              (λ k. find_account k.service_account_id o >>= authenticate_account required now k)
              here key here (ap (λ x. (x, here)) check_key-entitled)
          ∙ bind-ok (find_account key.service_account_id o) (authenticate_account required now key)
              here (some sa) here (find_account-entitled single)
          ∙ authenticate_account-entitled)

prefix-unused :
    (k : ApiKey) (rows : List ApiKey)
    → exists (conflicts k) rows ≡ false
    → count (has_prefix k.key_prefix) rows ≡ 0
unfolding conflicts
prefix-unused k rows free = omega (
  arith,
  count-zero_of_exists (conflicts k) rows free,
  count_mono (has_prefix k.key_prefix) (conflicts k) rows (λ r h. ground arith),
)

prefix-alone :
    (k : ApiKey) (rows : List ApiKey)
    → exists (conflicts k) rows ≡ false
    → count (has_prefix k.key_prefix) (rows ++ k ∷ []) ≤ 1
prefix-alone k rows free =
    let z = prefix-unused k rows free in
    count-append_one (has_prefix k.key_prefix) rows k (omega (arith, z)) (λ h. z)

module _ (py : Platform) (self : ServiceAccountService) (account_id o : ℕ) (name : String)
    (scopes : List String) (days : Option ℕ) (now : ℕ) (fresh : ℕ → Fresh) where
  refused_of_collision :
      (s : Session) (out : Result (ApiKey × String) × Session)
      → exists (has_prefix (fresh 2).key_prefix) s.db.api_keys ≡ true
      → Created py self account_id o name scopes days now fresh s out
      → is_ok out.0 ≡ false
  unfolding new_key
  refused_of_collision s (ok (k, raw), s') taken c = absurd (
      ground (
        arith,
        taken,
        exists_of_count (has_prefix (fresh 2).key_prefix) s.db.api_keys
            (prefix-unused _ s.db.api_keys c.drawn.unused),
      ))
  refused_of_collision s (err e, s') taken c = refl

  -- Where a key has the prefix that is drawn first, `create_api_key` raises, whatever it would draw
  -- next.
  pub create_api_key-collision :
      (s : Session)
      → exists (has_prefix (fresh 2).key_prefix) s.db.api_keys ≡ true
      → is_ok (create_api_key py self account_id o name scopes days now fresh s).0 ≡ false
  create_api_key-collision s taken =
      refused_of_collision s (create_api_key py self account_id o name scopes days now fresh s)
        taken (create_api_key-Created py self account_id o name scopes days now fresh s)

module _ (py : Platform) (laws : UuidLaws py.uuid) (self : ServiceAccountService) (account_id o : ℕ)
    (name : String) (scopes : List String) (days : Option ℕ) (now : ℕ) (fresh : ℕ → Fresh)
    (s s' t : Session) (k : ApiKey) (raw : String) (required : List String) (later : ℕ) where
  created-IsEntitled :
      (c : IsCreated py self account_id o name scopes days now fresh s k raw s')
      → cut (fresh 2).key_prefix ≡ none
      → t.db ≡ s'.db
      → covers required scopes ≡ true
      → is_expired k later ≡ false
      → IsEntitled py self raw required later t o k c.account
  unfolding new_key verify_key hash_key
  created-IsEntitled c hex same wanted live =
      let db : t.db ≡ record s.db { api_keys = s.db.api_keys ++ k ∷ [] } =
        same
        ∙ ap (λ x. x.db) c.drawn.after
        ∙ ap (λ x. record s.db { api_keys = s.db.api_keys ++ x ∷ [] }) (sym c.drawn.key_new) in
      record {
        routed =
            ap (extract_org_and_prefix py.uuid) c.drawn.raw_new
            ∙ extract-key_text py.uuid laws o (fresh 2).key_prefix (fresh 2).secret hex
            ∙ ap (λ x. some (o, x.key_prefix)) (sym c.drawn.key_new);
        key_stands = rw db (Has-append_last s.db.api_keys k);
        key_home = ap (λ x. x.organisation_id) c.drawn.key_new;
        hash_fits = rw (c.drawn.raw_new, c.drawn.key_new) (str_eq_refl _);
        unrevoked = ap (λ x. x.revoked_at) c.drawn.key_new;
        in_time = live;
        account_stands = rw db c.stands;
        account_fits = c.account_fits ∙ sym (ap (λ x. x.service_account_id) c.drawn.key_new);
        account_home = c.account_home;
        account_active = c.active;
        scopes_cover = rw (ap (λ x. x.scopes) c.drawn.key_new) wanted;
      }

  -- A key that `create_api_key` returned authenticates afterwards, on the committed rows as on the
  -- pending ones, where printed UUIDs parse back and have no underscore, the prefix drawn has none
  -- either, no two service accounts had one id, the scopes asked for are among the key's, and the
  -- key is not expired: the call returns the key with the time of its use, and its account.
  pub create_then_authenticate :
      cut (fresh 2).key_prefix ≡ none
      → ((i : ℕ) → count (has_account_id i) s.db.service_accounts ≤ 1)
      → create_api_key py self account_id o name scopes days now fresh s ≡ (ok (k, raw), s')
      → t.db ≡ s'.db
      → covers required scopes ≡ true
      → is_expired k later ≡ false
      → (a : ServiceAccount) × (a.id ≡ account_id)
        × ((authenticate_api_key py self raw required later t).0 ≡ ok (used_key later k, a))
  create_then_authenticate hex single done same wanted live =
      let c : IsCreated py self account_id o name scopes days now fresh s k raw s' =
        subst (Created py self account_id o name scopes days now fresh s) done
          (create_api_key-Created py self account_id o name scopes days now fresh s) in
      let db : t.db ≡ record s.db { api_keys = s.db.api_keys ++ k ∷ [] } =
        same
        ∙ ap (λ x. x.db) c.drawn.after
        ∙ ap (λ x. record s.db { api_keys = s.db.api_keys ++ x ∷ [] }) (sym c.drawn.key_new) in
      let unused : exists (conflicts k) s.db.api_keys ≡ false =
        ap (λ x. exists (conflicts x) s.db.api_keys) c.drawn.key_new ∙ c.drawn.unused in
      (
        used_account later c.account,
        c.account_fits,
        ap (λ x. x.0)
            (authenticate_api_key-entitled py self raw required later t o k c.account
              (created-IsEntitled c hex same wanted live)
              (rw db (prefix-alone k s.db.api_keys unused)) (rw db (single c.account.id))),
      )
