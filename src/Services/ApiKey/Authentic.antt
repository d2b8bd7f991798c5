-- ===== src/Services/ApiKey/Authentic.antt =====
-- What `authenticate_api_key` of services/service_account_service.py accepts and what it leaves.
use atlascore.Base.{
  ℕ, ◌≡◌, refl, true, false, not, List, arith, String, Option, some, none, ok, err, Error, Result,
  inl, inr, ap, sym, ◌∙◌, str_eq_iff, ◌⊎◌,
}
use atlascore.Platform.{Platform}
use atlascore.Db.Models.{ServiceAccount, ApiKey}
use atlascore.Db.Table.{Has}
use atlascore.Db.Table.Rows.{one_or_none-some}
use atlascore.Db.Session.{Session, set_organisation, lift, raise_if, pure, ◌>>=◌, ◌>>◌}
use atlascore.Db.Session.Rules.{bind_rule, raise_if_rule}
use atlascore.Services.ServiceAccount.{find_account}
use atlascore.Services.ApiKey.Format.{extract_org_and_prefix}
use atlascore.Services.ApiKey.{
  ServiceAccountService, find_key, covers, is_expired, used_key, used_account, touch, verify_key,
  check_key, authenticate_account, authenticate_found, authenticate_api_key,
}

check_key_sound :
    (py : Platform) (self : ServiceAccountService) (raw : String) (now o : ℕ)
    (found : Option ApiKey) (key : ApiKey)
    → check_key py self raw o now found ≡ ok key
    → (found ≡ some key)
      × (key.organisation_id ≡ o)
      × (verify_key py self raw key.secret_hash ≡ true)
      × (key.revoked_at ≡ none)
      × (is_expired key now ≡ false)
unfolding check_key
check_key_sound py self raw now o none key h = ground arith
check_key_sound py self raw now o (some k) key h = ground arith

module _ (py : Platform) (self : ServiceAccountService) (raw : String) (required : List String)
    (now : ℕ) where
  -- The key's row and its account's, as they stand, entitle the bearer of the raw key.
  pub record IsEntitled (s : Session) (o : ℕ) (key : ApiKey) (sa : ServiceAccount) : Type 0 where
    pub routed : extract_org_and_prefix py.uuid raw ≡ some (o, key.key_prefix)
    pub key_stands : Has key s.db.api_keys
    pub key_home : key.organisation_id ≡ o
    pub hash_fits : verify_key py self raw key.secret_hash ≡ true
    pub unrevoked : key.revoked_at ≡ none
    pub in_time : is_expired key now ≡ false
    pub account_stands : Has sa s.db.service_accounts
    pub account_fits : sa.id ≡ key.service_account_id
    pub account_home : sa.organisation_id ≡ o
    pub account_active : sa.is_active ≡ true
    pub scopes_cover : covers required key.scopes ≡ true

  -- What is returned are the entitling rows with their use noted, and nothing but their use is
  -- written, in a session of their organisation.
  pub record IsAccepted (s : Session) (k : ApiKey) (a : ServiceAccount) (s' : Session)
      : Type 0 where
    pub organisation : ℕ
    pub key : ApiKey
    pub account : ServiceAccount
    pub entitled : IsEntitled s organisation key account
    pub key_used : k ≡ used_key now key
    pub account_used : a ≡ used_account now account
    pub noted : s' ≡ (touch key account now (record s { organisation = some organisation })).1

  abbrev pub Verdict : Session → Result (ApiKey × ServiceAccount) × Session → Type 0
  Verdict s (ok (k, a), s') = IsAccepted s k a s'
  Verdict s (err e, s') = (s'.db ≡ s.db) × (s'.committed ≡ s.committed)

  authenticate_account-Verdict :
      (s : Session) (o : ℕ) (key : ApiKey) (found : Option ServiceAccount)
      → ((sa : ServiceAccount)
          → found ≡ some sa
          → sa.is_active ≡ true
          → covers required key.scopes ≡ true
          → IsEntitled s o key sa)
      → Verdict s (authenticate_account required now key found (record s { organisation = some o }))
  unfolding authenticate_account touch
  authenticate_account-Verdict s o key none e = (refl, refl)
  authenticate_account-Verdict s o key (some sa) e =
      raise_if_rule (Verdict s) (not sa.is_active) Error.service_account_disabled
        (raise_if (not (covers required key.scopes)) Error.api_key_scope
          >> (touch key sa now >> pure (used_key now key, used_account now sa)))
        here (λ off. (refl, refl))
        (λ on.
          raise_if_rule (Verdict s) (not (covers required key.scopes)) Error.api_key_scope
            (touch key sa now >> pure (used_key now key, used_account now sa)) here
            (λ short. (refl, refl))
            (λ all. record {
              organisation = o;
              key = key;
              account = sa;
              entitled = e sa refl (ground (arith, on)) (ground (arith, all));
              key_used = refl;
              account_used = refl;
              noted = refl;
            }))
    where
      here : Session
      here = record s { organisation = some o }

  authenticate_found-Verdict :
      (s : Session) (o : ℕ) (prefix : String) (found : Option ApiKey)
      → extract_org_and_prefix py.uuid raw ≡ some (o, prefix)
      → ((key : ApiKey) → found ≡ some key → (key.key_prefix ≡ prefix) × Has key s.db.api_keys)
      → Verdict s
          (authenticate_found py self raw o required now found (record s { organisation = some o }))
  unfolding authenticate_found find_account
  authenticate_found-Verdict s o prefix found parsed stands =
      bind_rule (Verdict s) (lift (check_key py self raw o now found))
        (λ key. find_account key.service_account_id o >>= authenticate_account required now key)
        (record s { organisation = some o }) (λ e h. (refl, refl))
        (λ key h.
          bind_rule (Verdict s) (find_account key.service_account_id o)
            (authenticate_account required now key) (record s { organisation = some o })
            (λ e k. (refl, refl))
            (λ account k. authenticate_account-Verdict s o key account (λ sa same on all.
              let checked = check_key_sound py self raw now o found key h in
              let row = stands key checked.0 in
              let fits = one_or_none-some _ s.db.service_accounts sa (k ∙ ap ok same) in
              record {
                routed = parsed ∙ ap (λ p. some (o, p)) (sym row.0);
                key_stands = row.1;
                key_home = checked.1;
                hash_fits = checked.2;
                unrevoked = checked.3;
                in_time = checked.4;
                account_stands = fits.1;
                account_fits = ground (arith, fits.0);
                account_home = ground (arith, fits.0);
                account_active = on;
                scopes_cover = all;
              })))

  find_key-stands :
      (o : ℕ) (prefix : String) (s : Session) (key : ApiKey)
      → (find_key prefix (record s { organisation = some o })).0 ≡ ok (some key)
      → (key.key_prefix ≡ prefix) × Has key s.db.api_keys
  unfolding find_key
  find_key-stands o prefix s key h =
      let found = one_or_none-some _ s.db.api_keys key h in
      (ground (arith, found.0, str_eq_iff key.key_prefix prefix), found.1)

  -- A key authenticates only with a row that stands and is its: the text leads to the row's
  -- organisation and prefix, its hash is the row's, and the row is neither revoked nor expired, its
  -- service account stands in the same organisation and is active, and its scopes cover those that
  -- are required. What is returned is these two rows, with the time of their use, and nothing else
  -- is written. Every other call raises and writes nothing.
  pub authenticate_api_key-Verdict :
      (s : Session) → Verdict s (authenticate_api_key py self raw required now s)
  unfolding authenticate_api_key set_organisation find_key
  authenticate_api_key-Verdict s = elim (cases (extract_org_and_prefix py.uuid raw)) [
    | inl none_there ↦ rw (none_there, authenticate_api_key) (refl, refl)
    | inr (o, prefix, there) ↦
        rw (there, authenticate_api_key)
          (bind_rule (Verdict s) (find_key prefix)
            (λ found. authenticate_found py self raw o required now found)
            (record s { organisation = some o }) (λ e h. (refl, refl))
            (λ found h.
              authenticate_found-Verdict s o prefix found there
                (λ key same. find_key-stands o prefix s key (h ∙ ap ok same))))
  ]
    where
      cases : (r : Option (ℕ × String)) → (r ≡ none) ⊎ ((o : ℕ) × (p : String) × (r ≡ some (o, p)))
      cases none = inl refl
      cases (some (o, p)) = inr (o, p, refl)
