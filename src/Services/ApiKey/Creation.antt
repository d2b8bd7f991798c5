-- ===== src/Services/ApiKey/Creation.antt =====
-- `create_api_key` of services/service_account_service.py: what a success leaves, that it comes of
-- the first values drawn, and that the key then authenticates.
use atlascore.Base.{
  ℕ, zero, suc, ◌+◌, ◌*◌, ◌≡◌, refl, Bool, true, false, not, List, [], ◌∷◌, ◌++◌, arith, String,
  Option, some, none, ok, err, Error, Result, if◌then◌else◌, Bool-cases, inl, inr, ==_refl,
}
use atlascore.Platform.{Platform, day}
use atlascore.Db.Models.{ServiceAccount, ApiKey}
use atlascore.Db.Table.{exists, Has}
use atlascore.Db.Table.Rows.{one_or_none-some}
use atlascore.Db.Session.{
  Session, Action, insert, set_organisation, lift, rollback, pure, ◌>>=◌, ◌>>◌,
}
use atlascore.Db.Session.Rules.{
  raise_if_rule, insert-ok, insert-conflict, bind-ok, bind-err, handle-ok, handle-err,
}
use atlascore.Services.ServiceAccount.{found_or, find_account, get_service_account}
use atlascore.Services.ApiKey.Format.{key_text}
use atlascore.Services.ApiKey.{
  ServiceAccountService, Fresh, Request, conflicts, add_key, is_prefix_collision, new_key, retry_on,
  attempt, attempts, create_found, create_api_key,
}

module _ (py : Platform) (self : ServiceAccountService) (r : Request) (w : Option ℕ) where
  -- Without an organisation, as a rollback leaves the session, no turn inserts a key.
  attempts-astray :
      (n : ℕ) (fresh : ℕ → Fresh) (s : Session)
      → attempts py self n fresh r w (rollback s) ≡ (err Error.rls_violation, rollback s)
  unfolding attempts attempt add_key rollback is_prefix_collision insert
  attempts-astray zero fresh s = refl
  attempts-astray (suc n) fresh s = refl

  module _ (fresh : Fresh) (s : Session) where
    abbrev drawn : ApiKey
    drawn = new_key py self r w fresh

    abbrev text_drawn : String
    text_drawn = key_text py.uuid r.organisation_id fresh.key_prefix fresh.secret

    add_key-free :
        s.organisation ≡ some r.organisation_id
        → exists (conflicts drawn) s.db.api_keys ≡ false
        → add_key drawn s
          ≡ (ok tt, record s { db = record s.db { api_keys = s.db.api_keys ++ drawn ∷ [] } })
    unfolding add_key
    add_key-free here free =
        insert-ok _ _ _ s (unfold new_key in rw here (==_refl r.organisation_id)) free

    add_key-taken :
        s.organisation ≡ some r.organisation_id
        → exists (conflicts drawn) s.db.api_keys ≡ true
        → add_key drawn s ≡ (err Error.integrity_error, rollback s)
    unfolding add_key
    add_key-taken here taken =
        insert-conflict _ _ _ s (unfold new_key in rw here (==_refl r.organisation_id)) taken

    attempt-free :
        (retry : Action (ApiKey × String))
        → s.organisation ≡ some r.organisation_id
        → exists (conflicts drawn) s.db.api_keys ≡ false
        → attempt py self r w fresh retry s ≡ (
          ok (drawn, text_drawn),
          record s { db = record s.db { api_keys = s.db.api_keys ++ drawn ∷ [] } },
        )
    unfolding attempt
    attempt-free retry here free =
        handle-ok (add_key drawn >> pure (drawn, text_drawn)) (retry_on drawn s.db.api_keys retry) s
          (drawn, text_drawn) _
          (bind-ok (add_key drawn) (λ _. pure (drawn, text_drawn)) s tt _ (add_key-free here free))

    attempt-taken :
        (retry : Action (ApiKey × String))
        → s.organisation ≡ some r.organisation_id
        → exists (conflicts drawn) s.db.api_keys ≡ true
        → attempt py self r w fresh retry s
          ≡ retry_on drawn s.db.api_keys retry Error.integrity_error (rollback s)
    unfolding attempt
    attempt-taken retry here taken =
        handle-err (add_key drawn >> pure (drawn, text_drawn)) (retry_on drawn s.db.api_keys retry)
          s Error.integrity_error (rollback s)
          (bind-err (add_key drawn) (λ _. pure (drawn, text_drawn)) s Error.integrity_error
            (rollback s) (add_key-taken here taken))

  -- What the outcome of the turns tells: a success, in the state that it leaves, of the first draw.
  pub record IsDrawn (fresh : Fresh) (s : Session) (k : ApiKey) (raw : String) (s' : Session)
      : Type 0 where
    pub key_new : k ≡ new_key py self r w fresh
    pub raw_new : raw ≡ key_text py.uuid r.organisation_id fresh.key_prefix fresh.secret
    pub unused : exists (conflicts (new_key py self r w fresh)) s.db.api_keys ≡ false
    pub after : s' ≡ record s {
      db = record s.db { api_keys = s.db.api_keys ++ new_key py self r w fresh ∷ [] };
    }

  abbrev pub Drawn : Fresh → Session → Result (ApiKey × String) × Session → Type 0
  Drawn fresh s (ok (k, raw), s') = IsDrawn fresh s k raw s'
  Drawn fresh s (err e, s') = Unit

  retry_on-Drawn :
      (n : ℕ) (b : Bool) (fresh : ℕ → Fresh) (first : Fresh) (s : Session)
      → Drawn first s (
          if b
          then attempts py self n fresh r w (rollback s)
          else (err Error.integrity_error, rollback s))
  retry_on-Drawn n true fresh first s = rw (attempts-astray n fresh s) tt
  retry_on-Drawn n false fresh first s = tt

  pub attempts-Drawn :
      (n : ℕ) (fresh : ℕ → Fresh) (s : Session)
      → s.organisation ≡ some r.organisation_id
      → Drawn (fresh (suc n)) s (attempts py self (suc n) fresh r w s)
  unfolding attempts
  attempts-Drawn n fresh s here =
      elim (Bool-cases (exists (conflicts (new_key py self r w (fresh (suc n)))) s.db.api_keys)) [
        | inl taken ↦
            rw (attempt-taken (fresh (suc n)) s (attempts py self n fresh r w) here taken)
              (retry_on-Drawn n _ fresh (fresh (suc n)) s)
        | inr free ↦
            rw (attempt-free (fresh (suc n)) s (attempts py self n fresh r w) here free)
              (record { key_new = refl; raw_new = refl; unused = free; after = refl })
      ]

module _ (py : Platform) (self : ServiceAccountService) (account_id o : ℕ) (name : String)
    (scopes : List String) (days : Option ℕ) (now : ℕ) (fresh : ℕ → Fresh) where
  abbrev pub request : Request
  request = record {
    service_account_id = account_id;
    organisation_id = o;
    name = name;
    scopes = scopes;
    expires_at = elim days [ none ↦ none | some d ↦ some (now + d * day) ];
  }

  -- A key is created for an active account of the organisation, from the first values drawn.
  pub record IsCreated (s : Session) (k : ApiKey) (raw : String) (s' : Session) : Type 0 where
    pub account : ServiceAccount
    pub stands : Has account s.db.service_accounts
    pub account_fits : account.id ≡ account_id
    pub account_home : account.organisation_id ≡ o
    pub active : account.is_active ≡ true
    pub drawn :
        IsDrawn py self request account.workspace_id
          (fresh 2)
          (record s { organisation = some o })
          k
          raw
          s'

  abbrev pub Created : Session → Result (ApiKey × String) × Session → Type 0
  Created s (ok (k, raw), s') = IsCreated s k raw s'
  Created s (err e, s') = Unit

  found-Created :
      (s : Session) (sa : ServiceAccount) (out : Result (ApiKey × String) × Session)
      → Has sa s.db.service_accounts
      → sa.id ≡ account_id
      → sa.organisation_id ≡ o
      → sa.is_active ≡ true
      → Drawn py self request sa.workspace_id (fresh 2) (record s { organisation = some o }) out
      → Created s out
  found-Created s sa (ok (k, raw), s') stands fits home on d = record {
    account = sa;
    stands = stands;
    account_fits = fits;
    account_home = home;
    active = on;
    drawn = d;
  }
  found-Created s sa (err e, s') stands fits home on d = tt

  create_found-Created :
      (s : Session) (sa : ServiceAccount)
      → Has sa s.db.service_accounts
      → sa.id ≡ account_id
      → sa.organisation_id ≡ o
      → Created s (create_found py self fresh request sa (record s { organisation = some o }))
  unfolding create_found
  create_found-Created s sa stands fits home =
      raise_if_rule (Created s) (not sa.is_active) Error.service_account_disabled
        (attempts py self 2 fresh request sa.workspace_id) (record s { organisation = some o })
        (λ off. tt)
        (λ on.
          found-Created s sa
            (attempts py self 2 fresh request sa.workspace_id (record s { organisation = some o }))
            stands fits home (ground (arith, on))
            (attempts-Drawn py self request sa.workspace_id 1 fresh
              (record s { organisation = some o }) refl))

  account_rule :
      (s : Session) (found : Result (Option ServiceAccount))
      → ((sa : ServiceAccount)
          → found ≡ ok (some sa)
          → Created s (create_found py self fresh request sa (record s { organisation = some o })))
      → Created s (
          ((lift found >>= found_or Error.service_account_not_found)
              >>= create_found py self fresh request)
            (record s { organisation = some o }))
  account_rule s (err e) goes = tt
  account_rule s (ok none) goes = tt
  account_rule s (ok (some sa)) goes = goes sa refl

  pub create_api_key-Created :
      (s : Session) → Created s (create_api_key py self account_id o name scopes days now fresh s)
  unfolding create_api_key get_service_account find_account set_organisation
  create_api_key-Created s = account_rule s _ (λ sa h.
      let fits = one_or_none-some _ s.db.service_accounts sa h in
      create_found-Created s sa fits.1 (ground (arith, fits.0)) (ground (arith, fits.0)))
