-- ===== src/Services/Auth/Selection.antt =====
-- `select_organisation` of services/auth_service.py: who gets tokens, and what a failure leaves.
use mathlib.Core.Path.{subst}
use atlascore.Base.{
  ℕ, String, ◌≡◌, refl, true, ◌&&◌, List, [], ◌∷◌, Option, none, some, arith, ◌==◌, ok, err, Error,
  Result, ap, sym,
}
use atlascore.Platform.{Platform}
use atlascore.Db.Models.{
  User, Organisation, OrganisationMembership, PreAuthSession, RefreshToken, Value,
}
use atlascore.Db.Table.{select, update, scalar_one_or_none, Has}
use atlascore.Db.Table.Rows.{one_or_none-some}
use atlascore.Db.Session.{
  Session, Action, commit, rollback, pure, lift, handle, tenant, set_organisation, set_user, ◌>>=◌,
  ◌>>◌,
}
use atlascore.Db.Session.Rules.{insert_rule}
use atlascore.Auth.PreAuth.{unconsumed, consumed, consume}
use atlascore.Auth.PreAuth.Outcome.{IsOpen, Consumes, consume-Consumes}
use atlascore.Auth.Refresh.{Fresh, add_token, new_token, create as create_refresh}
use atlascore.Auth.RoutingToken.{routed}
use atlascore.Services.Audit.{Origin, emit_transactional, emit_independent}
use atlascore.Services.Org.{readable}
use atlascore.Services.Auth.{
  AuthService, found_or_refused, find_user, find_organisation, find_membership,
}
use atlascore.Services.Auth.Login.{
  Selected, on_pre_auth_error, grant, select_membership, select_in, select_for, select_organisation,
}

module _ (py : Platform) (self : AuthService) (raw : String) (organisation_id : ℕ) (origin : Origin)
    (consumed_at now : ℕ) (fresh : Fresh) where
  -- The pre-authentication session of the token names the user, who is active, as is the
  -- organisation asked for; the user is its member; and the token issued is of these two.
  pub record IsGranted (s : Session) (sel : Selected) : Type 0 where
    pub pas : PreAuthSession
    pub open_row : IsOpen py self.pre_auth raw consumed_at s pas
    pub user_stands : Has sel.user s.db.users
    pub user_is : sel.user.id ≡ pas.user_id
    pub user_active : sel.user.is_active ≡ true
    pub organisation_stands : Has sel.organisation s.db.organisations
    pub organisation_is : sel.organisation.id ≡ organisation_id
    pub organisation_active : sel.organisation.is_active ≡ true
    pub membership_stands : Has sel.membership s.db.org_memberships
    pub membership_user : sel.membership.user_id ≡ pas.user_id
    pub membership_home : sel.membership.organisation_id ≡ organisation_id
    pub token_user : sel.refresh_row.user_id ≡ pas.user_id
    pub token_home : sel.refresh_row.organisation_id ≡ organisation_id

  -- A success is granted. After a failure the committed refresh tokens and pre-authentication
  -- sessions are as before.
  abbrev pub Verdict : Session → Result Selected × Session → Type 0
  Verdict s (ok sel, t) = IsGranted s sel
  Verdict s (err e, t) =
      (t.committed.refresh_tokens ≡ s.committed.refresh_tokens)
      × (t.committed.pre_auth_sessions ≡ s.committed.pre_auth_sessions)

  found_rule :
      {A : Type 0} (Q : Result Selected × Session → Type 0) (r : Result (Option A))
      (f : A → Action Selected) (s : Session)
      → ((e : Error) → Q (err e, s))
      → ((a : A) → r ≡ ok (some a) → Q (f a s))
      → Q (((lift r >>= found_or_refused) >>= f) s)
  found_rule Q (err e) f s fails goes = fails e
  found_rule Q (ok none) f s fails goes = fails Error.org_selection_error
  found_rule Q (ok (some a)) f s fails goes = goes a refl

  abbrev Issues : ℕ → Session → Result (String × RefreshToken) × Session → Type 0
  Issues user_id s (ok issued, t) =
      (issued.1.user_id ≡ user_id) × (issued.1.organisation_id ≡ organisation_id)
  Issues user_id s (err e, t) = t.committed ≡ s.committed

  create-Issues :
      (user_id : ℕ) (s : Session)
      → Issues user_id s
          (create_refresh py self.refresh user_id organisation_id none origin.client_ip now fresh s)
  unfolding create_refresh add_token set_organisation rollback new_token
  create-Issues user_id s =
      insert_rule
        (λ (out : Result (Unit {0}) × Session). Issues user_id s (
          ((λ _. out)
              >> pure (
                routed py.uuid organisation_id fresh.secret,
                new_token py self.refresh user_id organisation_id fresh.family origin.client_ip now
                    fresh,
              ))
            s))
        _ _ _ (record s { organisation = some organisation_id }) (λ h. refl) (λ h k. refl)
        (λ h k. (refl, refl))

  module _ (s : Session) (pas : PreAuthSession)
      (open_row : IsOpen py self.pre_auth raw consumed_at s pas) (pre : List PreAuthSession) where
    -- the session once the pre-authentication session is consumed, in the context asked for
    abbrev within : Session
    within = record s {
      organisation = some organisation_id;
      user = some pas.user_id;
      db = record s.db { pre_auth_sessions = pre };
    }

    issued-Verdict :
        (user : User) (organisation : Organisation) (membership : OrganisationMembership)
        (out : Result (String × RefreshToken) × Session)
        → ((raw_refresh : String) (row : RefreshToken)
            → row.user_id ≡ pas.user_id
            → row.organisation_id ≡ organisation_id
            → IsGranted s (record {
              user = user;
              organisation = organisation;
              membership = membership;
              raw_refresh = raw_refresh;
              refresh_row = row;
            }))
        → Issues pas.user_id within out
        → Verdict s (
            ((λ _. out) >>= λ issued. (do
              emit_transactional py "org.organisation_selected" organisation_id
                  (some pas.user_id)
                  (("org_slug", Value.text organisation.slug) ∷ [])
                  origin
                  "success"
              commit
              pure (record {
                user = user;
                organisation = organisation;
                membership = membership;
                raw_refresh = issued.0;
                refresh_row = issued.1;
              })))
              within)
    unfolding emit_transactional commit
    issued-Verdict user organisation membership (ok issued, t) good v =
        good issued.0 issued.1 v.0 v.1
    issued-Verdict user organisation membership (err e, t) good v =
        (ap (λ c. c.refresh_tokens) v, ap (λ c. c.pre_auth_sessions) v)

    member-Verdict :
        (user : User) (organisation : Organisation) (membership : OrganisationMembership)
        → Has user s.db.users
        → (user.id == pas.user_id && user.is_active) ≡ true
        → Has organisation s.db.organisations
        → (organisation.id == organisation_id && organisation.is_active) ≡ true
        → Has membership s.db.org_memberships
        → (membership.user_id == pas.user_id && membership.organisation_id == organisation_id)
          ≡ true
        → Verdict s (
            grant py self pas.user_id organisation_id origin now fresh user organisation membership
              within)
    unfolding grant
    member-Verdict user organisation membership u u' o o' m m' =
        issued-Verdict user organisation membership
          (create_refresh py self.refresh pas.user_id organisation_id none origin.client_ip now
            fresh within)
          (λ raw_refresh row a b. record {
            pas = pas;
            open_row = open_row;
            user_stands = u;
            user_is = ground (arith, u');
            user_active = ground (arith, u');
            organisation_stands = o;
            organisation_is = ground (arith, o');
            organisation_active = ground (arith, o');
            membership_stands = m;
            membership_user = ground (arith, m');
            membership_home = ground (arith, m');
            token_user = a;
            token_home = b;
          })
          (create-Issues pas.user_id within)

    select_in-Verdict :
        (user : User)
        → Has user s.db.users
        → (user.id == pas.user_id && user.is_active) ≡ true
        → Verdict s (select_in py self pas.user_id organisation_id origin now fresh user within)
    unfolding select_in select_membership find_organisation find_membership
    select_in-Verdict user u u' =
        found_rule (Verdict s)
          (scalar_one_or_none (
            select
              (λ o. tenant (some organisation_id) o.id && (o.id == organisation_id && o.is_active))
              s.db.organisations))
          (select_membership py self pas.user_id organisation_id origin now fresh user) within
          (λ e. (refl, refl))
          (λ organisation o.
            found_rule (Verdict s)
              (scalar_one_or_none (
                select
                  (λ m.
                    readable within m
                    && (m.user_id == pas.user_id && m.organisation_id == organisation_id))
                  s.db.org_memberships))
              (grant py self pas.user_id organisation_id origin now fresh user organisation) within
              (λ e. (refl, refl))
              (λ membership m.
                let fo = one_or_none-some _ s.db.organisations organisation o in
                let fm = one_or_none-some _ s.db.org_memberships membership m in
                member-Verdict user organisation membership u u' fo.1 (ground (arith, fo.0)) fm.1
                  (ground (arith, fm.0))))

    select_for-Verdict : Verdict s (
        select_for py self organisation_id origin now fresh
          (record pas { consumed_at = some consumed_at })
          (record s { db = record s.db { pre_auth_sessions = pre } }))
    unfolding select_for set_organisation set_user find_user
    select_for-Verdict =
        found_rule (Verdict s)
          (scalar_one_or_none (select (λ u. u.id == pas.user_id && u.is_active) s.db.users))
          (select_in py self pas.user_id organisation_id origin now fresh) within
          (λ e. (refl, refl))
          (λ user u.
            let fu = one_or_none-some _ s.db.users user u in select_in-Verdict user fu.1 fu.0)

  handled_rule :
      (s : Session) (out : Result (Option PreAuthSession) × Session)
      → Consumes py self.pre_auth raw consumed_at s out
      → s.db.refresh_tokens ≡ s.committed.refresh_tokens
      → s.db.pre_auth_sessions ≡ s.committed.pre_auth_sessions
      → Verdict s (
          ((handle (λ _. out) (on_pre_auth_error py self origin) >>= found_or_refused)
              >>= select_for py self organisation_id origin now fresh)
            s)
  unfolding on_pre_auth_error emit_independent commit
  handled_rule s (ok none, t) c clean clean' = rw c (refl, refl)
  handled_rule s (ok (some p), t) c clean clean' =
      subst (λ x. Verdict s (select_for py self organisation_id origin now fresh x t))
        (sym c.returned)
        (subst
          (λ y.
            Verdict s
              (select_for py self organisation_id origin now fresh (consumed consumed_at c.row) y))
          (sym c.after)
          (select_for-Verdict s c.row c.open_row
            (update (unconsumed c.row.id) (consumed consumed_at) s.db.pre_auth_sessions)))
  handled_rule s (err (Error.pre_auth_session_reuse i u), t) c clean clean' = rw c (clean, clean')
  handled_rule s (err e, t) c clean clean' = rw c (refl, refl)

  -- In a session whose refresh tokens and pre-authentication sessions are as they are committed, the
  -- second step of a login returns tokens only for an active user whom the pre-authentication
  -- session of the presented token names, that session neither consumed nor expired, and for an
  -- active organisation that the user is a member of: the one asked for. After a failure, the
  -- committed refresh tokens and pre-authentication sessions are as before.
  pub select_organisation-Verdict :
      (s : Session)
      → s.db.refresh_tokens ≡ s.committed.refresh_tokens
      → s.db.pre_auth_sessions ≡ s.committed.pre_auth_sessions
      → Verdict s (select_organisation py self raw organisation_id origin consumed_at now fresh s)
  unfolding select_organisation
  select_organisation-Verdict s clean clean' =
      handled_rule s (consume py self.pre_auth raw consumed_at s)
        (consume-Consumes py self.pre_auth raw consumed_at s) clean clean'
