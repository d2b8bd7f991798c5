-- ===== src/Auth/PreAuth/Outcome.antt =====
-- What `consume` of auth/pre_auth.py tells of the row that it consumed, and what it leaves otherwise.
use mathlib.Core.Path.{subst}
use atlascore.Base.{
  ℕ, String, ◌≡◌, refl, true, false, not, Option, none, some, arith, ltb, str_eq, is_none, ok, err,
  Result, ap, ◌∙◌, sym,
}
use atlascore.Platform.{Platform}
use atlascore.Db.Models.{PreAuthSession}
use atlascore.Db.Table.{update, exists, Has}
use atlascore.Db.Table.Rows.{one_or_none-some}
use atlascore.Db.Session.{Session, Action, pure, lift, ◌>>=◌}
use atlascore.Db.Session.Rules.{bind_rule, if_rule}
use atlascore.Auth.PreAuth.{
  PreAuthSessionService, find_session, unconsumed, consumed, claim, check_session, claim_found,
  hash, look_up, consume,
}

module _ (py : Platform) (self : PreAuthSessionService) (raw : String) (now : ℕ) where
  -- the row that the token names, neither consumed nor expired
  pub record IsOpen (s : Session) (pas : PreAuthSession) : Type 0 where
    pub stands : Has pas s.db.pre_auth_sessions
    pub hash_fits : str_eq pas.token_hash (hash py self raw) ≡ true
    pub fresh : is_none pas.consumed_at ≡ true
    pub in_time : ltb pas.expires_at now ≡ false

  pub record IsConsumed (s : Session) (p : PreAuthSession) (t : Session) : Type 0 where
    pub row : PreAuthSession
    pub open_row : IsOpen s row
    pub returned : p ≡ consumed now row
    pub after : t ≡ record s {
      db = record s.db {
        pre_auth_sessions = update (unconsumed row.id) (consumed now) s.db.pre_auth_sessions;
      };
    }

  abbrev pub Consumes : Session → Result (Option PreAuthSession) × Session → Type 0
  Consumes s (ok none, t) = t ≡ s
  Consumes s (ok (some p), t) = IsConsumed s p t
  Consumes s (err e, t) = t ≡ s

  claim_found-Consumes :
      (s : Session) (checked : Option PreAuthSession)
      → ((pas : PreAuthSession) → checked ≡ some pas → IsOpen s pas)
      → Consumes s (claim_found now checked s)
  unfolding claim_found claim
  claim_found-Consumes s none good = refl
  claim_found-Consumes s (some pas) good =
      if_rule
        (λ (r : Result PreAuthSession × Session).
          Consumes s (((λ _. r) >>= λ claimed. pure (some claimed)) s))
        (exists (unconsumed pas.id) s.db.pre_auth_sessions) _ _
        (λ there. record { row = pas; open_row = good pas refl; returned = refl; after = refl })
        (λ gone. refl)

  -- what the checks of a row tell
  checked-open :
      (s : Session) (found : Option PreAuthSession) (pas : PreAuthSession)
      → (check_session found now s).0 ≡ ok (some pas)
      → (found ≡ some pas) × (is_none pas.consumed_at ≡ true) × (ltb pas.expires_at now ≡ false)
  unfolding check_session
  checked-open s none pas h = ground (arith, h)
  checked-open s (some p) pas h = ground (arith, h)

  check_session-same :
      (s : Session) (found : Option PreAuthSession) → (check_session found now s).1 ≡ s
  unfolding check_session
  check_session-same s none = refl
  check_session-same s (some p) =
      if_rule (λ (m : Action (Option PreAuthSession)). (m s).1 ≡ s) (not (is_none p.consumed_at)) _
        _ (λ h. refl)
        (λ h.
          if_rule (λ (m : Action (Option PreAuthSession)). (m s).1 ≡ s) (ltb p.expires_at now) _ _
            (λ k. refl) (λ k. refl))

  looked_up-same :
      (s : Session) (found : Result (Option PreAuthSession))
      → ((lift found >>= λ f. check_session f now) s).1 ≡ s
  looked_up-same s (err e) = refl
  looked_up-same s (ok f) = check_session-same s f

  looked_up-open :
      (s : Session) (found : Result (Option PreAuthSession)) (pas : PreAuthSession)
      → ((lift found >>= λ f. check_session f now) s).0 ≡ ok (some pas)
      → (found ≡ ok (some pas))
        × (is_none pas.consumed_at ≡ true)
        × (ltb pas.expires_at now ≡ false)
  looked_up-open s (err e) pas h = ground (arith, h)
  looked_up-open s (ok f) pas h = let c = checked-open s f pas h in (ap ok c.0, c.1, c.2)

  pub consume-Consumes : (s : Session) → Consumes s (consume py self raw now s)
  unfolding consume look_up find_session
  consume-Consumes s =
      bind_rule (Consumes s) (look_up py self raw now) (claim_found now) s (λ e h. same)
        (λ checked h.
          subst (λ t. Consumes s (claim_found now checked t)) (sym same)
            (claim_found-Consumes s checked (λ pas there.
              let seen = looked_up-open s found pas (h ∙ ap ok there) in
              let fits = one_or_none-some _ s.db.pre_auth_sessions pas seen.0 in
              record { stands = fits.1; hash_fits = fits.0; fresh = seen.1; in_time = seen.2 })))
    where
      found : Result (Option PreAuthSession)
      found = (find_session (hash py self raw) s).0

      same : (look_up py self raw now s).1 ≡ s
      same = looked_up-same s found
