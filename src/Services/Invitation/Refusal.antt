-- ===== src/Services/Invitation/Refusal.antt =====
-- The guards of `accept` in services/invitation_service.py.
use atlascore.Base.{
  ℕ, ◌≡◌, refl, Bool, true, false, ◌&&◌, not, List, [], ◌∷◌, arith, String, Option, some, inl, inr,
  ok, err, Error, Bool-cases, Result, is_ok, is_none, str_eq, ltb, opt_eq, ap, ◌∙◌,
}
use atlascore.Platform.{Platform}
use atlascore.Db.Models.{Invitation}
use atlascore.Db.Table.{select, scalar_one_or_none}
use atlascore.Db.Session.{Session, ◌>>=◌, ◌>>◌, Action, raise_if, set_organisation}
use atlascore.Db.Session.Rules.{bind-ok}
use atlascore.Auth.RoutingToken.{extract_organisation_hint}
use atlascore.Services.Audit.{emit_tenant_independent}
use atlascore.Services.Org.{found_or}
use atlascore.Services.Invitation.{
  InvitationService, Acceptance, find_invitation, refuse_expired, check_invitation, accept_checked,
  accept_found, accept, accept_hinted, hash_token,
}

module _ (py : Platform) (self : InvitationService) where
  -- the rows that the query of `accept` returns for a token
  abbrev pub tokens : String → ℕ → List Invitation → List Invitation
  tokens raw o rows =
      select
        (λ i. opt_eq (some o) i.organisation_id && str_eq i.token_hash (hash_token py self raw))
        rows

  -- The token is of the organisation, and the invitation is the one that it finds.
  pub record Presents (raw : String) (o : ℕ) (i : Invitation) (s : Session) : Type 0 where
    pub routed_to : extract_organisation_hint py.uuid raw ≡ some o
    pub alone : tokens raw o s.db.invitations ≡ i ∷ []

-- The guards of `accept`, as a condition.
abbrev pub is_acceptable : Platform → Invitation → Acceptance → Bool
is_acceptable py i a =
    not (ltb i.expires_at a.now)
    && (is_none i.revoked_at
        && (is_none i.accepted_at
            && str_eq (py.lower i.invited_email) (py.strip (py.lower a.email))))

abbrev pub of_organisation : ℕ → Session → Session
of_organisation o s = record s { organisation = some o }

module _ (py : Platform) (self : InvitationService) where
  found-once :
      (raw : String) (o : ℕ) (i : Invitation) (s : Session)
      → Presents py self raw o i s
      → find_invitation (λ r. str_eq r.token_hash (hash_token py self raw)) (of_organisation o s)
        ≡ (ok (some i), of_organisation o s)
  unfolding find_invitation scalar_one_or_none
  found-once raw o i s p =
      ap (λ (rows : List Invitation). (scalar_one_or_none rows, of_organisation o s)) p.alone

  pub accept-found :
      (raw : String) (o : ℕ) (i : Invitation) (a : Acceptance) (s : Session)
      → Presents py self raw o i s
      → accept py self raw a s ≡ accept_found py a i (of_organisation o s)
  unfolding accept accept_hinted set_organisation
  accept-found raw o i a s p =
      ap (λ (h : Option ℕ). accept_hinted py self raw a h s) p.routed_to
      ∙ bind-ok (find_invitation (λ r. str_eq r.token_hash (hash_token py self raw)))
          (λ found. found_or Error.invitation_not_found found >>= accept_found py a)
          (of_organisation o s) (some i) (of_organisation o s) (found-once raw o i s p)

-- A refusal: an error, and the tables of invitations and of memberships as they were.
pub record IsRefused (s : Session) {A : Type 0} (r : Result A × Session) : Type 0 where
  pub raises : is_ok r.0 ≡ false
  pub invitations : r.1.db.invitations ≡ s.db.invitations
  pub org_memberships : r.1.db.org_memberships ≡ s.db.org_memberships
  pub workspace_memberships : r.1.db.workspace_memberships ≡ s.db.workspace_memberships

module _ (s : Session) {A B : Type 0} (f : A → Action B) where
  IsRefused-continue :
      (r : Result A) (s' : Session) → IsRefused s (r, s') → IsRefused s (((λ _. (r, s')) >>= f) s')
  IsRefused-continue (ok a) s' h = absurd (ground (arith, h.raises))
  IsRefused-continue (err e) s' h = record {
    raises = refl;
    invitations = h.invitations;
    org_memberships = h.org_memberships;
    workspace_memberships = h.workspace_memberships;
  }

module _ (py : Platform) (i : Invitation) (a : Acceptance) where
  expired-refuses :
      (s : Session) → ltb i.expires_at a.now ≡ true → IsRefused s (refuse_expired py i a s)
  unfolding refuse_expired emit_tenant_independent
  expired-refuses s h = rw h (elim (Bool-cases a.audited) [
    | inl e ↦ rw e (record {
      raises = refl;
      invitations = refl;
      org_memberships = refl;
      workspace_memberships = refl;
    })
    | inr e ↦ rw e (record {
      raises = refl;
      invitations = refl;
      org_memberships = refl;
      workspace_memberships = refl;
    })
  ])

  unexpired-passes :
      (s : Session) → ltb i.expires_at a.now ≡ false → refuse_expired py i a s ≡ (ok tt, s)
  unfolding refuse_expired
  unexpired-passes s h = rw h refl

  -- the guards behind the one on the time
  abbrev later_checks : Action Unit
  later_checks = do
    raise_if (not (is_none i.revoked_at)) Error.invitation_revoked
    raise_if (not (is_none i.accepted_at)) Error.invitation_already_accepted
    raise_if (not (str_eq (py.lower i.invited_email) (py.strip (py.lower a.email))))
        Error.invitation_email_mismatch

  later-refuses :
      (s : Session)
      → ltb i.expires_at a.now ≡ false
      → is_acceptable py i a ≡ false
      → IsRefused s (later_checks s)
  later-refuses s fresh h = record {
    raises = ground arith;
    invitations = ground arith;
    org_memberships = ground arith;
    workspace_memberships = ground arith;
  }

  check-expired :
      (s : Session) → ltb i.expires_at a.now ≡ true → IsRefused s (check_invitation py i a s)
  unfolding check_invitation
  check-expired s e =
      IsRefused-continue s (λ _. later_checks) (refuse_expired py i a s).0
        (refuse_expired py i a s).1 (expired-refuses s e)

  check-unexpired :
      (s : Session) → ltb i.expires_at a.now ≡ false → check_invitation py i a s ≡ later_checks s
  unfolding check_invitation
  check-unexpired s e =
      bind-ok (refuse_expired py i a) (λ _. later_checks) s tt s (unexpired-passes s e)

  check-refuses :
      (s : Session) → is_acceptable py i a ≡ false → IsRefused s (check_invitation py i a s)
  check-refuses s h = elim (Bool-cases (ltb i.expires_at a.now)) [
    | inl e ↦ check-expired s e
    | inr e ↦ rw (check-unexpired s e) (later-refuses s e h)
  ]

  pub check-passes :
      (s : Session) → is_acceptable py i a ≡ true → check_invitation py i a s ≡ (ok tt, s)
  check-passes s h = check-unexpired s (ground arith) ∙ ground arith

module _ (py : Platform) (self : InvitationService) where
  -- An invitation that has expired, is revoked, is already accepted, or is for another e-mail
  -- address is refused: `accept` raises, and changes no invitation and no membership.
  pub accept-IsRefused :
      (raw : String) (o : ℕ) (i : Invitation) (a : Acceptance) (s : Session)
      → Presents py self raw o i s
      → is_acceptable py i a ≡ false
      → IsRefused s (accept py self raw a s)
  unfolding accept_found
  accept-IsRefused raw o i a s p h =
      let refused = check-refuses py i a (of_organisation o s) h in
      rw (accept-found py self raw o i a s p) (
        IsRefused-continue s (λ _. accept_checked py a i)
          (check_invitation py i a (of_organisation o s)).0
          (check_invitation py i a (of_organisation o s)).1
          (record {
            raises = refused.raises;
            invitations = refused.invitations;
            org_memberships = refused.org_memberships;
            workspace_memberships = refused.workspace_memberships;
          }))
