-- ===== src/Services/Org/TransferAll.antt =====
-- `transfer_ownership` of services/org_service.py on every branch.
use atlascore.Base.{
  ℕ, ◌≡◌, ◌≢◌, [], ◌∷◌, true, ◌&&◌, List, arith, ◌==◌, String, Option, some, ok, err, Result, Error,
  inl, inr, Bool-cases,
}
use atlascore.Platform.{Platform}
use atlascore.Db.Models.{OrganisationMembership, Value}
use atlascore.Db.Table.{update, Has}
use atlascore.Db.Table.Rows.{Has-update_other}
use atlascore.Db.Session.{Session, ◌>>=◌, ◌>>◌, Action, rollback, tenant}
use atlascore.Db.Session.Rules.{insert_rule}
use atlascore.Services.Audit.{Origin, emit_transactional}
use atlascore.Services.Org.{
  owner, is_owner, is_member, set_role, transfer_found, transfer_to, transfer_ownership,
}
use atlascore.Services.Org.Ownership.{reached, with_role, IsSound, require_rule}
use atlascore.Services.Org.Methods.{emit-Keeps}
use atlascore.Services.Org.Transfer.{with_rows, transfer-IsOwned, other_id}

abbrev given : Session → ℕ → Option String → List OrganisationMembership
given s i role =
    update (λ r. tenant s.organisation r.organisation_id && r.id == i) (with_role role)
      s.db.org_memberships

-- A role is set on a row of the session's organisation, or the transaction is rolled back.
set_role_rule :
    (Q : Result (Unit {0}) × Session → Type 0) (m : OrganisationMembership) (role : Option String)
    (s : Session)
    → ((e : Error) → Q (err e, rollback s))
    → (tenant s.organisation m.organisation_id ≡ true → Q (ok tt, with_rows s (given s m.id role)))
    → Q (set_role m role s)
unfolding set_role
set_role_rule Q m role s fails goes =
    insert_rule Q _ _ _ s (λ h. fails Error.rls_violation) (λ h k. fails Error.integrity_error)
      (λ h k. goes h)

module _ (py : Platform) (o organisation current new : ℕ) (origin : Origin) (s : Session) where
  rolled_back : IsSound o s → IsSound o (rollback s)
  unfolding rollback
  rolled_back v = record { pending = v.committed; committed = v.committed }

  transfer_found-IsSound :
      (a b : OrganisationMembership)
      → s.organisation ≡ some o
      → IsSound o s
      → Has a s.db.org_memberships
      → is_owner a ≡ true
      → Has b s.db.org_memberships
      → a.user_id ≢ b.user_id
      → IsSound o (transfer_found py organisation current new origin a b s).1
  unfolding transfer_found rollback
  transfer_found-IsSound a b here v has_a own has_b different =
      let emit : Action Unit =
        emit_transactional py "org.ownership_transferred" organisation (some current)
          (("from_user_id", Value.uuid current) ∷ ("to_user_id", Value.uuid new) ∷ []) origin
          "success" in
      let promote : Action Unit = set_role b (some owner) >> emit in
      let rows = s.db.org_memberships in
      let s1 = with_rows s (given s a.id (some "administrator")) in
      let other = other_id o rows a b v.pending has_a has_b different in
      let there =
        Has-update_other (reached o a.id) (with_role (some "administrator")) b rows has_b
          (ground (arith, other)) in
      set_role_rule
        (λ (r : Result (Unit {0}) × Session). IsSound o (((λ _. r) >>= λ _. promote) s).1) a
        (some "administrator") s (λ e. rolled_back v)
        (λ in_a.
          set_role_rule
            (λ (r : Result (Unit {0}) × Session). IsSound o (((λ _. r) >>= λ _. emit) s).1) b
            (some owner) s1 (λ e. record { pending = v.committed; committed = v.committed })
            (λ in_b.
              (emit-Keeps py o "org.ownership_transferred" organisation (some current)
                  (("from_user_id", Value.uuid current) ∷ ("to_user_id", Value.uuid new) ∷ [])
                  origin "success").keep
                _
                (record {
                  pending = rw here (
                      transfer-IsOwned o rows a b v.pending has_a (ground (arith, own, in_a, here))
                        there (ground (arith, in_b, here)));
                  committed = v.committed;
                })))

  -- Transferring the ownership of any organisation from any user to any user, in a session of an
  -- organisation whose memberships, pending and committed, have exactly one owner, distinct ids,
  -- and no user twice in an organisation, keeps all of that, whatever the outcome.
  pub transfer_ownership-IsSound :
      s.organisation ≡ some o
      → IsSound o s
      → IsSound o (transfer_ownership py organisation current new origin s).1
  unfolding transfer_ownership transfer_to
  transfer_ownership-IsSound here v = elim (Bool-cases (current == new)) [
    | inl same ↦ rw same v
    | inr distinct ↦ rw distinct (
        require_rule (λ (r : Result (Unit {0}) × Session). IsSound o r.1)
          (λ m. is_member organisation current m && is_owner m)
          (transfer_to py organisation current new origin) s (λ e. v)
          (λ a fits has_a.
            require_rule (λ (r : Result (Unit {0}) × Session). IsSound o r.1)
              (is_member organisation new) (transfer_found py organisation current new origin a) s
              (λ e. v)
              (λ b member has_b.
                transfer_found-IsSound a b here v has_a (ground arith) has_b
                  (λ same. absurd (ground (arith, distinct, fits, member, same))))))
  ]
