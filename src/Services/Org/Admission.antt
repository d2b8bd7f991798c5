-- ===== src/Services/Org/Admission.antt =====
-- `add_member` of services/org_service.py: who joins an organisation, and with which role.
use atlascore.Base.{
  ℕ, String, ◌≡◌, refl, true, false, not, ◌&&◌, [], ◌∷◌, ◌++◌, Option, none, some, arith, ◌==◌, ok,
  err, Error, Result, ◌⊎◌, inl, inr, is_none, List, opt_str_eq,
}
use atlascore.Platform.{Platform}
use atlascore.Db.Models.{OrganisationMembership, User, Value}
use atlascore.Db.Table.{select, scalar_one_or_none, exists, count, Has}
use atlascore.Db.Table.Rows.{one_or_none-some, one_or_none-none}
use atlascore.Db.Table.Count.{count-zero_of_exists, count_mono}
use atlascore.Services.Org.Ownership.{owns}
use atlascore.Db.Session.{Session, Action, tenant, rollback, lift, pure, raise_if, ◌>>=◌, ◌>>◌}
use atlascore.Db.Session.Rules.{insert_rule}
use atlascore.Services.Audit.{Origin, emit_transactional}
use atlascore.Services.Org.{
  is_member, readable, find_membership, add_membership, conflicts, or_null, add_member, owner,
}

module _ (py : Platform) (organisation_id user_id : ℕ) (role : Option String) (actor : ℕ)
    (origin : Origin) (row_id : ℕ) where
  abbrev pub newcomer : OrganisationMembership
  newcomer = record {
    id = row_id;
    organisation_id = organisation_id;
    user_id = user_id;
    org_role = role;
  }

  -- The user stands, and had no membership that the session may read; the unique columns, the one
  -- on owners among them, are free; and the membership asked for is the one row that is new.
  pub record IsAdmitted (s t : Session) (m : OrganisationMembership) : Type 0 where
    pub user : User
    pub user_stands : Has user s.db.users
    pub user_is : (user.id == user_id) ≡ true
    pub outsider :
        count (λ r. readable s r && is_member organisation_id user_id r) s.db.org_memberships ≡ 0
    pub within : tenant s.organisation organisation_id ≡ true
    pub free : exists (conflicts newcomer) s.db.org_memberships ≡ false
    pub lone_owner :
        opt_str_eq role owner ≡ true → count (owns organisation_id) s.db.org_memberships ≡ 0
    pub row : m ≡ newcomer
    pub rows : t.db.org_memberships ≡ s.db.org_memberships ++ newcomer ∷ []

  -- A success is an admission. A refusal of the service leaves the memberships as they were, one of
  -- the database as they are committed.
  abbrev pub Admits : Session → Result OrganisationMembership × Session → Type 0
  Admits s (ok m, t) = IsAdmitted s t m
  Admits s (err e, t) =
      (t.db.org_memberships ≡ s.db.org_memberships)
      ⊎ (t.db.org_memberships ≡ s.committed.org_memberships)

  -- what `add_member` does behind its insertion
  abbrev welcomed : Action OrganisationMembership
  welcomed = do
    emit_transactional py "org.membership_added" organisation_id (some actor)
        (("target_user_id", Value.uuid user_id) ∷ ("org_role", or_null role) ∷ []) origin "success"
    pure newcomer

  only_owner :
      (rows : List OrganisationMembership)
      → opt_str_eq role owner ≡ true
      → exists (conflicts newcomer) rows ≡ false
      → count (owns organisation_id) rows ≡ 0
  unfolding conflicts
  only_owner rows own free = omega (
    arith,
    count-zero_of_exists (conflicts newcomer) rows free,
    count_mono (owns organisation_id) (conflicts newcomer) rows (λ m h. ground (arith, own, h)),
  )

  enrol-Admits :
      (s : Session) (user : User)
      → Has user s.db.users
      → (user.id == user_id) ≡ true
      → count (λ r. readable s r && is_member organisation_id user_id r) s.db.org_memberships ≡ 0
      → Admits s ((add_membership newcomer >> welcomed) s)
  unfolding add_membership emit_transactional rollback
  enrol-Admits s user stands is outside =
      insert_rule (λ (out : Result (Unit {0}) × Session). Admits s (((λ _. out) >> welcomed) s))
        (tenant s.organisation organisation_id) (exists (conflicts newcomer) s.db.org_memberships)
        (λ t. record t { org_memberships = t.org_memberships ++ newcomer ∷ [] }) s (λ h. inr refl)
        (λ h k. inr refl)
        (λ h k. record {
          user = user;
          user_stands = stands;
          user_is = is;
          outsider = outside;
          within = h;
          free = k;
          lone_owner = λ own. only_owner s.db.org_memberships own k;
          row = refl;
          rows = refl;
        })

  existing-Admits :
      (s : Session) (user : User) (r : Result (Option OrganisationMembership))
      → Has user s.db.users
      → (user.id == user_id) ≡ true
      → (r ≡ ok none
          → count (λ r. readable s r && is_member organisation_id user_id r) s.db.org_memberships
            ≡ 0)
      → Admits s (
          (lift r >>= λ existing.
          raise_if (not (is_none existing)) Error.org_service_error
          >> (add_membership newcomer >> welcomed))
            s)
  existing-Admits s user (err e) stands is outside = inl refl
  existing-Admits s user (ok (some m)) stands is outside = inl refl
  existing-Admits s user (ok none) stands is outside = enrol-Admits s user stands is (outside refl)

  user-Admits :
      (s : Session) (r : Result (Option User))
      → ((user : User) → r ≡ ok (some user) → ((user.id == user_id) ≡ true) × Has user s.db.users)
      → Admits s (
          (lift r >>= λ user.
          raise_if (is_none user) Error.org_service_error
          >> (find_membership (is_member organisation_id user_id) >>= λ existing.
              raise_if (not (is_none existing)) Error.org_service_error
              >> (add_membership newcomer >> welcomed)))
            s)
  unfolding find_membership
  user-Admits s (err e) good = inl refl
  user-Admits s (ok none) good = inl refl
  user-Admits s (ok (some user)) good =
      let g = good user refl in
      existing-Admits s user
        (scalar_one_or_none
          (select (λ m. readable s m && is_member organisation_id user_id m) s.db.org_memberships))
        g.1 g.0
        (one_or_none-none (λ m. readable s m && is_member organisation_id user_id m)
          s.db.org_memberships)

  -- Whoever `add_member` adds to an organisation is a user, had no membership there that the session
  -- may read, and gets the role asked for, in one new row beside the others; an owner only where the
  -- organisation has none. After an error the memberships are as they were, or, where the database
  -- refused the row and the transaction rolled back, as they are committed.
  pub add_member-Admits :
      (s : Session) → Admits s (add_member py organisation_id user_id role actor origin row_id s)
  unfolding add_member
  add_member-Admits s =
      user-Admits s (scalar_one_or_none (select (λ u. u.id == user_id) s.db.users))
        (λ user h. one_or_none-some (λ u. u.id == user_id) s.db.users user h)
