-- ===== src/Services/Auth/Registering.antt =====
-- `register` of services/auth_service.py where the slug of the organisation is taken.
use atlascore.Base.{
  ℕ, ◌≡◌, refl, Bool, true, false, ◌&&◌, ◌||◌, List, [], ◌∷◌, ◌++◌, Option, none, some, arith, ◌==◌,
  str_eq, ok, err, Error, ap, ◌∙◌, ==_refl,
}
use atlascore.Platform.{Platform}
use atlascore.Db.Models.{Organisation}
use atlascore.Db.Table.{select, exists, scalar_one_or_none}
use atlascore.Db.Table.Count.{count-zero_of_exists, count_mono}
use atlascore.Db.Table.Rows.{one_or_none_of_zero}
use atlascore.Db.Session.{Session, rollback, tenant, set_organisation, set_user, ◌>>◌}
use atlascore.Db.Session.Rules.{bind-ok, bind-err, insert-ok, insert-conflict}
use atlascore.Services.Auth.{AuthService, find_user, find_organisation}
use atlascore.Services.Auth.Register.{
  Registration, user_conflicts, add_user, organisation_conflicts, add_organisation, organisation_of,
  user_of, furnish, bootstrap, announce, create_account, check_slug, check_email, register,
}

exists_mono :
    {A : Type 0} (p q : A → Bool) (rows : List A)
    → ((r : A) → p r ≡ true → q r ≡ true)
    → exists p rows ≡ true
    → exists q rows ≡ true
unfolding exists
exists_mono p q [] h e = e
exists_mono p q (x ∷ rows) h e = ground (arith, exists_mono p q rows h, h x)

-- nothing fits a condition that asks for a current organisation where there is none
none_in_all :
    (current : Option ℕ) (p : Organisation → Bool) (rows : List Organisation)
    → current ≡ none
    → select (λ o. tenant current o.id && p o) rows ≡ []
unfolding select
none_in_all current p [] h = refl
none_in_all current p (x ∷ rows) h = ground (arith, h, none_in_all current p rows h)

module _ (py : Platform) (self : AuthService) (r : Registration) (s : Session) where
  -- the session with the new user's row
  abbrev joined : Session
  joined = record s { db = record s.db { users = s.db.users ++ user_of py self r ∷ [] } }

  abbrev bound : Session
  bound = record joined { organisation = some r.organisation_id; user = some r.user_id }

  slug-hidden :
      s.organisation ≡ none
      → find_organisation (λ o. str_eq o.slug r.organisation_slug) s ≡ (ok none, s)
  unfolding find_organisation scalar_one_or_none
  slug-hidden outside =
      ap (λ l. (scalar_one_or_none l, s))
        (none_in_all s.organisation (λ o. str_eq o.slug r.organisation_slug) s.db.organisations
          outside)

  bootstrap-taken :
      exists (λ o. str_eq o.slug r.organisation_slug) s.db.organisations ≡ true
      → bootstrap r joined ≡ (err Error.integrity_error, rollback bound)
  unfolding bootstrap set_organisation set_user
  bootstrap-taken taken =
      bind-err (add_organisation (organisation_of r)) (λ _. furnish r) bound Error.integrity_error
        (rollback bound) refused
    where
      conflict : exists (organisation_conflicts (organisation_of r)) s.db.organisations ≡ true
      conflict =
          exists_mono (λ o. str_eq o.slug r.organisation_slug)
            (organisation_conflicts (organisation_of r)) s.db.organisations
            (λ o h. unfold organisation_conflicts organisation_of in ground (arith, h)) taken

      refused :
          add_organisation (organisation_of r) bound ≡ (err Error.integrity_error, rollback bound)
      refused =
          unfold add_organisation organisation_of in
          insert-conflict (tenant (some r.organisation_id) r.organisation_id)
            (exists (organisation_conflicts (organisation_of r)) s.db.organisations)
            (λ t. record t { organisations = t.organisations ++ organisation_of r ∷ [] }) bound
            (==_refl r.organisation_id) conflict

  email-unknown :
      exists (user_conflicts (user_of py self r)) s.db.users ≡ false
      → find_user (λ u. str_eq u.email r.email) s ≡ (ok none, s)
  unfolding find_user user_conflicts user_of
  email-unknown free =
      ap (λ x. (x, s))
        (one_or_none_of_zero (λ u. str_eq u.email r.email) s.db.users
          (omega (
            arith,
            count-zero_of_exists (λ u. u.id == r.user_id || str_eq u.email r.email) s.db.users free,
            count_mono (λ u. str_eq u.email r.email)
                (λ u. u.id == r.user_id || str_eq u.email r.email) s.db.users
                (λ u h. ground (arith, h)),
          )))

  -- Where no user has the email or the new user's id, and an organisation has the slug, `register`
  -- in a transaction that has no current organisation raises an IntegrityError, and not the
  -- RegistrationError of a slug that is taken; what it wrote is rolled back.
  pub register-taken_slug :
      s.organisation ≡ none
      → exists (user_conflicts (user_of py self r)) s.db.users ≡ false
      → exists (λ o. str_eq o.slug r.organisation_slug) s.db.organisations ≡ true
      → register py self r s ≡ (err Error.integrity_error, rollback s)
  unfolding register check_email check_slug create_account rollback
  register-taken_slug outside free taken =
      bind-ok (find_user (λ u. str_eq u.email r.email)) (check_email py self r) s none s
        (email-unknown free)
      ∙ bind-ok (find_organisation (λ o. str_eq o.slug r.organisation_slug)) (check_slug py self r)
          s none s (slug-hidden outside)
      ∙ bind-ok (add_user (user_of py self r)) (λ _. bootstrap r >> announce py self r) s tt joined
          (unfold add_user in
            insert-ok true (exists (user_conflicts (user_of py self r)) s.db.users)
              (λ t. record t { users = t.users ++ user_of py self r ∷ [] }) s refl free)
      ∙ bind-err (bootstrap r) (λ _. announce py self r) joined Error.integrity_error
          (rollback bound) (bootstrap-taken taken)
