-- ===== src/Services/Org/Ownership.antt =====
-- Every method of services/org_service.py keeps exactly one owner in the organisation.
use atlascore.Base.{
  ℕ, ◌≤◌, ◌≡◌, refl, Bool, true, false, ◌&&◌, not, List, arith, ◌==◌, String, Option, some, none,
  inl, inr, ok, err, Error, ==_refl, Bool-cases, opt_str_eq, Result,
}
use atlascore.Db.Models.{OrganisationMembership}
use atlascore.Db.Table.{select, update, delete, exists, count, Has, scalar_one_or_none}
use atlascore.Db.Table.Count.{
  count_mono, count-split, count-update_same, count-update_clears, count-delete, count-pos_of_Has,
  count-zero_of_exists,
}
use atlascore.Db.Table.Rows.{one_or_none-some}
use atlascore.Db.Session.{Session, lift, ◌>>=◌, Action}
use atlascore.Services.Org.{
  owner, is_owner, is_member, readable, found_or, find_membership, require_membership, other_owner,
}

abbrev pub owns : ℕ → OrganisationMembership → Bool
owns o m = is_owner m && m.organisation_id == o

abbrev pub has_id : ℕ → OrganisationMembership → Bool
has_id i m = m.id == i

-- The organisation has one owner, no two memberships have the same id, and no user has two
-- memberships of an organisation.
pub record IsOwned (o : ℕ) (rows : List OrganisationMembership) : Type 0 where
  pub one_owner : count (owns o) rows ≡ 1
  pub unique_id : (i : ℕ) → count (has_id i) rows ≤ 1
  pub unique_user : (c u : ℕ) → count (is_member c u) rows ≤ 1

pub record IsSound (o : ℕ) (s : Session) : Type 0 where
  pub pending : IsOwned o s.db.org_memberships
  pub committed : IsOwned o s.committed.org_memberships

-- the rows that an update or a deletion of the row with an id reaches
abbrev pub reached : ℕ → ℕ → OrganisationMembership → Bool
reached o i m = (o == m.organisation_id) && m.id == i

abbrev pub with_role : Option String → OrganisationMembership → OrganisationMembership
with_role role m = record m { org_role = role }

-- A query for a membership raises with nothing changed, or goes on with a row that it may read.
found_rule :
    {B : Type 0} (Q : Result B × Session → Type 0) (p : OrganisationMembership → Bool)
    (f : OrganisationMembership → Action B) (s : Session)
    (r : Result (Option OrganisationMembership))
    → ((m : OrganisationMembership) → r ≡ ok (some m) → (p m ≡ true) × Has m s.db.org_memberships)
    → ((e : Error) → Q (err e, s))
    → ((m : OrganisationMembership) → p m ≡ true → Has m s.db.org_memberships → Q (f m s))
    → Q (((lift r >>= found_or Error.org_service_error) >>= f) s)
found_rule Q p f s (err e) good fails goes = fails e
found_rule Q p f s (ok none) good fails goes = fails Error.org_service_error
found_rule Q p f s (ok (some m)) good fails goes = goes m (good m refl).0 (good m refl).1

pub require_rule :
    {B : Type 0} (Q : Result B × Session → Type 0) (p : OrganisationMembership → Bool)
    (f : OrganisationMembership → Action B) (s : Session)
    → ((e : Error) → Q (err e, s))
    → ((m : OrganisationMembership) → p m ≡ true → Has m s.db.org_memberships → Q (f m s))
    → Q ((require_membership p >>= f) s)
unfolding require_membership find_membership
require_rule Q p f s fails goes =
    found_rule Q p f s (scalar_one_or_none (select (λ m. readable s m && p m) s.db.org_memberships))
      (λ m h.
        let found = one_or_none-some (λ r. readable s r && p r) s.db.org_memberships m h in
        (ground arith, found.1))
      fails goes

-- The row with the id of a membership that is no owner is no owner.
not_owner :
    (o : ℕ) (rows : List OrganisationMembership) (m : OrganisationMembership)
    → IsOwned o rows
    → Has m rows
    → is_owner m ≡ false
    → count (λ r. owns o r && reached o m.id r) rows ≡ 0
not_owner o rows m v has other = omega (
  arith,
  v.unique_id m.id,
  count-split (has_id m.id) is_owner rows,
  count-pos_of_Has (λ r. has_id m.id r && not (is_owner r)) m rows has
      (ground (arith, ==_refl m.id)),
  count_mono (λ r. owns o r && reached o m.id r) (λ r. has_id m.id r && is_owner r) rows
      (λ r h. ground arith),
)

pub delete-IsOwned :
    (o : ℕ) (rows : List OrganisationMembership) (m : OrganisationMembership)
    → IsOwned o rows
    → Has m rows
    → is_owner m ≡ false
    → IsOwned o (delete (reached o m.id) rows)
delete-IsOwned o rows m v has other = record {
  one_owner = omega (
    arith,
    count-delete (owns o) (reached o m.id) rows,
    count-split (owns o) (reached o m.id) rows,
    not_owner o rows m v has other,
    v.one_owner,
  );
  unique_id = λ i. omega (
    arith,
    count-delete (has_id i) (reached o m.id) rows,
    count-split (has_id i) (reached o m.id) rows,
    v.unique_id i,
  );
  unique_user = λ c u. omega (
    arith,
    count-delete (is_member c u) (reached o m.id) rows,
    count-split (is_member c u) (reached o m.id) rows,
    v.unique_user c u,
  );
}

pub set_role_unique :
    (o : ℕ) (rows : List OrganisationMembership) (i j : ℕ) (role : Option String)
    → count (has_id j) (update (reached o i) (with_role role) rows) ≡ count (has_id j) rows
set_role_unique o rows i j role =
    count-update_same (has_id j) (reached o i) (with_role role) rows (λ r h. refl)

pub set_role_unique_user :
    (o : ℕ) (rows : List OrganisationMembership) (i c u : ℕ) (role : Option String)
    → count (is_member c u) (update (reached o i) (with_role role) rows)
      ≡ count (is_member c u) rows
set_role_unique_user o rows i c u role =
    count-update_same (is_member c u) (reached o i) (with_role role) rows (λ r h. refl)

pub set_role-IsOwned :
    (o : ℕ) (rows : List OrganisationMembership) (m : OrganisationMembership) (role : Option String)
    → IsOwned o rows
    → Has m rows
    → is_owner m ≡ false
    → opt_str_eq role owner ≡ false
    → IsOwned o (update (reached o m.id) (with_role role) rows)
set_role-IsOwned o rows m role v has other plain = record {
  one_owner = omega (
    arith,
    count-update_clears (owns o) (reached o m.id) (with_role role) rows (λ r h. rw plain refl),
    count-split (owns o) (reached o m.id) rows,
    not_owner o rows m v has other,
    v.one_owner,
  );
  unique_id = λ j. rw (set_role_unique o rows m.id j role) (v.unique_id j);
  unique_user = λ c u. rw (set_role_unique_user o rows m.id c u role) (v.unique_user c u);
}

-- Beside a membership that is no owner stands another that is.
pub other_owner-exists :
    (o : ℕ) (rows : List OrganisationMembership) (m : OrganisationMembership)
    → IsOwned o rows
    → Has m rows
    → is_owner m ≡ false
    → m.organisation_id ≡ o
    → exists (other_owner m) rows ≡ true
other_owner-exists o rows m v has other here = elim (Bool-cases (exists (other_owner m) rows)) [
  | inl there ↦ there
  | inr free ↦ absurd (
      omega (
        arith,
        count-zero_of_exists (other_owner m) rows free,
        v.one_owner,
        count-split (owns o) (reached o m.id) rows,
        not_owner o rows m v has other,
        count_mono (λ r. owns o r && not (reached o m.id r)) (other_owner m) rows
            (λ r h. ground arith),
      ))
]
