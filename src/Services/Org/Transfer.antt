-- ===== src/Services/Org/Transfer.antt =====
-- `transfer_ownership` of services/org_service.py, from an owner to another member.
use atlascore.Base.{
  ℕ, ◌≤◌, ◌≡◌, ◌≢◌, [], ◌∷◌, ◌∙◌, ap, refl, Bool, true, false, ◌&&◌, List, arith, ◌==◌, String,
  Option, some, ok, Result, Error, ==_refl, opt_str_eq, inl, inr, Bool-cases, ◌||◌, not,
  if◌then◌else◌,
}
use atlascore.Platform.{Platform}
use atlascore.Db.Models.{OrganisationMembership, Value}
use atlascore.Db.Table.{update, exists, count, Has}
use atlascore.Db.Table.Count.{
  count_mono, count-split, count-update, count-update_clears, count-or_le, count-pos_of_Has,
  exists_of_count,
}
use atlascore.Db.Table.Rows.{one_or_none_of_Has, Has-update_self, Has-update_other}
use atlascore.Db.Session.{Session, ◌>>◌, Action}
use atlascore.Db.Session.Rules.{bind-ok, insert-ok}
use atlascore.Services.Audit.{Origin, emit_transactional}
use atlascore.Services.Org.{
  owner, is_owner, is_member, readable, found_or, find_membership, require_membership, other_owner,
  set_role, transfer_found, transfer_to, transfer_ownership,
}
use atlascore.Services.Org.Ownership.{
  owns, has_id, reached, with_role, IsOwned, set_role_unique, set_role_unique_user,
}

abbrev pub demoted :
    ℕ → OrganisationMembership → List OrganisationMembership → List OrganisationMembership
demoted o a rows = update (reached o a.id) (with_role (some "administrator")) rows

abbrev pub promoted :
    ℕ → OrganisationMembership → List OrganisationMembership → List OrganisationMembership
promoted o b rows = update (reached o b.id) (with_role (some owner)) rows

no_owner-demoted :
    (o : ℕ) (rows : List OrganisationMembership) (a : OrganisationMembership)
    → IsOwned o rows
    → Has a rows
    → owns o a ≡ true
    → count (owns o) (demoted o a rows) ≡ 0
no_owner-demoted o rows a v has own = omega (
  arith,
  v.one_owner,
  count-split (owns o) (reached o a.id) rows,
  count-update_clears (owns o) (reached o a.id) (with_role (some "administrator")) rows
      (λ r h. refl),
  count-pos_of_Has (λ r. owns o r && reached o a.id r) a rows has (ground (arith, ==_refl a.id)),
)

one_owner-promoted :
    (o : ℕ) (rows : List OrganisationMembership) (b : OrganisationMembership)
    → count (owns o) rows ≡ 0
    → count (has_id b.id) rows ≤ 1
    → Has b rows
    → b.organisation_id ≡ o
    → count (owns o) (promoted o b rows) ≡ 1
one_owner-promoted o rows b no_owner one has here =
    let after : OrganisationMembership → Bool =
      λ r. if reached o b.id r then owns o (with_role (some owner) r) else owns o r in
    omega (
      arith,
      no_owner,
      one,
      count-update (owns o) (reached o b.id) (with_role (some owner)) rows,
      count-pos_of_Has after b rows has (rw here (rw (==_refl o) (rw (==_refl b.id) refl))),
      count_mono after (λ r. reached o b.id r || owns o r) rows (λ r h. ground arith),
      count-or_le (owns o) (reached o b.id) rows,
      count_mono (reached o b.id) (has_id b.id) rows (λ r h. ground arith),
    )

-- Two members of different users have different ids.
pub other_id :
    (o : ℕ) (rows : List OrganisationMembership) (a b : OrganisationMembership)
    → IsOwned o rows
    → Has a rows
    → Has b rows
    → a.user_id ≢ b.user_id
    → (b.id == a.id) ≡ false
other_id o rows a b v has_a has_b different = elim (Bool-cases (b.id == a.id)) [
  | inr other ↦ other
  | inl same ↦ absurd (
      omega (
        arith,
        v.unique_id a.id,
        count-split (has_id a.id) (λ r. r.user_id == a.user_id) rows,
        count-pos_of_Has (λ r. has_id a.id r && r.user_id == a.user_id) a rows has_a
            (rw (==_refl a.id) (==_refl a.user_id)),
        count-pos_of_Has (λ r. has_id a.id r && not (r.user_id == a.user_id)) b rows has_b
            (ground (arith, same, different)),
      ))
]

-- The memberships of an organisation after the owner and another member exchanged the ownership.
pub transfer-IsOwned :
    (o : ℕ) (rows : List OrganisationMembership) (a b : OrganisationMembership)
    → IsOwned o rows
    → Has a rows
    → owns o a ≡ true
    → Has b (demoted o a rows)
    → b.organisation_id ≡ o
    → IsOwned o (promoted o b (demoted o a rows))
transfer-IsOwned o rows a b v has_a own has_b here =
    let admin : Option String = some "administrator" in
    record {
      one_owner =
          one_owner-promoted o (demoted o a rows) b (no_owner-demoted o rows a v has_a own)
            (rw (set_role_unique o rows a.id b.id admin) (v.unique_id b.id)) has_b here;
      unique_id = λ i.
          rw (set_role_unique o (demoted o a rows) b.id i (some owner))
            (rw (set_role_unique o rows a.id i admin) (v.unique_id i));
      unique_user = λ c u.
          rw (set_role_unique_user o (demoted o a rows) b.id c u (some owner))
            (rw (set_role_unique_user o rows a.id c u admin) (v.unique_user c u));
    }

-- The query for a member that the session may read finds it.
require-found :
    (o : ℕ) (p : OrganisationMembership → Bool) (s : Session) (a : OrganisationMembership)
    → s.organisation ≡ some o
    → Has a s.db.org_memberships
    → a.organisation_id ≡ o
    → p a ≡ true
    → count p s.db.org_memberships ≤ 1
    → require_membership p s ≡ (ok a, s)
unfolding require_membership find_membership
require-found o p s a here has in_o fits one =
    bind-ok (find_membership p) (found_or Error.org_service_error) s (some a) s (
      ap (λ (r : Result (Option OrganisationMembership)). (r, s))
        (one_or_none_of_Has (λ r. readable s r && p r) a s.db.org_memberships has
          (rw fits (rw here (rw in_o (rw (==_refl o) refl))))
          (omega (
            arith,
            one,
            count_mono (λ r. readable s r && p r) p s.db.org_memberships (λ r h. ground arith),
          ))))

abbrev pub with_rows : Session → List OrganisationMembership → Session
with_rows s rows = record s { db = record s.db { org_memberships = rows } }

set_role-ok :
    (o : ℕ) (m : OrganisationMembership) (role : Option String) (s : Session)
    → s.organisation ≡ some o
    → m.organisation_id ≡ o
    → (opt_str_eq role owner && exists (other_owner m) s.db.org_memberships) ≡ false
    → set_role m role s
      ≡ (ok tt, with_rows s (update (reached o m.id) (with_role role) s.db.org_memberships))
unfolding set_role
set_role-ok o m role s here in_o free =
    insert-ok _ _ _ s (rw here (rw in_o (==_refl o))) free ∙ rw here refl

module _ (py : Platform) (o current new : ℕ) (origin : Origin) (s : Session) where
  transfer_found-moves :
      (a b : OrganisationMembership)
      → s.organisation ≡ some o
      → IsOwned o s.db.org_memberships
      → Has a s.db.org_memberships
      → owns o a ≡ true
      → a.organisation_id ≡ o
      → b.organisation_id ≡ o
      → (s' : Session) × (transfer_found py o current new origin a b s ≡ (ok tt, s'))
        × (s'.db.org_memberships ≡ promoted o b (demoted o a s.db.org_memberships))
  unfolding transfer_found emit_transactional
  transfer_found-moves a b here v has own in_a in_b =
      let s1 = with_rows s (demoted o a s.db.org_memberships) in
      let s2 = with_rows s (promoted o b (demoted o a s.db.org_memberships)) in
      let emit : Action Unit =
        emit_transactional py "org.ownership_transferred" o (some current)
          (("from_user_id", Value.uuid current) ∷ ("to_user_id", Value.uuid new) ∷ []) origin
          "success" in
      let free = exists_of_count (other_owner b) (demoted o a s.db.org_memberships) (
        omega (
          arith,
          no_owner-demoted o s.db.org_memberships a v has own,
          count_mono (other_owner b) (owns o) (demoted o a s.db.org_memberships)
              (λ r h. ground arith),
        )) in
      (
        (emit s2).1,
        bind-ok (set_role a (some "administrator")) (λ _. set_role b (some owner) >> emit) s tt s1
              (set_role-ok o a (some "administrator") s here in_a refl)
            ∙ bind-ok (set_role b (some owner)) (λ _. emit) s1 tt s2
                (set_role-ok o b (some owner) s1 here in_b free)
            ∙ refl,
        refl,
      )

  transfer_ownership-ok :
      (a b : OrganisationMembership)
      → s.organisation ≡ some o
      → IsOwned o s.db.org_memberships
      → current ≢ new
      → Has a s.db.org_memberships
      → (is_member o current a && is_owner a) ≡ true
      → Has b s.db.org_memberships
      → is_member o new b ≡ true
      → (s' : Session) × (transfer_ownership py o current new origin s ≡ (ok tt, s'))
        × (s'.db.org_memberships ≡ promoted o b (demoted o a s.db.org_memberships))
  unfolding transfer_ownership transfer_to
  transfer_ownership-ok a b here v different has_a own has_b member =
      let rows = s.db.org_memberships in
      let in_a : a.organisation_id ≡ o = ground arith in
      let in_b : b.organisation_id ≡ o = ground arith in
      let moved = transfer_found-moves a b here v has_a (ground (arith, ==_refl o)) in_a in_b in
      let distinct : (current == new) ≡ false = ground (arith, different) in
      (
        moved.0,
        rw distinct refl
            ∙ bind-ok (require_membership (λ m. is_member o current m && is_owner m))
                (transfer_to py o current new origin) s a s
                (require-found o (λ m. is_member o current m && is_owner m) s a here has_a in_a own
                  (omega (
                    arith,
                    v.unique_user o current,
                    count_mono (λ m. is_member o current m && is_owner m) (is_member o current) rows
                        (λ r h. ground arith),
                  )))
            ∙ bind-ok (require_membership (is_member o new))
                (transfer_found py o current new origin a) s b s
                (require-found o (is_member o new) s b here has_b in_b member (v.unique_user o new))
            ∙ moved.1,
        moved.2,
      )

  -- In a session of an organisation with exactly one owner, with distinct ids and users, the
  -- owner's transfer to a member who is another user succeeds: the old owner becomes an
  -- administrator, the member becomes the owner, and the organisation has exactly one owner again.
  pub transfer_ownership-moves :
      (a b : OrganisationMembership)
      → s.organisation ≡ some o
      → IsOwned o s.db.org_memberships
      → current ≢ new
      → Has a s.db.org_memberships
      → (is_member o current a && is_owner a) ≡ true
      → Has b s.db.org_memberships
      → is_member o new b ≡ true
      → let out = transfer_ownership py o current new origin s in
        let rows = out.1.db.org_memberships in
        (out.0 ≡ ok tt)
        × Has (record a { org_role = some "administrator" }) rows
        × Has (record b { org_role = some "owner" }) rows
        × IsOwned o rows
  transfer_ownership-moves a b here v different has_a own has_b member =
      let rows = s.db.org_memberships in
      let r = transfer_ownership-ok a b here v different has_a own has_b member in
      let in_b : b.organisation_id ≡ o = ground arith in
      let other =
        other_id o rows a b v has_a has_b
          (λ same. absurd (ground (arith, different, own, member, same))) in
      let there =
        Has-update_other (reached o a.id) (with_role (some "administrator")) b rows has_b
          (ground (arith, other)) in
      let changed =
        Has-update_self (reached o a.id) (with_role (some "administrator")) a rows has_a
          (ground (arith, ==_refl o, ==_refl a.id)) in
      rw r.1 (
        rw r.2 (
          refl,
          Has-update_other (reached o b.id) (with_role (some owner)) _ (demoted o a rows) changed
              (ground (arith, other)),
          Has-update_self (reached o b.id) (with_role (some owner)) b (demoted o a rows) there
              (rw in_b (rw (==_refl o) (==_refl b.id))),
          transfer-IsOwned o rows a b v has_a (ground (arith, ==_refl o)) there in_b,
        ))
