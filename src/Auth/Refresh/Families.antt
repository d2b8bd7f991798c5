-- ===== src/Auth/Refresh/Families.antt =====
-- The invariant of the table of refresh tokens, and that each statement of auth/refresh.py keeps
-- it.
use mathlib.Core.Path.{subst}
use atlascore.Base.{
  ℕ, ◌≤◌, ◌≡◌, refl, Bool, true, false, ◌&&◌, not, List, [], ◌∷◌, ◌++◌, All, All-append, arith,
  ◌==◌, str_eq, str_eq_iff, String, ap,
}
use atlascore.Db.Models.{RefreshToken}
use atlascore.Db.Table.{update, exists, count, Has}
use atlascore.Db.Table.Count.{
  count-append_one, count_mono, count-split, count-update_clears, count-update_same,
  count-pos_of_Has, count-zero_of_exists,
}
use atlascore.Db.Table.Rows.{All-update}
use atlascore.Auth.Refresh.{conflicts, revoked, family_revoked}

abbrev pub active_in : ℕ → RefreshToken → Bool
active_in f r = r.family_id == f && r.is_active

abbrev pub has_hash : String → RefreshToken → Bool
has_hash h r = str_eq r.token_hash h

-- Of each family at most one token is active; a family's tokens all belong to the organisation
-- that `owner` gives; no two tokens have the same hash.
pub record IsValid (owner : ℕ → ℕ) (rows : List RefreshToken) : Type 0 where
  pub one_active : (f : ℕ) → count (active_in f) rows ≤ 1
  pub same_org : All (λ r. r.organisation_id ≡ owner r.family_id) rows
  pub unique_hash : (h : String) → count (has_hash h) rows ≤ 1

-- An update that ends tokens: it deactivates, and keeps the family, the organisation and the hash.
pub record Ends (g : RefreshToken → RefreshToken) : Type 0 where
  pub inactive : (r : RefreshToken) → (g r).is_active ≡ false
  pub family : (r : RefreshToken) → (g r).family_id ≡ r.family_id
  pub org : (r : RefreshToken) → (g r).organisation_id ≡ r.organisation_id
  pub hash : (r : RefreshToken) → (g r).token_hash ≡ r.token_hash

pub revoked-Ends : (now : ℕ) → Ends (revoked now)
revoked-Ends now = record {
  inactive = λ r. refl;
  family = λ r. refl;
  org = λ r. refl;
  hash = λ r. refl;
}

pub family_revoked-Ends : (now : ℕ) → Ends (family_revoked now)
family_revoked-Ends now = record {
  inactive = λ r. refl;
  family = λ r. refl;
  org = λ r. refl;
  hash = λ r. refl;
}

and_false : (a b : Bool) → b ≡ false → (a && b) ≡ false
and_false a b h = ground arith

and_left : (a b : Bool) → (a && b) ≡ true → a ≡ true
and_left a b h = ground arith

module _ (p : RefreshToken → Bool) (g : RefreshToken → RefreshToken) (ends : Ends g) where
  -- Ending tokens leaves the active ones that the statement does not reach.
  pub count-active-end :
      (f : ℕ) (rows : List RefreshToken)
      → count (active_in f) (update p g rows) ≡ count (λ r. active_in f r && not (p r)) rows
  count-active-end f rows =
      count-update_clears (active_in f) p g rows (λ r _. and_false _ _ (ends.inactive r))

  pub end-IsValid :
      (owner : ℕ → ℕ) (rows : List RefreshToken)
      → IsValid owner rows
      → IsValid owner (update p g rows)
  end-IsValid owner rows v = record {
    one_active = λ f. omega (
      arith,
      count-active-end f rows,
      count_mono (λ r. active_in f r && not (p r)) (active_in f) rows (λ r. and_left _ _),
      v.one_active f,
    );
    same_org = All-update _ p g rows (λ r h _. cc (ends.org r, ends.family r, h)) v.same_org;
    unique_hash = λ h. omega (
      arith,
      count-update_same (has_hash h) p g rows (λ r _. ap (λ x. str_eq x h) (ends.hash r)),
      v.unique_hash h,
    );
  }

-- Once a statement has ended an active token, its family has no active token.
pub count-active-end_one :
    (p : RefreshToken → Bool) (g : RefreshToken → RefreshToken) (owner : ℕ → ℕ)
    (rows : List RefreshToken) (old : RefreshToken)
    → Ends g
    → IsValid owner rows
    → Has old rows
    → p old ≡ true
    → old.is_active ≡ true
    → count (active_in old.family_id) (update p g rows) ≡ 0
count-active-end_one p g owner rows old ends v has reached active =
    let f = old.family_id in
    omega (
      arith,
      count-active-end p g ends f rows,
      count-split (active_in f) p rows,
      count-pos_of_Has (λ r. active_in f r && p r) old rows has (ground arith),
      v.one_active f,
    )

same_hash-conflicts :
    (rt r : RefreshToken) (h : String)
    → has_hash h rt ≡ true
    → has_hash h r ≡ true
    → conflicts rt r ≡ true
unfolding conflicts
same_hash-conflicts rt r h e k = ground (
  arith,
  str_eq_iff r.token_hash h,
  str_eq_iff rt.token_hash h,
  str_eq_iff r.token_hash rt.token_hash,
)

active_in-family : (f : ℕ) (r : RefreshToken) → active_in f r ≡ true → r.family_id ≡ f
active_in-family f r h = ground arith

-- A new token of a family without an active one.
pub append-IsValid :
    (owner : ℕ → ℕ) (rows : List RefreshToken) (rt : RefreshToken)
    → IsValid owner rows
    → count (active_in rt.family_id) rows ≡ 0
    → exists (conflicts rt) rows ≡ false
    → rt.organisation_id ≡ owner rt.family_id
    → IsValid owner (rows ++ rt ∷ [])
append-IsValid owner rows rt v none_active free same = record {
  one_active = λ f.
      count-append_one (active_in f) rows rt (v.one_active f)
        (λ e. subst (λ x. count (active_in x) rows ≡ 0) (active_in-family f rt e) none_active);
  same_org = All-append _ rows (rt ∷ []) v.same_org (same, tt);
  unique_hash = λ h. count-append_one (has_hash h) rows rt (v.unique_hash h) (λ e. omega (
    arith,
    count_mono (has_hash h) (conflicts rt) rows (λ r. same_hash-conflicts rt r h e),
    count-zero_of_exists (conflicts rt) rows free,
  ));
}
