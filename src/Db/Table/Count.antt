-- ===== src/Db/Table/Count.antt =====
-- How many rows of a table fit a condition, through each statement.
use atlascore.Base.{
  ◌+◌, ◌≤◌, ◌<◌, ◌≡◌, refl, Bool, true, false, ◌&&◌, ◌||◌, not, List, [], ◌∷◌, ◌++◌, arith,
  if◌then◌else◌, inl, inr, All,
}
use atlascore.Db.Table.{select, update, delete, exists, count, Has}

module _ {A : Type 0} where
  pub count-append :
      (p : A → Bool) (rs : List A) (r : A)
      → count p (rs ++ r ∷ []) ≡ count p rs + (if p r then 1 else 0)
  unfolding count select
  count-append p [] r = ground arith
  count-append p (x ∷ rs) r = ground (arith, count-append p rs r)

  -- A weaker condition fits as many rows or more.
  pub count_mono :
      (p q : A → Bool) (rs : List A) → ((r : A) → p r ≡ true → q r ≡ true) → count p rs ≤ count q rs
  unfolding count select
  count_mono p q [] h = omega arith
  count_mono p q (x ∷ rs) h = ground (arith, count_mono p q rs h, h x)

  pub count-split :
      (p q : A → Bool) (rs : List A)
      → count p rs ≡ count (λ r. p r && q r) rs + count (λ r. p r && not (q r)) rs
  unfolding count select
  count-split p q [] = omega arith
  count-split p q (x ∷ rs) = ground (arith, count-split p q rs)

  -- An update whose rows no longer fit leaves the fitting rows that it does not touch.
  pub count-update_clears :
      (p q : A → Bool) (f : A → A) (rs : List A)
      → ((r : A) → q r ≡ true → p (f r) ≡ false)
      → count p (update q f rs) ≡ count (λ r. p r && not (q r)) rs
  unfolding count select update
  count-update_clears p q f [] h = refl
  count-update_clears p q f (x ∷ rs) h = ground (arith, count-update_clears p q f rs h, h x)

  -- An update that does not change whether a row fits keeps the count.
  pub count-update_same :
      (p q : A → Bool) (f : A → A) (rs : List A)
      → ((r : A) → q r ≡ true → p (f r) ≡ p r)
      → count p (update q f rs) ≡ count p rs
  unfolding count select update
  count-update_same p q f [] h = refl
  count-update_same p q f (x ∷ rs) h = ground (arith, count-update_same p q f rs h, h x)

  pub count-delete :
      (p q : A → Bool) (rs : List A) → count p (delete q rs) ≡ count (λ r. p r && not (q r)) rs
  unfolding count select delete
  count-delete p q [] = refl
  count-delete p q (x ∷ rs) = ground (arith, count-delete p q rs)

  pub count-pos_of_Has :
      (p : A → Bool) (a : A) (rs : List A) → Has a rs → p a ≡ true → 0 < count p rs
  unfolding count select
  count-pos_of_Has p a [] h e = absurd h
  count-pos_of_Has p a (x ∷ rs) (inl same) e = ground arith
  count-pos_of_Has p a (x ∷ rs) (inr h) e = ground (arith, count-pos_of_Has p a rs h e)

  pub count-zero_of_exists : (p : A → Bool) (rs : List A) → exists p rs ≡ false → count p rs ≡ 0
  unfolding count select exists
  count-zero_of_exists p [] h = refl
  count-zero_of_exists p (x ∷ rs) h = ground (arith, count-zero_of_exists p rs)

  -- An insertion keeps "at most one" where nothing fitted before a row that fits.
  pub count-append_one :
      (p : A → Bool) (rs : List A) (r : A)
      → count p rs ≤ 1
      → (p r ≡ true → count p rs ≡ 0)
      → count p (rs ++ r ∷ []) ≤ 1
  count-append_one p rs r h k = ground (arith, count-append p rs r)

  pub count-zero_of_All : (p : A → Bool) (rs : List A) → All (λ r. p r ≡ false) rs → count p rs ≡ 0
  unfolding count select
  count-zero_of_All p [] h = refl
  count-zero_of_All p (x ∷ rs) h = ground (arith, count-zero_of_All p rs h.1, h.0)

  pub exists-update_same :
      (p q : A → Bool) (f : A → A) (rs : List A)
      → ((r : A) → p (f r) ≡ p r)
      → exists p (update q f rs) ≡ exists p rs
  unfolding exists update
  exists-update_same p q f [] h = refl
  exists-update_same p q f (x ∷ rs) h = ground (arith, exists-update_same p q f rs h, h x)

  -- What a statement does to rows that do not fit leaves the fitting rows as they were.
  pub select-update_other :
      (p q : A → Bool) (f : A → A) (rs : List A)
      → ((r : A) → q r ≡ true → (p r ≡ false) × (p (f r) ≡ false))
      → select p (update q f rs) ≡ select p rs
  unfolding select update
  select-update_other p q f [] h = refl
  select-update_other p q f (x ∷ rs) h = ground (arith, select-update_other p q f rs h, h x)

  pub select-append_other :
      (p : A → Bool) (rs : List A) (r : A) → p r ≡ false → select p (rs ++ r ∷ []) ≡ select p rs
  unfolding select
  select-append_other p [] r h = ground arith
  select-append_other p (x ∷ rs) r h = ground (arith, select-append_other p rs r h)

  -- An update that does not change whether a row fits, seen through the query.
  pub select-update_same :
      (p q : A → Bool) (f : A → A) (rs : List A)
      → ((r : A) → p (f r) ≡ p r)
      → select p (update q f rs) ≡ update q f (select p rs)
  unfolding select update
  select-update_same p q f [] h = refl
  select-update_same p q f (x ∷ rs) h = ground (arith, select-update_same p q f rs h, h x)

  -- The rows that fit after an update, counted before it.
  pub count-update :
      (p q : A → Bool) (f : A → A) (rs : List A)
      → count p (update q f rs) ≡ count (λ r. if q r then p (f r) else p r) rs
  unfolding count select update
  count-update p q f [] = refl
  count-update p q f (x ∷ rs) = ground (arith, count-update p q f rs)

  pub count-or_le :
      (p q : A → Bool) (rs : List A) → count (λ r. q r || p r) rs ≤ count q rs + count p rs
  unfolding count select
  count-or_le p q [] = omega arith
  count-or_le p q (x ∷ rs) = ground (arith, count-or_le p q rs)

  pub exists_of_count : (p : A → Bool) (rs : List A) → count p rs ≡ 0 → exists p rs ≡ false
  unfolding count select exists
  exists_of_count p [] h = refl
  exists_of_count p (x ∷ rs) h = ground (arith, exists_of_count p rs)
