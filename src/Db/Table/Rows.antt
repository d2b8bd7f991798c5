-- ===== src/Db/Table/Rows.antt =====
-- What the rows of a table satisfy, through each statement.
use atlascore.Base.{
  ◌≤◌, ◌≡◌, refl, Bool, true, false, List, [], ◌∷◌, ◌++◌, arith, some, none, ok, inl, inr, All, ap,
  Option, length,
}
use atlascore.Db.Table.{select, update, delete, exists, count, scalar_one_or_none, Has}

module _ {A : Type 0} where
  Has-select : (p : A → Bool) (rs : List A) (a : A) → Has a (select p rs) → (p a ≡ true) × Has a rs
  unfolding select
  Has-select p [] a h = absurd h
  Has-select p (x ∷ rs) a h = ground (arith, Has-select p rs a)

  Has-scalar : (rs : List A) (a : A) → scalar_one_or_none rs ≡ ok (some a) → Has a rs
  unfolding scalar_one_or_none
  Has-scalar rs a h = ground arith

  -- The row that a query returns fits, and stands in the table.
  pub one_or_none-some :
      (p : A → Bool) (rs : List A) (a : A)
      → scalar_one_or_none (select p rs) ≡ ok (some a)
      → (p a ≡ true) × Has a rs
  one_or_none-some p rs a h = Has-select p rs a (Has-scalar (select p rs) a h)

  -- A query finds nothing only where no row fits.
  pub one_or_none-none :
      (p : A → Bool) (rs : List A) → scalar_one_or_none (select p rs) ≡ ok none → count p rs ≡ 0
  unfolding scalar_one_or_none count
  one_or_none-none p rs h = ground arith

  none_of_short : (rs : List A) → length rs ≡ 0 → scalar_one_or_none rs ≡ ok none
  unfolding scalar_one_or_none
  none_of_short [] h = refl
  none_of_short (x ∷ rs) h = absurd (omega (arith, h))

  -- The query for a row where none fits finds nothing.
  pub one_or_none_of_zero :
      (p : A → Bool) (rs : List A) → count p rs ≡ 0 → scalar_one_or_none (select p rs) ≡ ok none
  unfolding count
  one_or_none_of_zero p rs h = none_of_short (select p rs) h

  one_of_short : (rs : List A) → length rs ≤ 1 → (o : Option A) × (scalar_one_or_none rs ≡ ok o)
  unfolding scalar_one_or_none
  one_of_short [] h = (none, refl)
  one_of_short (x ∷ []) h = (some x, refl)
  one_of_short (x ∷ y ∷ rs) h = absurd (omega arith)

  -- Where at most one row fits, a query does not raise.
  pub one_or_none_of_count :
      (p : A → Bool) (rs : List A)
      → count p rs ≤ 1
      → (o : Option A) × (scalar_one_or_none (select p rs) ≡ ok o)
  unfolding count
  one_or_none_of_count p rs h = one_of_short (select p rs) h

  one_of_length : (rs : List A) → length rs ≡ 1 → (a : A) × (scalar_one_or_none rs ≡ ok (some a))
  unfolding scalar_one_or_none
  one_of_length [] h = absurd (omega (arith, h))
  one_of_length (x ∷ []) h = (x, refl)
  one_of_length (x ∷ y ∷ rs) h = absurd (omega (arith, h))

  -- Where one row fits, a query finds a row.
  pub one_or_none_of_one :
      (p : A → Bool) (rs : List A)
      → count p rs ≡ 1
      → (a : A) × (scalar_one_or_none (select p rs) ≡ ok (some a))
  unfolding count
  one_or_none_of_one p rs h = one_of_length (select p rs) h

  pub exists_of_Has :
      (p : A → Bool) (a : A) (rs : List A) → Has a rs → p a ≡ true → exists p rs ≡ true
  unfolding exists
  exists_of_Has p a [] h e = absurd h
  exists_of_Has p a (x ∷ rs) (inl same) e = ground arith
  exists_of_Has p a (x ∷ rs) (inr h) e = ground (arith, exists_of_Has p a rs h e)

  pub Has-append : (a : A) (rs : List A) (r : A) → Has a rs → Has a (rs ++ r ∷ [])
  Has-append a [] r h = absurd h
  Has-append a (x ∷ rs) r (inl e) = inl e
  Has-append a (x ∷ rs) r (inr h) = inr (Has-append a rs r h)

  pub Has-append_last : (rs : List A) (r : A) → Has r (rs ++ r ∷ [])
  Has-append_last [] r = inl refl
  Has-append_last (x ∷ rs) r = inr (Has-append_last rs r)

  -- A row that an update does not touch stays.
  pub Has-update_other :
      (p : A → Bool) (f : A → A) (a : A) (rs : List A)
      → Has a rs
      → p a ≡ false
      → Has a (update p f rs)
  unfolding update
  Has-update_other p f a [] h e = absurd h
  Has-update_other p f a (x ∷ rs) (inl same) e = ground arith
  Has-update_other p f a (x ∷ rs) (inr h) e = inr (Has-update_other p f a rs h e)

  -- A row that an update touches stands there changed.
  pub Has-update_self :
      (p : A → Bool) (f : A → A) (a : A) (rs : List A)
      → Has a rs
      → p a ≡ true
      → Has (f a) (update p f rs)
  unfolding update
  Has-update_self p f a [] h e = absurd h
  Has-update_self p f a (x ∷ rs) (inl same) e = ground arith
  Has-update_self p f a (x ∷ rs) (inr h) e = inr (Has-update_self p f a rs h e)

  select-Has : (p : A → Bool) (rs : List A) (a : A) → Has a rs → p a ≡ true → Has a (select p rs)
  unfolding select
  select-Has p [] a h e = absurd h
  select-Has p (x ∷ rs) a (inl same) e = ground arith
  select-Has p (x ∷ rs) a (inr h) e = ground (arith, select-Has p rs a h e)

  scalar_of_alone :
      (rs : List A) (a : A) → Has a rs → length rs ≤ 1 → scalar_one_or_none rs ≡ ok (some a)
  unfolding scalar_one_or_none
  scalar_of_alone [] a h c = absurd h
  scalar_of_alone (x ∷ []) a (inl e) c = rw e
  scalar_of_alone (x ∷ []) a (inr h) c = absurd h
  scalar_of_alone (x ∷ y ∷ rs) a h c = absurd (omega arith)

  -- The query for a row that stands alone in its condition returns it.
  pub one_or_none_of_Has :
      (p : A → Bool) (a : A) (rs : List A)
      → Has a rs
      → p a ≡ true
      → count p rs ≤ 1
      → scalar_one_or_none (select p rs) ≡ ok (some a)
  unfolding count
  one_or_none_of_Has p a rs h e c = scalar_of_alone (select p rs) a (select-Has p rs a h e) c

module _ {A : Type 0} where
  none_of_empty :
      (p : A → Bool) (rs : List A) (a : A) → select p rs ≡ [] → All (λ r. p r ≡ true → r ≡ a) rs
  unfolding select
  none_of_empty p [] a h = tt
  none_of_empty p (x ∷ rs) a h = ground (arith, h, none_of_empty p rs a)

  one_of_scalar : (rs : List A) (a : A) → scalar_one_or_none rs ≡ ok (some a) → rs ≡ a ∷ []
  unfolding scalar_one_or_none
  one_of_scalar rs a h = ground arith

  only_of_select :
      (p : A → Bool) (rs : List A) (a : A) → select p rs ≡ a ∷ [] → All (λ r. p r ≡ true → r ≡ a) rs
  unfolding select
  only_of_select p [] a h = tt
  only_of_select p (x ∷ rs) a h = ground (arith, h, only_of_select p rs a, none_of_empty p rs a)

  -- The row that a query returns is the only one that fits.
  pub one_or_none-only :
      (p : A → Bool) (rs : List A) (a : A)
      → scalar_one_or_none (select p rs) ≡ ok (some a)
      → All (λ r. p r ≡ true → r ≡ a) rs
  one_or_none-only p rs a h = only_of_select p rs a (one_of_scalar (select p rs) a h)

  -- The row that a query returns is the one row that fits.
  pub one_or_none-count :
      (p : A → Bool) (rs : List A) (a : A)
      → scalar_one_or_none (select p rs) ≡ ok (some a)
      → count p rs ≡ 1
  unfolding count
  one_or_none-count p rs a h = ap length (one_of_scalar (select p rs) a h)

module _ {A : Type 0} (P : A → Type 0) where
  pub All_of_Has : (a : A) (rs : List A) → All P rs → Has a rs → P a
  All_of_Has a [] h k = absurd k
  All_of_Has a (x ∷ rs) h (inl e) = rw e h.0
  All_of_Has a (x ∷ rs) h (inr k) = All_of_Has a rs h.1 k

  pub All-update :
      (p : A → Bool) (f : A → A) (rs : List A)
      → ((r : A) → P r → p r ≡ true → P (f r))
      → All P rs
      → All P (update p f rs)
  unfolding update
  All-update p f [] k h = tt
  All-update p f (x ∷ rs) k h = ground (arith, All-update p f rs k h.1, k x h.0)

  pub All-delete : (p : A → Bool) (rs : List A) → All P rs → All P (delete p rs)
  unfolding delete
  All-delete p [] h = tt
  All-delete p (x ∷ rs) h = ground (arith, All-delete p rs h.1)
