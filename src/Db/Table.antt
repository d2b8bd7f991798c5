-- ===== src/Db/Table.antt =====
-- The SQL statements of the services, on a table as the list of its rows in insertion order.
-- `Count` and `Rows` hold the laws that the services' proofs use.
pub mod Count
pub mod Rows
use atlascore.Base.{
  Bool, true, false, List, [], ◌∷◌, ◌++◌, Option, none, some, Result, ok, err, Error, if◌then◌else◌,
  ◌||◌, ℕ, length, ◌≡◌, ◌⊎◌,
}

module _ {A : Type 0} where
  -- SELECT … WHERE
  unfoldable pub select : (A → Bool) → List A → List A
  select p [] = []
  select p (r ∷ rs) = let rest = select p rs in if p r then r ∷ rest else rest

  -- UPDATE … SET … WHERE
  unfoldable pub update : (A → Bool) → (A → A) → List A → List A
  update p f [] = []
  update p f (r ∷ rs) = (if p r then f r else r) ∷ update p f rs

  -- DELETE … WHERE
  unfoldable pub delete : (A → Bool) → List A → List A
  delete p [] = []
  delete p (r ∷ rs) = let rest = delete p rs in if p r then rest else r ∷ rest

  -- whether some row fits, as a unique index asks before an insertion
  unfoldable pub exists : (A → Bool) → List A → Bool
  exists p [] = false
  exists p (r ∷ rs) = p r || exists p rs

  -- SELECT count(*) … WHERE
  unfoldable pub count : (A → Bool) → List A → ℕ
  unfolding select
  count p rs = length (select p rs)

  -- Result.scalar_one_or_none: it raises where several rows are returned
  unfoldable pub scalar_one_or_none : List A → Result (Option A)
  scalar_one_or_none [] = ok none
  scalar_one_or_none (r ∷ []) = ok (some r)
  scalar_one_or_none (r ∷ s ∷ rs) = err Error.multiple_results_found

  -- the row stands in the table
  abbrev pub Has : A → List A → Type 0
  Has a [] = ⊥
  Has a (r ∷ rs) = (a ≡ r) ⊎ Has a rs
