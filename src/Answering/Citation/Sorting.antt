-- ===== src/Answering/Citation/Sorting.antt =====
-- The order of the citations of an answer, and that none is repeated (answering/citation.py).
use atlascore.Base.{
  ◌+◌, ◌≤◌, leb, ◌≡◌, refl, String, Bool, true, false, List, [], ◌∷◌, Result, ok, err, str_eq,
  str_eq_iff, ap, contains, if◌then◌else◌, arith, All, All-map, inl, inr, Bool-cases,
}
use atlascore.Db.Table.{count, select}
use atlascore.Answering.Citation.{Patterns, Citation, insert_sorted, sort_onto, add_citation}

-- Every citation of a result satisfies `P`; an error has none.
abbrev pub AllOk : (Citation → Type 0) → Result (List Citation) → Type 0
AllOk P (ok cs) = All P cs
AllOk P (err e) = Unit

module _ (P : Citation → Type 0) where
  pub All-add :
      (seen : Bool) (c : Citation) (r : Result (List Citation))
      → P c
      → AllOk P r
      → AllOk P (add_citation seen c r)
  unfolding add_citation
  All-add seen c (err e) p h = tt
  All-add true c (ok cs) p h = h
  All-add false c (ok cs) p h = (p, h)

  pub All-insert :
      (re : Patterns) (c : Citation) (ds : List Citation)
      → P c
      → All P ds
      → All P (insert_sorted re c ds)
  unfolding insert_sorted
  All-insert re c [] p h = (p, tt)
  All-insert re c (d ∷ ds) p h =
      elim (Bool-cases (leb (re.number d.citation_id) (re.number c.citation_id))) [
        | inl e ↦ rw e (h.0, All-insert re c ds p h.1)
        | inr e ↦ rw e (p, h)
      ]

  pub All-sort :
      (re : Patterns) (cs sorted : List Citation)
      → All P cs
      → All P sorted
      → All P (sort_onto re cs sorted)
  unfolding sort_onto
  All-sort re [] sorted h k = k
  All-sort re (c ∷ cs) sorted h k =
      All-sort re cs (insert_sorted re c sorted) h.1 (All-insert re c sorted h.0 k)

-- Each citation has a number that is not above those of the citations behind it.
abbrev pub IsSorted : Patterns → List Citation → Type 0
IsSorted re [] = Unit
IsSorted re (c ∷ cs) =
    All (λ d. re.number c.citation_id ≤ re.number d.citation_id) cs × IsSorted re cs

pub insert-IsSorted :
    (re : Patterns) (c : Citation) (ds : List Citation)
    → IsSorted re ds
    → IsSorted re (insert_sorted re c ds)
unfolding insert_sorted
insert-IsSorted re c [] h = (tt, tt)
insert-IsSorted re c (d ∷ ds) h =
    elim (Bool-cases (leb (re.number d.citation_id) (re.number c.citation_id))) [
      | inl e ↦ rw e (
        All-insert (λ x. re.number d.citation_id ≤ re.number x.citation_id) re c ds (ground arith)
            h.0,
        insert-IsSorted re c ds h.1,
      )
      | inr e ↦
          let less : re.number c.citation_id ≤ re.number d.citation_id = ground arith in
          rw e ((less, All-map ds (λ x k. omega (arith, k, less)) h.0), h)
    ]

pub sort-IsSorted :
    (re : Patterns) (cs sorted : List Citation)
    → IsSorted re sorted
    → IsSorted re (sort_onto re cs sorted)
unfolding sort_onto
sort-IsSorted re [] sorted h = h
sort-IsSorted re (c ∷ cs) sorted h =
    sort-IsSorted re cs (insert_sorted re c sorted) (insert-IsSorted re c sorted h)

abbrev pub same_id : String → Citation → Bool
same_id id c = str_eq c.citation_id id

count-insert :
    (p : Citation → Bool) (re : Patterns) (c : Citation) (ds : List Citation)
    → count p (insert_sorted re c ds) ≡ count p ds + (if p c then 1 else 0)
unfolding insert_sorted count select
count-insert p re c [] = ground arith
count-insert p re c (d ∷ ds) = ground (arith, count-insert p re c ds)

pub count_nil : (p : Citation → Bool) → count p [] ≡ 0
unfolding count select
count_nil p = refl

pub count_cons :
    (p : Citation → Bool) (c : Citation) (cs : List Citation)
    → count p (c ∷ cs) ≡ count p cs + (if p c then 1 else 0)
unfolding count select
count_cons p c cs = ground arith

pub count-sort :
    (p : Citation → Bool) (re : Patterns) (cs sorted : List Citation)
    → count p (sort_onto re cs sorted) ≡ count p cs + count p sorted
unfolding sort_onto
count-sort p re [] sorted = omega (arith, count_nil p)
count-sort p re (c ∷ cs) sorted = omega (
  arith,
  count-sort p re cs (insert_sorted re c sorted),
  count-insert p re c sorted,
  count_cons p c cs,
)

-- What the loop returns holds each identifier once, and none that it had seen before.
abbrev pub IsFresh : List String → Result (List Citation) → Type 0
IsFresh seen (err e) = Unit
IsFresh seen (ok cs) =
    (id : String)
    → (count (same_id id) cs ≤ 1) × (contains id seen ≡ true → count (same_id id) cs ≡ 0)

different :
    (a b : String) (seen : List String)
    → contains a seen ≡ false
    → contains b seen ≡ true
    → a ≡ b
    → ⊥
different a b seen new old same = ground (arith, ap (λ t. contains t seen) same, new, old)

module _ (seen : List String) (c : Citation) (cs : List Citation)
    (h : IsFresh (c.citation_id ∷ seen) (ok cs)) where
  once : (id : String) → count (same_id id) (c ∷ cs) ≤ 1
  once id = elim (Bool-cases (str_eq c.citation_id id)) [
    | inl e ↦ ground (arith, e, count_cons (same_id id) c cs, (h id).1 (rw e refl))
    | inr e ↦ ground (arith, e, count_cons (same_id id) c cs, (h id).0)
  ]

  unseen :
      contains c.citation_id seen ≡ false
      → (id : String) → contains id seen ≡ true
      → count (same_id id) (c ∷ cs) ≡ 0
  unseen new id k = elim (Bool-cases (str_eq c.citation_id id)) [
    | inl e ↦ absurd (different c.citation_id id seen new k ((str_eq_iff c.citation_id id).0 e))
    | inr e ↦ ground (arith, e, count_cons (same_id id) c cs, (h id).1 (rw e k))
  ]

pub add-IsFresh :
    (seen : List String) (c : Citation) (r : Result (List Citation))
    → IsFresh (c.citation_id ∷ seen) r
    → IsFresh seen (add_citation (contains c.citation_id seen) c r)
unfolding add_citation
add-IsFresh seen c (err e) h = tt
add-IsFresh seen c (ok cs) h = elim (Bool-cases (contains c.citation_id seen)) [
  | inl e ↦ rw e (λ id. ((h id).0, λ k. (h id).1 (ground (arith, k))))
  | inr e ↦ rw e (λ id. (once seen c cs h id, unseen seen c cs h e id))
]
