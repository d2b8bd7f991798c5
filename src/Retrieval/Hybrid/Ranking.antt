-- ===== src/Retrieval/Hybrid/Ranking.antt =====
-- What a fusion of two candidate lists returns (retrieval/hybrid.py): how many results, each chunk
-- once, in the order of the scores.
use atlascore.Base.{
  ℕ, zero, suc, ◌==◌, ◌≤◌, ◌≡◌, true, false, List, [], ◌∷◌, take, length, arith, All, All-map, inl,
  inr, Bool-cases,
}
use atlascore.Platform.{Platform}
use atlascore.Retrieval.Hybrid.{
  Floats, FusionSlot, LexicalCandidate, VectorCandidate, RetrievalResult, result_of, results_of,
  add_lexical, add_vector, before, insert_slot, sort_slots, reciprocal_rank_fusion,
}
use atlascore.Retrieval.Hybrid.Slots.{
  All-both, IsFresh, IsDistinct, add_lexical-IsDistinct, add_vector-IsDistinct,
}

module _ {F : Type 0} (py : Platform) (fl : Floats F) where
  pub All-insert_slot :
      (P : FusionSlot F → Type 0) (s : FusionSlot F) (ts : List (FusionSlot F))
      → P s
      → All P ts
      → All P (insert_slot py fl s ts)
  unfolding insert_slot
  All-insert_slot P s [] p h = (p, tt)
  All-insert_slot P s (t ∷ ts) p h =
      elim (Bool-cases (before py fl (t.hybrid_score, t.chunk_id) (s.hybrid_score, s.chunk_id))) [
        | inl e ↦ rw e (h.0, All-insert_slot P s ts p h.1)
        | inr e ↦ rw e (p, h)
      ]

  pub All-sort_slots :
      (P : FusionSlot F → Type 0) (ss : List (FusionSlot F))
      → All P ss
      → All P (sort_slots py fl ss)
  unfolding sort_slots
  All-sort_slots P [] h = tt
  All-sort_slots P (s ∷ ss) h =
      All-insert_slot P s (sort_slots py fl ss) h.0 (All-sort_slots P ss h.1)

  insert_slot-IsDistinct :
      (s : FusionSlot F) (ts : List (FusionSlot F))
      → IsFresh s.chunk_id ts
      → IsDistinct ts
      → IsDistinct (insert_slot py fl s ts)
  unfolding insert_slot
  insert_slot-IsDistinct s [] f d = (tt, tt)
  insert_slot-IsDistinct s (t ∷ ts) f d =
      elim (Bool-cases (before py fl (t.hybrid_score, t.chunk_id) (s.hybrid_score, s.chunk_id))) [
        | inl e ↦ rw e (
          All-insert_slot (λ x. (x.chunk_id == t.chunk_id) ≡ false) s ts (ground (arith, f.0)) d.0,
          insert_slot-IsDistinct s ts f.1 d.1,
        )
        | inr e ↦ rw e (f, d)
      ]

  sort_slots-IsDistinct :
      (ss : List (FusionSlot F)) → IsDistinct ss → IsDistinct (sort_slots py fl ss)
  unfolding sort_slots
  sort_slots-IsDistinct [] d = tt
  sort_slots-IsDistinct (s ∷ ss) d =
      insert_slot-IsDistinct s (sort_slots py fl ss)
        (All-sort_slots (λ t. (t.chunk_id == s.chunk_id) ≡ false) ss d.0)
        (sort_slots-IsDistinct ss d.1)

  -- The keys are in a strict weak order, as tuples of a float that is a number and of a text are.
  pub record IsOrder : Type 0 where
    pub asymmetric : (a b : F × ℕ) → before py fl a b ≡ true → before py fl b a ≡ false
    pub transitive :
        (a b c : F × ℕ)
        → before py fl b a ≡ false
        → before py fl c b ≡ false
        → before py fl c a ≡ false

  abbrev pub NotBefore : FusionSlot F → FusionSlot F → Type 0
  NotBefore s t = before py fl (t.hybrid_score, t.chunk_id) (s.hybrid_score, s.chunk_id) ≡ false

  abbrev pub IsSorted : List (FusionSlot F) → Type 0
  IsSorted [] = Unit
  IsSorted (s ∷ ss) = All (NotBefore s) ss × IsSorted ss

  insert_slot-IsSorted :
      (o : IsOrder) (s : FusionSlot F) (ts : List (FusionSlot F))
      → IsSorted ts
      → IsSorted (insert_slot py fl s ts)
  unfolding insert_slot
  insert_slot-IsSorted o s [] h = (tt, tt)
  insert_slot-IsSorted o s (t ∷ ts) h =
      elim (Bool-cases (before py fl (t.hybrid_score, t.chunk_id) (s.hybrid_score, s.chunk_id))) [
        | inl e ↦ rw e (
          All-insert_slot (NotBefore t) s ts
              (o.asymmetric (t.hybrid_score, t.chunk_id) (s.hybrid_score, s.chunk_id) e) h.0,
          insert_slot-IsSorted o s ts h.1,
        )
        | inr e ↦ rw e (
          (
            e,
            All-map ts
                (λ u k.
                  o.transitive (s.hybrid_score, s.chunk_id) (t.hybrid_score, t.chunk_id)
                    (u.hybrid_score, u.chunk_id) e k)
                h.0,
          ),
          h,
        )
      ]

  sort_slots-IsSorted : (o : IsOrder) (ss : List (FusionSlot F)) → IsSorted (sort_slots py fl ss)
  unfolding sort_slots
  sort_slots-IsSorted o [] = tt
  sort_slots-IsSorted o (s ∷ ss) =
      insert_slot-IsSorted o s (sort_slots py fl ss) (sort_slots-IsSorted o ss)

  -- The negation of a float turns the order of the floats round, and no two floats that are equal
  -- are one below the other.
  pub record IsNegation : Type 0 where
    pub turns : (a b : F) → fl.less (fl.negate a) (fl.negate b) ≡ fl.less b a
    pub keeps_same : (a b : F) → fl.same (fl.negate a) (fl.negate b) ≡ fl.same a b
    pub apart : (a b : F) → fl.same a b ≡ true → fl.less b a ≡ false

  -- The first of two results has not the lower score; where the scores are equal, the text of the
  -- second one's id is not below that of the first one's.
  abbrev pub IsAhead : RetrievalResult F → RetrievalResult F → Type 0
  IsAhead r t =
      (fl.less r.hybrid_score t.hybrid_score ≡ false)
      × (fl.same t.hybrid_score r.hybrid_score ≡ true
          → fl.text_less (py.uuid.show t.chunk_id) (py.uuid.show r.chunk_id) ≡ false)

  not_before-IsAhead :
      (n : IsNegation) (r t : RetrievalResult F)
      → before py fl (t.hybrid_score, t.chunk_id) (r.hybrid_score, r.chunk_id) ≡ false
      → IsAhead r t
  unfolding before
  not_before-IsAhead n r t h = elim (Bool-cases (fl.same t.hybrid_score r.hybrid_score)) [
    | inl e ↦ (
      n.apart t.hybrid_score r.hybrid_score e,
      λ k. ground (arith, n.keeps_same t.hybrid_score r.hybrid_score, e, h),
    )
    | inr e ↦ (
      ground (
        arith,
        n.keeps_same t.hybrid_score r.hybrid_score,
        n.turns t.hybrid_score r.hybrid_score,
        e,
        h,
      ),
      λ k. absurd (ground (arith, e, k)),
    )
  ]

  -- The results are at most `limit`; no two are of one chunk, and each is ahead of those behind it.
  abbrev pub IsRankedList : List (RetrievalResult F) → Type 0
  IsRankedList [] = Unit
  IsRankedList (r ∷ rs) =
      All (λ t. ((t.chunk_id == r.chunk_id) ≡ false) × IsAhead r t) rs × IsRankedList rs

  abbrev pub IsRanked : ℕ → List (RetrievalResult F) → Type 0
  IsRanked limit rs = (length rs ≤ limit) × IsRankedList rs

  pub All-results_of :
      (P : RetrievalResult F → Type 0) (n : ℕ) (ss : List (FusionSlot F))
      → All (λ s. P (result_of s)) ss
      → All P (results_of (take n ss))
  unfolding results_of
  All-results_of P zero ss h = tt
  All-results_of P (suc n) [] h = tt
  All-results_of P (suc n) (s ∷ ss) h = (h.0, All-results_of P n ss h.1)

  results_of-IsRanked :
      (g : IsNegation) (n : ℕ) (ss : List (FusionSlot F))
      → IsDistinct ss
      → IsSorted ss
      → IsRanked n (results_of (take n ss))
  unfolding results_of
  results_of-IsRanked g zero ss d h = (omega arith, tt)
  results_of-IsRanked g (suc n) [] d h = (omega arith, tt)
  results_of-IsRanked g (suc n) (s ∷ ss) d h =
      let rest = results_of-IsRanked g n ss d.1 h.1 in
      (
        omega (arith, rest.0),
        (
          All-results_of (λ t. ((t.chunk_id == s.chunk_id) ≡ false) × IsAhead (result_of s) t) n ss
              (All-both (λ t. (t.chunk_id == s.chunk_id) ≡ false)
                (λ t. IsAhead (result_of s) (result_of t)) ss d.0
                (All-map ss (λ t k. not_before-IsAhead g (result_of s) (result_of t) k) h.0)),
          rest.1,
        ),
      )

  -- Where the keys of the sort are in a strict weak order, and negation turns the order of the
  -- scores round, a fusion returns at most `limit` results, each chunk at most once, even if a
  -- candidate list repeats it, with the highest scores first: no result has a higher score than one
  -- ahead of it, and those of equal scores are in the order of the texts of their ids.
  pub fusion-IsRanked :
      (o : IsOrder) (g : IsNegation) (lexical : List (LexicalCandidate F))
      (vector : List (VectorCandidate F)) (k limit : ℕ)
      → IsRanked limit (reciprocal_rank_fusion py fl lexical vector k limit)
  unfolding reciprocal_rank_fusion
  fusion-IsRanked o g lexical vector k limit =
      let lexical_slots = add_lexical py fl k 1 lexical [] in
      let slots = add_vector py fl k 1 vector lexical_slots in
      results_of-IsRanked g limit (sort_slots py fl slots)
        (sort_slots-IsDistinct slots (
          add_vector-IsDistinct py fl k 1 vector lexical_slots
            (add_lexical-IsDistinct py fl k 1 lexical [] tt)))
        (sort_slots-IsSorted o slots)
