-- ===== src/Retrieval/Hybrid/Formula.antt =====
-- The scores of a fusion against the formula of reciprocal rank fusion (retrieval/hybrid.py).
use atlascore.Base.{
  ℕ, suc, ◌+◌, ◌==◌, ◌≡◌, refl, sym, ap, ◌∙◌, true, false, Option, none, some, List, [], ◌∷◌, arith,
  All, All-map, inl, inr, ◌⊎◌, if◌then◌else◌,
}
use atlascore.Platform.{Platform}
use atlascore.Retrieval.Hybrid.{
  Floats, FusionSlot, LexicalCandidate, VectorCandidate, RetrievalResult, touch, result_of,
  lexical_slot, vector_slot, lexical_hit, vector_hit, add_lexical, add_vector, sort_slots,
  reciprocal_rank_fusion,
}
use atlascore.Retrieval.Hybrid.Slots.{
  IsFresh, IsDistinct, All-touch, touch-IsDistinct, add_lexical-IsDistinct, IsFresh-touch,
}
use atlascore.Retrieval.Hybrid.Ranking.{All-sort_slots, All-results_of}

-- the rank of a chunk among candidates, the first of which has the rank that is given
pub rank_of : ℕ → ℕ → List ℕ → Option ℕ
rank_of rank id [] = none
rank_of rank id (c ∷ cs) =
    let later = rank_of (suc rank) id cs in if c == id then some rank else later

rank-here : (rank id c : ℕ) (cs : List ℕ) → (c == id) ≡ true → rank_of rank id (c ∷ cs) ≡ some rank
unfolding rank_of
rank-here rank id c cs e = rw e refl

rank-later :
    (rank id c : ℕ) (cs : List ℕ)
    → (c == id) ≡ false
    → rank_of rank id (c ∷ cs) ≡ rank_of (suc rank) id cs
unfolding rank_of
rank-later rank id c cs e = rw e refl

rank_nil : (rank id : ℕ) → rank_of rank id [] ≡ none
unfolding rank_of
rank_nil rank id = refl

abbrev pub IsAway : ℕ → List ℕ → Type 0
IsAway id ids = All (λ c. (c == id) ≡ false) ids

-- A search returns a chunk once.
abbrev pub HasNoRepeats : List ℕ → Type 0
HasNoRepeats [] = Unit
HasNoRepeats (c ∷ cs) = IsAway c cs × HasNoRepeats cs

module _ {F : Type 0} where
  abbrev pub lexical_ids : List (LexicalCandidate F) → List ℕ
  lexical_ids [] = []
  lexical_ids (c ∷ cs) = c.chunk_id ∷ lexical_ids cs

  abbrev pub vector_ids : List (VectorCandidate F) → List ℕ
  vector_ids [] = []
  vector_ids (c ∷ cs) = c.chunk_id ∷ vector_ids cs

module _ {F : Type 0} (py : Platform) (fl : Floats F) (k : ℕ) where
  -- one summand of the formula, which a list without the chunk does not have
  abbrev pub plus : F → Option ℕ → F
  plus score none = score
  plus score (some rank) = fl.add score (fl.reciprocal (k + rank))

  -- `t` gives the lexical ranks; `rest` are the candidates that are still to come.
  record IsLexical (t : ℕ → Option ℕ) (rest : List ℕ) (s : FusionSlot F) : Type 0 where
    unhit : s.vector_rank ≡ none
    score : s.hybrid_score ≡ plus fl.zero_score s.lexical_rank
    rank : s.lexical_rank ≡ t s.chunk_id
    away : IsAway s.chunk_id rest

  add_lexical-IsLexical :
      (t : ℕ → Option ℕ) (rank : ℕ) (cs : List (LexicalCandidate F)) (slots : List (FusionSlot F))
      → IsDistinct slots
      → HasNoRepeats (lexical_ids cs)
      → ((id : ℕ) → IsFresh id slots → t id ≡ rank_of rank id (lexical_ids cs))
      → All (IsLexical t (lexical_ids cs)) slots
      → All (IsLexical t []) (add_lexical py fl k rank cs slots)
        × ((id : ℕ) → IsFresh id (add_lexical py fl k rank cs slots) → t id ≡ none)
  unfolding add_lexical
  add_lexical-IsLexical t rank [] slots d n known h = (h, λ id f. known id f ∙ rank_nil rank id)
  add_lexical-IsLexical t rank (c ∷ cs) slots d n known h =
      let new = lexical_slot py fl c in
      let change = lexical_hit py fl k rank c.lexical_score in
      add_lexical-IsLexical t (suc rank) cs (touch new change slots)
        (touch-IsDistinct new change (λ s. refl) slots d) n.1
        (λ id f.
          let u = IsFresh-touch new change (λ s. refl) id slots f in
          known id u.0 ∙ rank-later rank id c.chunk_id (lexical_ids cs) u.1)
        (All-touch new change (λ s. refl) (IsLexical t (c.chunk_id ∷ lexical_ids cs))
          (IsLexical t (lexical_ids cs)) slots d h
          (λ s p m. record { unhit = p.unhit; score = p.score; rank = p.rank; away = p.away.1 })
          (λ s p e. absurd (let a = p.away.0 in ground (arith, e, a)))
          (λ f. record {
            unhit = refl;
            score = refl;
            rank = sym (
                known c.chunk_id f
                ∙ rank-here rank c.chunk_id c.chunk_id (lexical_ids cs) (ground arith));
            away = n.0;
          }))

  -- `u` gives the vector ranks.
  record IsVector (t u : ℕ → Option ℕ) (next : ℕ) (rest : List ℕ) (s : FusionSlot F) : Type 0 where
    score : s.hybrid_score ≡ plus (plus fl.zero_score s.lexical_rank) s.vector_rank
    rank : s.lexical_rank ≡ t s.chunk_id
    hit :
        ((s.vector_rank ≡ u s.chunk_id) × IsAway s.chunk_id rest)
        ⊎ ((s.vector_rank ≡ none) × (u s.chunk_id ≡ rank_of next s.chunk_id rest))

  starts :
      (t u : ℕ → Option ℕ) (vector : List ℕ)
      → ((id : ℕ) → u id ≡ rank_of 1 id vector)
      → (s : FusionSlot F) → IsLexical t [] s
      → IsVector t u 1 vector s
  starts t u vector known s p = record {
    score = p.score ∙ sym (ap (plus (plus fl.zero_score s.lexical_rank)) p.unhit);
    rank = p.rank;
    hit = inr (p.unhit, known s.chunk_id);
  }

  miss :
      (t u : ℕ → Option ℕ) (rank c : ℕ) (cs : List ℕ) (s : FusionSlot F)
      → IsVector t u rank (c ∷ cs) s
      → (s.chunk_id == c) ≡ false
      → IsVector t u (suc rank) cs s
  miss t u rank c cs s p m = record {
    score = p.score;
    rank = p.rank;
    hit = elim p.hit [
      | inl a ↦ inl (a.0, a.1.1)
      | inr b ↦ inr (b.0, b.1 ∙ rank-later rank s.chunk_id c cs (ground (arith, m)))
    ];
  }

  strike :
      (t u : ℕ → Option ℕ) (rank : ℕ) (c : VectorCandidate F) (cs : List ℕ)
      → IsAway c.chunk_id cs
      → (s : FusionSlot F) → IsVector t u rank (c.chunk_id ∷ cs) s
      → (s.chunk_id == c.chunk_id) ≡ true
      → IsVector t u (suc rank) cs (vector_hit py fl k rank c.vector_score s)
  strike t u rank c cs away s p e = elim p.hit [
    | inl a ↦ absurd (let there = a.1.0 in ground (arith, e, there))
    | inr b ↦ record {
      score =
          ap (λ x. fl.add x (fl.reciprocal (k + rank)))
            (p.score ∙ ap (plus (plus fl.zero_score s.lexical_rank)) b.0);
      rank = p.rank;
      hit = inl (
        sym (b.1 ∙ rank-here rank s.chunk_id c.chunk_id cs (ground (arith, e))),
        All-map cs (λ x q. ground (arith, e, q)) away,
      );
    }
  ]

  add_vector-IsVector :
      (t u : ℕ → Option ℕ) (rank : ℕ) (cs : List (VectorCandidate F)) (slots : List (FusionSlot F))
      → IsDistinct slots
      → HasNoRepeats (vector_ids cs)
      → ((id : ℕ) → IsFresh id slots → (t id ≡ none) × (u id ≡ rank_of rank id (vector_ids cs)))
      → All (IsVector t u rank (vector_ids cs)) slots
      → (next : ℕ) × All (IsVector t u next []) (add_vector py fl k rank cs slots)
  unfolding add_vector
  add_vector-IsVector t u rank [] slots d n known h = (rank, h)
  add_vector-IsVector t u rank (c ∷ cs) slots d n known h =
      let new = vector_slot py fl c in
      let change = vector_hit py fl k rank c.vector_score in
      add_vector-IsVector t u (suc rank) cs (touch new change slots)
        (touch-IsDistinct new change (λ s. refl) slots d) n.1
        (λ id f.
          let v = IsFresh-touch new change (λ s. refl) id slots f in
          ((known id v.0).0, (known id v.0).1 ∙ rank-later rank id c.chunk_id (vector_ids cs) v.1))
        (All-touch new change (λ s. refl) (IsVector t u rank (c.chunk_id ∷ vector_ids cs))
          (IsVector t u (suc rank) (vector_ids cs)) slots d h
          (miss t u rank c.chunk_id (vector_ids cs)) (strike t u rank c (vector_ids cs) n.0)
          (λ f. record {
            score = refl;
            rank = sym (known c.chunk_id f).0;
            hit = inl (
              sym (
                  (known c.chunk_id f).1
                  ∙ rank-here rank c.chunk_id c.chunk_id (vector_ids cs) (ground arith)),
              n.0,
            );
          }))

  -- The ranks of a result are those of its chunk in the two lists, and its score is the formula's
  -- on these ranks.
  pub record IsScored (lexical vector : List ℕ) (r : RetrievalResult F) : Type 0 where
    lexical_agrees : r.lexical_rank ≡ rank_of 1 r.chunk_id lexical
    vector_agrees : r.vector_rank ≡ rank_of 1 r.chunk_id vector
    score_agrees :
        r.hybrid_score
        ≡ plus (plus fl.zero_score (rank_of 1 r.chunk_id lexical)) (rank_of 1 r.chunk_id vector)

  ends :
      (lexical vector : List ℕ) (next : ℕ) (s : FusionSlot F)
      → IsVector (λ id. rank_of 1 id lexical) (λ id. rank_of 1 id vector) next [] s
      → IsScored lexical vector (result_of s)
  ends lexical vector next s p =
      let v : s.vector_rank ≡ rank_of 1 s.chunk_id vector = elim p.hit [
        | inl a ↦ a.0
        | inr b ↦ b.0 ∙ sym (b.1 ∙ rank_nil next s.chunk_id)
      ] in
      record {
        lexical_agrees = p.rank;
        vector_agrees = v;
        score_agrees =
            p.score
            ∙ (ap (λ l. plus (plus fl.zero_score l) s.vector_rank) p.rank
                ∙ ap (plus (plus fl.zero_score (rank_of 1 s.chunk_id lexical))) v);
      }

  -- Where neither search returns a chunk twice, each result of a fusion has the rank of its chunk
  -- in each list, counted from 1, or none where the list lacks it, and its score is the sum, from
  -- zero, of `1 / (k + rank)` over the lists that have it.
  pub fusion-IsScored :
      (lexical : List (LexicalCandidate F)) (vector : List (VectorCandidate F)) (limit : ℕ)
      → HasNoRepeats (lexical_ids lexical)
      → HasNoRepeats (vector_ids vector)
      → All
          (IsScored (lexical_ids lexical) (vector_ids vector))
          (reciprocal_rank_fusion py fl lexical vector k limit)
  unfolding reciprocal_rank_fusion
  fusion-IsScored lexical vector limit n m =
      let t : ℕ → Option ℕ = λ id. rank_of 1 id (lexical_ids lexical) in
      let u : ℕ → Option ℕ = λ id. rank_of 1 id (vector_ids vector) in
      let slots = add_lexical py fl k 1 lexical [] in
      let first = add_lexical-IsLexical t 1 lexical [] tt n (λ id f. refl) tt in
      let second =
        add_vector-IsVector t u 1 vector slots (add_lexical-IsDistinct py fl k 1 lexical [] tt) m
          (λ id f. (first.1 id f, refl))
          (All-map slots (λ s p. starts t u (vector_ids vector) (λ id. refl) s p) first.0) in
      All-results_of py fl (IsScored (lexical_ids lexical) (vector_ids vector)) limit
        (sort_slots py fl (add_vector py fl k 1 vector slots))
        (All-sort_slots py fl
          (λ s. IsScored (lexical_ids lexical) (vector_ids vector) (result_of s))
          (add_vector py fl k 1 vector slots)
          (All-map (add_vector py fl k 1 vector slots)
            (ends (lexical_ids lexical) (vector_ids vector) second.0) second.1))
