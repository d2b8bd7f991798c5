-- ===== src/Tests/SearchRuns.antt =====
-- Runs of backend/app/retrieval, with scores in millionths.
use atlascore.Base.{ℕ, ◌+◌, ◌/◌, ◌==◌, ◌≡◌, refl, List, [], ◌∷◌, ltb, arith, All}
use atlascore.Retrieval.Hybrid.{
  Floats, LexicalCandidate, VectorCandidate, RetrievalResult, before, touch, add_lexical,
  add_vector, insert_slot, sort_slots, results_of, reciprocal_rank_fusion,
}
use atlascore.Retrieval.Hybrid.Ranking.{IsOrder, IsNegation, IsRanked, fusion-IsRanked}
use atlascore.Retrieval.Hybrid.Formula.{IsScored, lexical_ids, vector_ids, fusion-IsScored}
use atlascore.Tests.Examples.{plain, tally}

-- a score as what is above zero and what is below
abbrev Score : Type 0
Score = ℕ × ℕ

abbrev millionths : Floats Score
millionths = record {
  zero_score = (0, 0);
  add = λ a b. (a.0 + b.0, a.1 + b.1);
  reciprocal = λ n. (1000000 / n, 0);
  negate = λ a. (a.1, a.0);
  same = λ a b. a.0 + b.1 == b.0 + a.1;
  less = λ a b. ltb (a.0 + b.1) (b.0 + a.1);
  text_less = λ s t. ltb (tally s) (tally t);
}

millionths-IsNegation : IsNegation plain millionths
millionths-IsNegation = record {
  turns = λ a b. ground arith;
  keeps_same = λ a b. ground arith;
  apart = λ a b h. ground (arith, h);
}

abbrev lexical_hit_on : ℕ → LexicalCandidate Score
lexical_hit_on id = record {
  chunk_id = id;
  document_id = 1;
  document_version_id = 2;
  source_id = 3;
  document_title = "leave";
  source_name = "handbook";
  version_number = 1;
  chunk_index = 0;
  content = "text";
  lexical_score = (7, 0);
}

abbrev vector_hit_on : ℕ → VectorCandidate Score
vector_hit_on id = record {
  chunk_id = id;
  document_id = 1;
  document_version_id = 2;
  source_id = 3;
  document_title = "leave";
  source_name = "handbook";
  version_number = 1;
  chunk_index = 0;
  content = "text";
  vector_score = (9, 0);
}

abbrev found_by_words : List (LexicalCandidate Score)
found_by_words = lexical_hit_on 1 ∷ lexical_hit_on 2 ∷ []

abbrev found_by_vectors : List (VectorCandidate Score)
found_by_vectors = vector_hit_on 2 ∷ vector_hit_on 3 ∷ []

millionths-IsOrder : IsOrder plain millionths
unfolding before
millionths-IsOrder = record {
  asymmetric = λ a b h. ground (arith, h);
  transitive = λ a b c h k. ground (arith, h, k);
}

abbrev ids : List (RetrievalResult Score) → List ℕ
ids [] = []
ids (r ∷ rs) = r.chunk_id ∷ ids rs

-- The chunk that both searches found comes first.
fused :
    ids (reciprocal_rank_fusion plain millionths found_by_words found_by_vectors 60 2) ≡ 2 ∷ 1 ∷ []
unfolding reciprocal_rank_fusion results_of sort_slots add_vector touch add_lexical insert_slot
    before
fused = refl

fusion-IsRanked_example :
    IsRanked plain millionths 2
      (reciprocal_rank_fusion plain millionths found_by_words found_by_vectors 60 2)
fusion-IsRanked_example =
    fusion-IsRanked plain millionths millionths-IsOrder millionths-IsNegation found_by_words
      found_by_vectors 60 2

fusion-IsScored_example :
    All
      (IsScored plain millionths 60 (lexical_ids found_by_words) (vector_ids found_by_vectors))
      (reciprocal_rank_fusion plain millionths found_by_words found_by_vectors 60 2)
fusion-IsScored_example =
    fusion-IsScored plain millionths 60 found_by_words found_by_vectors 2 ((refl, tt), (tt, tt))
      ((refl, tt), (tt, tt))
