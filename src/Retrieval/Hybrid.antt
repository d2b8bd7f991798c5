-- ===== src/Retrieval/Hybrid.antt =====
-- retrieval/hybrid.py: reciprocal rank fusion of the lexical and the vector candidates.
pub mod Slots
pub mod Ranking
pub mod Formula
use atlascore.Base.{
  ℕ, zero, suc, ◌+◌, ◌==◌, String, Bool, Option, none, some, List, [], ◌∷◌, take, if◌then◌else◌,
}
use atlascore.Platform.{Platform}

-- What the module takes from Python's floats and from the order of texts. `reciprocal n` is
-- `1.0 / n`.
pub record Floats (F : Type 0) : Type 0 where
  pub zero_score : F
  pub add : F → F → F
  pub reciprocal : ℕ → F
  pub negate : F → F
  pub same : F → F → Bool
  pub less : F → F → Bool
  pub text_less : String → String → Bool

module _ (F : Type 0) where
  pub record LexicalCandidate : Type 0 where
    pub chunk_id : ℕ
    pub document_id : ℕ
    pub document_version_id : ℕ
    pub source_id : ℕ
    pub document_title : String
    pub source_name : String
    pub version_number : ℕ
    pub chunk_index : ℕ
    pub content : String
    pub lexical_score : F

  pub record VectorCandidate : Type 0 where
    pub chunk_id : ℕ
    pub document_id : ℕ
    pub document_version_id : ℕ
    pub source_id : ℕ
    pub document_title : String
    pub source_name : String
    pub version_number : ℕ
    pub chunk_index : ℕ
    pub content : String
    pub vector_score : F

  -- `_FusionSlot`
  pub record FusionSlot : Type 0 where
    pub chunk_id : ℕ
    pub document_id : ℕ
    pub document_version_id : ℕ
    pub source_id : ℕ
    pub document_title : String
    pub source_name : String
    pub version_number : ℕ
    pub chunk_index : ℕ
    pub content : String
    pub lexical_score : Option F
    pub lexical_rank : Option ℕ
    pub vector_score : Option F
    pub vector_rank : Option ℕ
    pub hybrid_score : F

  -- without `metadata`, which is empty
  pub record RetrievalResult : Type 0 where
    pub chunk_id : ℕ
    pub document_id : ℕ
    pub document_version_id : ℕ
    pub source_id : ℕ
    pub document_title : String
    pub source_name : String
    pub version_number : ℕ
    pub chunk_index : ℕ
    pub content : String
    pub lexical_score : Option F
    pub lexical_rank : Option ℕ
    pub vector_score : Option F
    pub vector_rank : Option ℕ
    pub hybrid_score : F

module _ {F : Type 0} where
  -- the slot that an id has in the dictionary, or the new one, changed in place
  unfoldable pub touch :
      FusionSlot F → (FusionSlot F → FusionSlot F) → List (FusionSlot F) → List (FusionSlot F)
  touch new change [] = change new ∷ []
  touch new change (s ∷ slots) =
      let rest = touch new change slots in
      if s.chunk_id == new.chunk_id then change s ∷ slots else s ∷ rest

  abbrev pub result_of : FusionSlot F → RetrievalResult F
  result_of s = record {
    chunk_id = s.chunk_id;
    document_id = s.document_id;
    document_version_id = s.document_version_id;
    source_id = s.source_id;
    document_title = s.document_title;
    source_name = s.source_name;
    version_number = s.version_number;
    chunk_index = s.chunk_index;
    content = s.content;
    lexical_score = s.lexical_score;
    lexical_rank = s.lexical_rank;
    vector_score = s.vector_score;
    vector_rank = s.vector_rank;
    hybrid_score = s.hybrid_score;
  }

  -- the loop that makes the results
  unfoldable pub results_of : List (FusionSlot F) → List (RetrievalResult F)
  results_of [] = []
  results_of (s ∷ slots) = result_of s ∷ results_of slots

module _ {F : Type 0} (py : Platform) (fl : Floats F) where
  abbrev pub lexical_slot : LexicalCandidate F → FusionSlot F
  lexical_slot c = record {
    chunk_id = c.chunk_id;
    document_id = c.document_id;
    document_version_id = c.document_version_id;
    source_id = c.source_id;
    document_title = c.document_title;
    source_name = c.source_name;
    version_number = c.version_number;
    chunk_index = c.chunk_index;
    content = c.content;
    lexical_score = none;
    lexical_rank = none;
    vector_score = none;
    vector_rank = none;
    hybrid_score = fl.zero_score;
  }

  abbrev pub vector_slot : VectorCandidate F → FusionSlot F
  vector_slot c = record {
    chunk_id = c.chunk_id;
    document_id = c.document_id;
    document_version_id = c.document_version_id;
    source_id = c.source_id;
    document_title = c.document_title;
    source_name = c.source_name;
    version_number = c.version_number;
    chunk_index = c.chunk_index;
    content = c.content;
    lexical_score = none;
    lexical_rank = none;
    vector_score = none;
    vector_rank = none;
    hybrid_score = fl.zero_score;
  }

  abbrev pub lexical_hit : ℕ → ℕ → F → FusionSlot F → FusionSlot F
  lexical_hit k rank score s = record s {
    lexical_score = some score;
    lexical_rank = some rank;
    hybrid_score = fl.add s.hybrid_score (fl.reciprocal (k + rank));
  }

  abbrev pub vector_hit : ℕ → ℕ → F → FusionSlot F → FusionSlot F
  vector_hit k rank score s = record s {
    vector_score = some score;
    vector_rank = some rank;
    hybrid_score = fl.add s.hybrid_score (fl.reciprocal (k + rank));
  }

  -- the loops over the candidates, the first of which has the rank that is given
  unfoldable pub add_lexical :
      ℕ → ℕ → List (LexicalCandidate F) → List (FusionSlot F) → List (FusionSlot F)
  add_lexical k rank [] slots = slots
  add_lexical k rank (c ∷ cs) slots =
      add_lexical k (suc rank) cs
        (touch (lexical_slot c) (lexical_hit k rank c.lexical_score) slots)

  unfoldable pub add_vector :
      ℕ → ℕ → List (VectorCandidate F) → List (FusionSlot F) → List (FusionSlot F)
  add_vector k rank [] slots = slots
  add_vector k rank (c ∷ cs) slots =
      add_vector k (suc rank) cs (touch (vector_slot c) (vector_hit k rank c.vector_score) slots)

  -- `<` on the keys `(-s.hybrid_score, str(s.chunk_id))` of two chunks
  unfoldable pub before : F × ℕ → F × ℕ → Bool
  before a b =
      if fl.same (fl.negate a.0) (fl.negate b.0)
      then fl.text_less (py.uuid.show a.1) (py.uuid.show b.1)
      else fl.less (fl.negate a.0) (fl.negate b.0)

  -- `sorted`, which is stable
  unfoldable pub insert_slot : FusionSlot F → List (FusionSlot F) → List (FusionSlot F)
  insert_slot s [] = s ∷ []
  insert_slot s (t ∷ ts) =
      let rest = insert_slot s ts in
      if before (t.hybrid_score, t.chunk_id) (s.hybrid_score, s.chunk_id)
      then t ∷ rest
      else s ∷ t ∷ ts

  unfoldable pub sort_slots : List (FusionSlot F) → List (FusionSlot F)
  sort_slots [] = []
  sort_slots (s ∷ ss) = insert_slot s (sort_slots ss)

  unfoldable pub reciprocal_rank_fusion :
      List (LexicalCandidate F) → List (VectorCandidate F) → ℕ → ℕ → List (RetrievalResult F)
  reciprocal_rank_fusion lexical_candidates vector_candidates k limit = results_of (
      take limit
        (sort_slots (add_vector k 1 vector_candidates (add_lexical k 1 lexical_candidates []))))
