-- ===== src/Knowledge/Ingestion.antt =====
-- What services/knowledge_service.py makes of a document's content: text, chunks and embeddings
-- (the pipeline inside `_run_ingestion`), and the status of the job that does it
-- (db/models/knowledge_ingestion_job.py).
use atlascore.Base.{
  ℕ, String, none, some, List, [], ◌∷◌, Result, ok, err, Error, ◌==◌, not, length, if◌then◌else◌,
  contains, str_eq,
}
use atlascore.Platform.{Platform}
use atlascore.Db.KnowledgeModels.{KnowledgeIngestionJob, KnowledgeChunk, KnowledgeChunkEmbedding}
use atlascore.Knowledge.Chunker.{Chunk, text_chunker, chunk}
use atlascore.Knowledge.Parsers.{Texts, parse}

-- knowledge/embeddings.py: the interface of a provider, and what it returns
pub record EmbeddingResult : Type 0 where
  pub model_id : String
  pub vector : List ℕ
  pub dimensions : ℕ

pub record EmbeddingProvider : Type 0 where
  pub model_id : String
  pub dimensions : ℕ
  pub embed : String → Result EmbeddingResult

pub record Settings : Type 0 where
  pub chunk_size_tokens : ℕ
  pub chunk_overlap_tokens : ℕ
  pub knowledge_max_upload_bytes : ℕ

-- the version whose content is ingested, and its tenant
pub record Target : Type 0 where
  pub version_id : ℕ
  pub organisation_id : ℕ
  pub workspace_id : ℕ

-- `uuid4` for the rows of the chunk with an index
pub record RowIds : Type 0 where
  pub chunk_id : ℕ → ℕ
  pub embedding_id : ℕ → ℕ

abbrev pub Rows : Type 0
Rows = List (KnowledgeChunk × KnowledgeChunkEmbedding)

module _ (provider : EmbeddingProvider) (target : Target) (ids : RowIds) where
  unfoldable pub chunk_row : Chunk → KnowledgeChunk
  chunk_row ch = record {
    id = ids.chunk_id ch.chunk_index;
    version_id = target.version_id;
    organisation_id = target.organisation_id;
    workspace_id = target.workspace_id;
    chunk_index = ch.chunk_index;
    chunk_text = ch.chunk_text;
    content_sha256 = ch.content_sha256;
    token_count = ch.token_count;
  }

  unfoldable pub embedding_row : Chunk → EmbeddingResult → KnowledgeChunkEmbedding
  embedding_row ch r = record {
    id = ids.embedding_id ch.chunk_index;
    chunk_id = ids.chunk_id ch.chunk_index;
    organisation_id = target.organisation_id;
    workspace_id = target.workspace_id;
    model_id = r.model_id;
    embedding = r.vector;
    dimensions = r.dimensions;
  }

  -- one turn of `for ch in chunks`
  unfoldable pub embed_chunk : Chunk → Result (KnowledgeChunk × KnowledgeChunkEmbedding)
  embed_chunk ch = elim (provider.embed ch.chunk_text) [
    | err e ↦ err e
    | ok r ↦
        if not (length r.vector == r.dimensions)
        then err Error.value_error
        else ok (chunk_row ch, embedding_row ch r)
  ]

  unfoldable pub embed_chunks : List Chunk → Result Rows
  embed_chunks [] = ok []
  embed_chunks (ch ∷ chunks) =
      let rest = embed_chunks chunks in
      elim (embed_chunk ch) [
        | err e ↦ err e
        | ok row ↦ elim rest [ err e ↦ err e | ok rows ↦ ok (row ∷ rows) ]
      ]

  -- the body of the try block; the fuel of `chunk` is enough, so that its `none` does not occur
  unfoldable pub ingest : Platform → Texts → Settings → List ℕ → String → Result Rows
  ingest py tx settings content media_type = elim (parse py tx content media_type) [
    | err e ↦ err e
    | ok text ↦ elim (text_chunker settings.chunk_size_tokens settings.chunk_overlap_tokens) [
      | err e ↦ err e
      | ok chunker ↦ elim (chunk py chunker text) [
        | none ↦ err Error.value_error
        | some chunks ↦ embed_chunks chunks
      ]
    ]
  ]

-- `INGESTION_JOB_TRANSITIONS.get(status, frozenset())`
unfoldable pub transitions : String → List String
transitions status =
    if str_eq status "queued"
    then "running" ∷ "cancelled" ∷ []
    else if str_eq status "running"
    then "succeeded" ∷ "failed" ∷ "cancelled" ∷ []
    else if str_eq status "failed"
    then "queued" ∷ []
    else []

-- `job.transition_to(new_status)`
unfoldable pub transition_to : String → KnowledgeIngestionJob → Result KnowledgeIngestionJob
transition_to new_status job =
    if contains new_status (transitions job.status)
    then ok (record job { status = new_status })
    else err Error.value_error
