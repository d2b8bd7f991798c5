-- ===== src/Services/Knowledge.antt =====
-- services/knowledge_service.py: documents, and the jobs that ingest them.
-- The row-level security of the knowledge tables asks for the current organisation and the current
-- workspace (migration 0004). Times are what `datetime.now(UTC)` returns at a call.
pub mod Jobs
pub mod Sources
use atlascore.Base.{
  ℕ, ◌+◌, String, Bool, true, false, ◌&&◌, ◌||◌, not, Option, none, some, List, [], ◌∷◌, ◌++◌,
  Result, ok, err, Error, ◌==◌, ltb, str_eq, length, map, if◌then◌else◌,
}
use atlascore.Platform.{Platform}
use atlascore.Db.Models.{Value}
use atlascore.Db.KnowledgeModels.{
  KnowledgeSource, KnowledgeDocument, KnowledgeDocumentVersion, KnowledgeIngestionJob,
  KnowledgeChunk, KnowledgeChunkEmbedding,
}
use atlascore.Db.Table.{select, update, delete, exists, count, scalar_one_or_none}
use atlascore.Db.Session.{
  Session, Tables, Action, pure, raise, lift, modify, handle, raise_if, ◌>>=◌, ◌>>◌,
  set_organisation, set_workspace, insert, tenant, commit,
}
use atlascore.Services.Audit.{Origin, emit_transactional}
use atlascore.Knowledge.Parsers.{Texts, is_supported_media_type}
use atlascore.Knowledge.Ingestion.{
  EmbeddingProvider, Settings, Target, RowIds, Rows, ingest, transitions,
}
use atlascore.Knowledge.BlobStore.{Disk, generate_key, put, get, delete as delete_blob}

-- `_set_knowledge_rls_context`
unfoldable pub set_knowledge_rls_context : ℕ → ℕ → Action Unit
set_knowledge_rls_context organisation_id workspace_id = do
  set_organisation organisation_id
  set_workspace workspace_id

-- the policy of the knowledge tables
abbrev pub visible : Session → ℕ → ℕ → Bool
visible s organisation_id workspace_id =
    tenant s.organisation organisation_id && tenant s.workspace workspace_id

abbrev pub found_or : {A : Type 0} → Error → Option A → Action A
found_or e none = raise e
found_or e (some a) = pure a

-- the WHERE clause on a row's id, organisation and workspace
abbrev pub is_row : ℕ → ℕ → ℕ → ℕ → ℕ → ℕ → Bool
is_row id organisation_id workspace_id i o w =
    i == id && (o == organisation_id && w == workspace_id)

unfoldable pub get_source : ℕ → ℕ → ℕ → Action KnowledgeSource
get_source organisation_id workspace_id source_id s =
    (lift (
          scalar_one_or_none (
            select
              (λ r.
                visible s r.organisation_id r.workspace_id
                && is_row source_id organisation_id workspace_id r.id r.organisation_id
                    r.workspace_id)
              s.db.knowledge_sources))
        >>= found_or Error.knowledge_source_not_found)
      s

unfoldable pub get_document : ℕ → ℕ → ℕ → Action KnowledgeDocument
get_document organisation_id workspace_id document_id s =
    (lift (
          scalar_one_or_none (
            select
              (λ r.
                visible s r.organisation_id r.workspace_id
                && is_row document_id organisation_id workspace_id r.id r.organisation_id
                    r.workspace_id)
              s.db.knowledge_documents))
        >>= found_or Error.knowledge_document_not_found)
      s

unfoldable pub find_job : (KnowledgeIngestionJob → Bool) → Action (Option KnowledgeIngestionJob)
find_job p s = (
  scalar_one_or_none (
      select (λ r. visible s r.organisation_id r.workspace_id && p r)
        s.db.knowledge_ingestion_jobs),
  s,
)

unfoldable pub get_job : ℕ → ℕ → ℕ → Action KnowledgeIngestionJob
get_job organisation_id workspace_id job_id = do
  job ←
      find_job
        (λ r. is_row job_id organisation_id workspace_id r.id r.organisation_id r.workspace_id)
  found_or Error.knowledge_ingestion_job_not_found job

unfoldable pub find_version : ℕ → ℕ → Action (Option KnowledgeDocumentVersion)
find_version version_id organisation_id s = (
  scalar_one_or_none (
      select
        (λ r.
          visible s r.organisation_id r.workspace_id
          && (r.id == version_id && r.organisation_id == organisation_id))
        s.db.knowledge_document_versions),
  s,
)

unfoldable pub add_document : KnowledgeDocument → Action Unit
add_document new s =
    insert (visible s new.organisation_id new.workspace_id)
      (exists (λ r. r.id == new.id) s.db.knowledge_documents)
      (λ t. record t { knowledge_documents = t.knowledge_documents ++ new ∷ [] }) s

-- the unique columns of `knowledge_document_versions`
unfoldable pub version_conflicts : KnowledgeDocumentVersion → KnowledgeDocumentVersion → Bool
version_conflicts new r =
    r.id == new.id
    || (str_eq r.storage_key new.storage_key
        || (r.document_id == new.document_id && r.version_number == new.version_number))

unfoldable pub add_version : KnowledgeDocumentVersion → Action Unit
add_version new s =
    insert (visible s new.organisation_id new.workspace_id)
      (exists (version_conflicts new) s.db.knowledge_document_versions)
      (λ t. record t { knowledge_document_versions = t.knowledge_document_versions ++ new ∷ [] }) s

-- the unique columns of `knowledge_ingestion_jobs`
unfoldable pub job_conflicts : KnowledgeIngestionJob → KnowledgeIngestionJob → Bool
job_conflicts new r =
    r.id == new.id
    || (r.organisation_id == new.organisation_id
        && (r.workspace_id == new.workspace_id && str_eq r.idempotency_key new.idempotency_key))

unfoldable pub add_job : KnowledgeIngestionJob → Action Unit
add_job new s =
    insert (visible s new.organisation_id new.workspace_id)
      (exists (job_conflicts new) s.db.knowledge_ingestion_jobs)
      (λ t. record t { knowledge_ingestion_jobs = t.knowledge_ingestion_jobs ++ new ∷ [] }) s

-- UPDATE of the row of one job
unfoldable pub update_job : ℕ → (KnowledgeIngestionJob → KnowledgeIngestionJob) → Action Unit
update_job job_id f s = (
  ok tt,
  record s {
    db = record s.db {
      knowledge_ingestion_jobs =
          update (λ r. visible s r.organisation_id r.workspace_id && r.id == job_id) f
            s.db.knowledge_ingestion_jobs;
    };
  },
)

-- the unique columns of the chunks of a version and of their embeddings
unfoldable pub chunk_conflicts : Rows → KnowledgeChunk → Bool
chunk_conflicts [] r = false
chunk_conflicts ((new, embedding) ∷ rows) r =
    (r.id == new.id || (r.version_id == new.version_id && r.chunk_index == new.chunk_index))
    || chunk_conflicts rows r

-- `session.add_all(…)` of the chunks and of their embeddings, written at the next flush; `allowed`
-- is the policy on their organisation and workspace, which all have in common
unfoldable pub add_rows : ℕ → ℕ → Rows → Action Unit
add_rows organisation_id workspace_id rows s =
    insert (visible s organisation_id workspace_id)
      (exists (chunk_conflicts rows) s.db.knowledge_chunks)
      (λ t. record t {
        knowledge_chunks = t.knowledge_chunks ++ map (λ r. r.0) rows;
        knowledge_chunk_embeddings = t.knowledge_chunk_embeddings ++ map (λ r. r.1) rows;
      })
      s

-- DELETE of the chunks of a version; their embeddings go with them
unfoldable pub delete_chunks : ℕ → ℕ → ℕ → Action Unit
delete_chunks version_id organisation_id workspace_id s =
    let gone : KnowledgeChunk → Bool = λ r.
      visible s r.organisation_id r.workspace_id
      && is_row version_id organisation_id workspace_id r.version_id r.organisation_id
          r.workspace_id in
    modify
      (λ t. record t {
        knowledge_chunks = delete gone t.knowledge_chunks;
        knowledge_chunk_embeddings =
            delete (λ e. exists (λ c. gone c && c.id == e.chunk_id) t.knowledge_chunks)
              t.knowledge_chunk_embeddings;
      })
      s

abbrev pub running : ℕ → KnowledgeIngestionJob → KnowledgeIngestionJob
running now j = record j { status = "running"; started_at = some now }

abbrev pub failed : ℕ → String → KnowledgeIngestionJob → KnowledgeIngestionJob
failed now message j = record j {
  status = "failed";
  finished_at = some now;
  error_message = some message;
}

abbrev pub succeeded : EmbeddingProvider → ℕ → ℕ → KnowledgeIngestionJob → KnowledgeIngestionJob
succeeded provider now chunk_count j = record j {
  status = "succeeded";
  finished_at = some now;
  result_metadata =
      ("chunk_count", Value.number chunk_count)
      ∷ ("embedding_model", Value.text provider.model_id)
      ∷ ("dimensions", Value.number provider.dimensions)
      ∷ [];
}

abbrev pub queued : KnowledgeIngestionJob → KnowledgeIngestionJob
queued j = record j {
  status = "queued";
  error_message = none;
  started_at = none;
  finished_at = none;
  result_metadata = [];
}
