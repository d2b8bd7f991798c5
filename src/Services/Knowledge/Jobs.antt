-- ===== src/Services/Knowledge/Jobs.antt =====
-- services/knowledge_service.py: the upload of a document, the run of its ingestion job, and the
-- retry of a job that failed.
pub mod Uploads
pub mod Retries
pub mod History
pub mod Standing
pub mod Progress
pub mod Refinement
pub mod Excuses
pub mod Retry
pub mod Stranding
pub mod Submission
pub mod Completion
use atlascore.Base.{
  ℕ, ◌+◌, String, Bool, true, false, ◌&&◌, not, Option, none, some, List, [], ◌∷◌, ◌++◌, Result, ok,
  err, Error, ◌==◌, ltb, str_eq, length, if◌then◌else◌,
}
use atlascore.Platform.{Platform}
use atlascore.Db.Models.{Value}
use atlascore.Db.KnowledgeModels.{
  KnowledgeSource, KnowledgeDocument, KnowledgeDocumentVersion, KnowledgeIngestionJob,
}
use atlascore.Db.Table.{count}
use atlascore.Db.Session.{
  Session, Action, pure, raise, lift, gets, handle, raise_if, ◌>>=◌, ◌>>◌, commit,
}
use atlascore.Services.Audit.{Origin, emit_transactional}
use atlascore.Knowledge.Parsers.{Texts, is_supported_media_type}
use atlascore.Knowledge.Ingestion.{EmbeddingProvider, Settings, Target, RowIds, Rows, ingest}
use atlascore.Knowledge.BlobStore.{Disk, generate_key, put, get, delete as delete_blob}
use atlascore.Services.Knowledge.{
  set_knowledge_rls_context, visible, found_or, get_source, find_job, get_job, find_version,
  add_document, add_version, add_job, update_job, add_rows, delete_chunks, running, failed,
  succeeded, queued,
}

-- what `KnowledgeService` is built from
pub record Service : Type 0 where
  pub settings : Settings
  pub provider : EmbeddingProvider
  pub texts : Texts
  pub disk : Disk

-- What a run of a job draws: the ids of the chunks' rows, the times of its start and its end, and
-- the text of an exception.
pub record Draw : Type 0 where
  pub ids : RowIds
  pub started : ℕ
  pub finished : ℕ
  pub message : Error → String

-- a request without a client's address, as the events of a run have it
abbrev pub unaddressed : Option String → Origin
unaddressed request_id = record { request_id = request_id; client_ip = none }

-- `_set_knowledge_rls_context`; `session.refresh(job)`
unfoldable pub refresh_job : ℕ → ℕ → ℕ → Action KnowledgeIngestionJob
refresh_job organisation_id workspace_id job_id = do
  set_knowledge_rls_context organisation_id workspace_id
  job ← find_job (λ r. r.id == job_id)
  found_or Error.invalid_request_error job

module _ (py : Platform) (self : Service) where
  -- What `_run_ingestion` does with what the try block came to. The rows are written when the
  -- transaction is committed, behind the handlers of the block.
  unfoldable pub conclude :
      KnowledgeIngestionJob → Target → Option String → Draw → Result Rows → Action Unit
  conclude job target request_id draw (ok rows) = do
    update_job job.id (succeeded self.provider draw.finished (length rows))
    emit_transactional py "knowledge.ingestion.succeeded" target.organisation_id none
        (("job_id", Value.uuid job.id)
          ∷ ("version_id", Value.uuid target.version_id)
          ∷ ("chunk_count", Value.number (length rows))
          ∷ [])
        (unaddressed request_id) "success"
    add_rows target.organisation_id target.workspace_id rows
    commit
  conclude job target request_id draw (err e) = do
    update_job job.id (failed draw.finished (draw.message e))
    emit_transactional py "knowledge.ingestion.failed" target.organisation_id none
        (("job_id", Value.uuid job.id)
          ∷ ("version_id", Value.uuid target.version_id)
          ∷ ("error", Value.text (draw.message e))
          ∷ [])
        (unaddressed request_id) "failure"
    commit

  unfoldable pub run_found :
      Target → List ℕ → String → Option String → Draw → Option KnowledgeIngestionJob → Action Unit
  run_found target content media_type request_id draw none = pure tt
  run_found target content media_type request_id draw (some job) = do
    update_job job.id (running draw.started)
    commit
    set_knowledge_rls_context target.organisation_id target.workspace_id
    conclude job target request_id draw
        (ingest self.provider target draw.ids py self.texts self.settings content media_type)

  -- `_run_ingestion`
  unfoldable pub run_ingestion : ℕ → Target → List ℕ → String → Option String → Draw → Action Unit
  run_ingestion job_id target content media_type request_id draw = do
    set_knowledge_rls_context target.organisation_id target.workspace_id
    job ← find_job (λ r. r.id == job_id && r.organisation_id == target.organisation_id)
    run_found target content media_type request_id draw job
