-- ===== src/Services/Knowledge/Jobs/Retries.antt =====
-- services/knowledge_service.py, `retry_job`.
use atlascore.Base.{ℕ, String, not, Option, [], ◌∷◌, Error, str_eq}
use atlascore.Platform.{Platform}
use atlascore.Db.Models.{Value}
use atlascore.Db.KnowledgeModels.{KnowledgeDocumentVersion, KnowledgeIngestionJob}
use atlascore.Db.Session.{Action, pure, raise, handle, raise_if, ◌>>=◌, ◌>>◌, commit}
use atlascore.Services.Audit.{Origin, emit_transactional}
use atlascore.Knowledge.BlobStore.{get}
use atlascore.Services.Knowledge.{
  set_knowledge_rls_context, found_or, get_job, find_version, update_job, delete_chunks, queued,
}
use atlascore.Services.Knowledge.Jobs.{Service, Draw, run_ingestion, refresh_job}

module _ (py : Platform) (self : Service) where
  -- `retry_job` behind the job's check, up to its first commit
  unfoldable pub requeue :
      ℕ → Option ℕ → Origin → KnowledgeIngestionJob → Action KnowledgeDocumentVersion
  requeue organisation_id actor_user_id origin job = do
    version ← (do
      found ← find_version job.version_id organisation_id
      found_or Error.knowledge_error found)
    update_job job.id queued
    emit_transactional py "knowledge.ingestion.retry_requested" organisation_id actor_user_id
        (("job_id", Value.uuid job.id) ∷ []) origin "success"
    commit
    pure version

  -- `retry_job` behind its first commit
  unfoldable pub rerun :
      ℕ → ℕ → ℕ → Option String → Draw → KnowledgeDocumentVersion → Action KnowledgeIngestionJob
  rerun organisation_id workspace_id job_id request_id draw version = do
    content ← handle (get self.disk version.storage_key) (λ e. raise Error.knowledge_error)
    set_knowledge_rls_context organisation_id workspace_id
    delete_chunks version.id organisation_id workspace_id
    commit
    run_ingestion py self job_id
        (record {
          version_id = version.id;
          organisation_id = organisation_id;
          workspace_id = workspace_id;
        })
        content version.media_type request_id draw
    refresh_job organisation_id workspace_id job_id

  unfoldable pub retry_found :
      ℕ → ℕ → Option ℕ → Origin → Draw → KnowledgeIngestionJob → Action KnowledgeIngestionJob
  retry_found organisation_id workspace_id actor_user_id origin draw job = do
    raise_if (not (str_eq job.status "failed")) Error.knowledge_ingestion_job_not_retryable
    version ← requeue organisation_id actor_user_id origin job
    rerun organisation_id workspace_id job.id origin.request_id draw version

  unfoldable pub retry_job : ℕ → ℕ → ℕ → Option ℕ → Origin → Draw → Action KnowledgeIngestionJob
  retry_job organisation_id workspace_id job_id actor_user_id origin draw =
      get_job organisation_id workspace_id job_id
      >>= retry_found organisation_id workspace_id actor_user_id origin draw
