-- ===== src/Services/Knowledge/Jobs/Uploads.antt =====
-- services/knowledge_service.py, `upload_document`.
use atlascore.Base.{
  ℕ, ◌+◌, String, false, ◌&&◌, not, Option, none, List, [], ◌∷◌, ok, Error, ◌==◌, ltb, str_eq,
  length, if◌then◌else◌,
}
use atlascore.Platform.{Platform}
use atlascore.Db.Models.{Value}
use atlascore.Db.KnowledgeModels.{
  KnowledgeDocument, KnowledgeDocumentVersion, KnowledgeIngestionJob,
}
use atlascore.Db.Table.{count}
use atlascore.Db.Session.{Action, pure, raise, gets, handle, raise_if, ◌>>=◌, ◌>>◌, commit}
use atlascore.Services.Audit.{Origin, emit_transactional}
use atlascore.Knowledge.Parsers.{is_supported_media_type}
use atlascore.Knowledge.Ingestion.{Target}
use atlascore.Knowledge.BlobStore.{generate_key, put, delete as delete_blob}
use atlascore.Services.Knowledge.{visible, get_source, add_document, add_version, add_job}
use atlascore.Services.Knowledge.Jobs.{Service, Draw, run_ingestion, refresh_job}

pub record Upload : Type 0 where
  pub organisation_id : ℕ
  pub workspace_id : ℕ
  pub source_id : ℕ
  pub original_filename : String
  pub media_type : String
  pub content : List ℕ
  pub idempotency_key : String
  pub actor_user_id : Option ℕ
  pub origin : Origin
  -- `uuid4`
  pub document_id : ℕ
  pub version_id : ℕ
  pub job_id : ℕ

unfoldable pub target_of : Upload → Target
target_of u = record {
  version_id = u.version_id;
  organisation_id = u.organisation_id;
  workspace_id = u.workspace_id;
}

unfoldable pub document_of : Upload → KnowledgeDocument
document_of u = record {
  id = u.document_id;
  organisation_id = u.organisation_id;
  workspace_id = u.workspace_id;
  source_id = u.source_id;
  original_filename = u.original_filename;
  media_type = u.media_type;
  is_archived = false;
  archived_at = none;
  created_by_user_id = u.actor_user_id;
}

unfoldable pub job_of : Upload → KnowledgeIngestionJob
job_of u = record {
  id = u.job_id;
  version_id = u.version_id;
  document_id = u.document_id;
  organisation_id = u.organisation_id;
  workspace_id = u.workspace_id;
  status = "queued";
  idempotency_key = u.idempotency_key;
  started_at = none;
  finished_at = none;
  error_message = none;
  result_metadata = [];
}

-- the handlers of `put`
abbrev pub blob_failure : Error → Error
blob_failure Error.blob_store_size_error = Error.knowledge_file_too_large
blob_failure e = Error.knowledge_error

-- the handler of the job's flush: an IntegrityError has rolled the transaction back
abbrev pub job_failure : Error → Error
job_failure Error.integrity_error = Error.knowledge_idempotency_conflict
job_failure e = e

module _ (py : Platform) (self : Service) where
  unfoldable pub key_of : Upload → String
  key_of u = generate_key py u.organisation_id u.workspace_id u.document_id u.version_id

  unfoldable pub version_of : Upload → ℕ → KnowledgeDocumentVersion
  unfolding key_of
  version_of u number = record {
    id = u.version_id;
    document_id = u.document_id;
    organisation_id = u.organisation_id;
    workspace_id = u.workspace_id;
    version_number = number;
    content_sha256 = self.disk.sha256 u.content;
    size_bytes = length u.content;
    media_type = u.media_type;
    storage_key = key_of u;
    created_by_user_id = u.actor_user_id;
  }

  -- the steps 1 to 3
  unfoldable pub admit : Upload → Action Unit
  admit u = do
    source ← get_source u.organisation_id u.workspace_id u.source_id
    raise_if (not source.is_active) Error.knowledge_source_archived
    raise_if (not (is_supported_media_type py u.media_type)) Error.knowledge_unsupported_media_type
    raise_if (ltb self.settings.knowledge_max_upload_bytes (length u.content))
        Error.knowledge_file_too_large

  -- the check behind `put`
  unfoldable pub verify_stored : Upload → String → Action Unit
  unfolding key_of
  verify_stored u stored s =
      if str_eq stored (self.disk.sha256 u.content)
      then (ok tt, s)
      else (do delete_blob self.disk (key_of u); raise Error.knowledge_error) s

  -- the steps 5 to 8; the number is that of the next version
  unfoldable pub store : Upload → Action ℕ
  unfolding key_of
  store u = do
    add_document (document_of u)
    number ← gets (λ s.
        count
          (λ r.
            visible s r.organisation_id r.workspace_id
            && (r.document_id == u.document_id && r.organisation_id == u.organisation_id))
          s.db.knowledge_document_versions)
    stored ←
        handle (put self.disk (key_of u) u.content self.settings.knowledge_max_upload_bytes)
          (λ e. raise (blob_failure e))
    verify_stored u stored
    pure (number + 1)

  -- the steps 9 to 12, up to the first commit
  unfoldable pub enqueue : Upload → ℕ → Action KnowledgeDocumentVersion
  enqueue u number = do
    add_version (version_of u number)
    handle (add_job (job_of u)) (λ e. raise (job_failure e))
    emit_transactional py "knowledge.document.uploaded" u.organisation_id u.actor_user_id
        (("document_id", Value.uuid u.document_id)
          ∷ ("version_id", Value.uuid u.version_id)
          ∷ ("source_id", Value.uuid u.source_id)
          ∷ ("content_sha256", Value.text (self.disk.sha256 u.content))
          ∷ ("size_bytes", Value.number (length u.content))
          ∷ ("media_type", Value.text u.media_type)
          ∷ [])
        u.origin "success"
    commit
    pure (version_of u number)

  -- what follows the first commit
  unfoldable pub ingest_upload : Upload → Draw → Action KnowledgeIngestionJob
  ingest_upload u draw = do
    run_ingestion py self u.job_id (target_of u) u.content u.media_type u.origin.request_id draw
    refresh_job u.organisation_id u.workspace_id u.job_id

  unfoldable pub upload_document :
      Upload → Draw → Action (KnowledgeDocument × KnowledgeDocumentVersion × KnowledgeIngestionJob)
  upload_document u draw = do
    admit u
    number ← store u
    version ← enqueue u number
    job ← ingest_upload u draw
    pure (document_of u, version, job)
