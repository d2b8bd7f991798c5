-- ===== src/Tests/JobRuns.antt =====
-- Runs of services/knowledge_service.py.
use atlascore.Base.{
  ℕ, ◌≡◌, refl, true, false, none, some, List, [], ◌∷◌, ok, err, Error, String, is_ok,
}
use atlascore.Db.KnowledgeModels.{KnowledgeSource, KnowledgeDocumentVersion, KnowledgeIngestionJob}
use atlascore.Db.Session.{
  Session, Tables, begin, no_rows, set_organisation, set_workspace, commit, insert,
}
use atlascore.Db.Table.{select, scalar_one_or_none, exists, count, update}
use atlascore.Knowledge.Parsers.{
  is_supported_media_type, has_key, before_semicolon, parse, run_parser, get_parser, lookup,
  parse_plain, decode,
}
use atlascore.Knowledge.Ingestion.{ingest, embed_chunks, embed_chunk, chunk_row, embedding_row}
use atlascore.Knowledge.BlobStore.{read, find_blob, put, write, generate_key}
use atlascore.Services.Audit.{emit_transactional, sanitise_event_data}
use atlascore.Knowledge.Chunker.{text_chunker, chunk, chunk_loop, chunk_of, join}
use atlascore.Services.Knowledge.{
  get_job, find_job, find_version, get_source, add_document, add_version, version_conflicts,
  add_job, job_conflicts, update_job, add_rows, chunk_conflicts, set_knowledge_rls_context,
}
use atlascore.Services.Knowledge.Jobs.{
  Service, Draw, run_ingestion, run_found, conclude, refresh_job,
}
use atlascore.Services.Knowledge.Jobs.Uploads.{
  Upload, upload_document, admit, store, enqueue, ingest_upload, target_of, document_of, version_of,
  job_of, key_of, verify_stored,
}
use atlascore.Services.Knowledge.Jobs.Retries.{retry_job}
use atlascore.Services.Knowledge.Jobs.Refinement.{Ends}
use atlascore.Services.Knowledge.Jobs.Retry.{retry_job-Ends}
use atlascore.Services.Knowledge.Jobs.Excuses.{Excuse as RetryExcuse}
use atlascore.Services.Knowledge.Jobs.Stranding.{retry_job-strands}
use atlascore.Services.Knowledge.Jobs.Completion.{Completes, Excuse, upload_document-Completes}
use atlascore.Tests.Examples.{plain, nowhere, unary_uuid, unary}

-- a service whose files are texts of one word
abbrev service : Service
service = record {
  settings = record {
    chunk_size_tokens = 2;
    chunk_overlap_tokens = 0;
    knowledge_max_upload_bytes = 9;
  };
  provider = record {
    model_id = "m";
    dimensions = 1;
    embed = λ t. ok (record { model_id = "m"; vector = 1 ∷ []; dimensions = 1 });
  };
  texts = record {
    utf8 = λ c. some "a";
    latin1 = λ c. "a";
    replace = λ old new t. t;
    sub = λ pattern flag replacement t. t;
  };
  disk = record { sha256 = λ c. "h"; resolves = λ k. true; writes = λ k. true; reads = λ k. true };
}

abbrev draw : Draw
draw = record {
  ids = record { chunk_id = λ n. n; embedding_id = λ n. n };
  started = 10;
  finished = 11;
  message = λ e. "failed";
}

abbrev source : KnowledgeSource
source = record {
  id = 4;
  organisation_id = 2;
  workspace_id = 3;
  source_type = "manual_upload";
  display_name = "s";
  description = none;
  is_active = true;
  configuration = [];
  created_by_user_id = none;
}

-- a file of text for it
abbrev upload : Upload
upload = record {
  organisation_id = 2;
  workspace_id = 3;
  source_id = 4;
  original_filename = "f";
  media_type = "text/plain";
  content = 97 ∷ [];
  idempotency_key = "k";
  actor_user_id = none;
  origin = nowhere;
  document_id = 5;
  version_id = 6;
  job_id = 7;
}

abbrev version : KnowledgeDocumentVersion
version = record {
  id = 6;
  document_id = 5;
  organisation_id = 2;
  workspace_id = 3;
  version_number = 1;
  content_sha256 = "h";
  size_bytes = 1;
  media_type = "text/plain";
  storage_key = "v";
  created_by_user_id = none;
}

abbrev failed_job : KnowledgeIngestionJob
failed_job = record {
  id = 7;
  version_id = 6;
  document_id = 5;
  organisation_id = 2;
  workspace_id = 3;
  status = "failed";
  idempotency_key = "k";
  started_at = some 1;
  finished_at = some 2;
  error_message = some "failed";
  result_metadata = [];
}

-- a session in the workspace, with the job that failed and the file of its version, or without it
abbrev stored : Tables
stored = record no_rows {
  knowledge_sources = source ∷ [];
  knowledge_document_versions = version ∷ [];
  knowledge_ingestion_jobs = failed_job ∷ [];
}

abbrev here : List (String × List ℕ) → Session
here blobs = record (begin stored) { organisation = some 2; workspace = some 3; blobs = blobs }

-- the upload's ids are new in an empty workspace
abbrev fresh_session : Session
fresh_session = record (begin (record no_rows { knowledge_sources = source ∷ [] })) {
  organisation = some 2;
  workspace = some 3;
}

upload_example :
    Completes [] upload
      (Excuse [] upload plain service draw fresh_session)
      (upload_document plain service upload draw fresh_session)
upload_example = upload_document-Completes [] upload plain service draw fresh_session refl refl refl

retry_example :
    Ends
      (failed_job ∷ [])
      (RetryExcuse plain service 2 3 7 draw (here (("v", 97 ∷ []) ∷ [])))
      7
      2
      3
      (retry_job plain service 2 3 7 none nowhere draw (here (("v", 97 ∷ []) ∷ [])))
retry_example =
    retry_job-Ends plain service 2 3 7 none nowhere draw (here (("v", 97 ∷ []) ∷ [])) refl refl

strands_example :
    let (r, s') = retry_job plain service 2 3 7 none nowhere draw (here []) in
    (r ≡ err Error.knowledge_error)
    × ((t : Session)
        → t.db.knowledge_ingestion_jobs ≡ s'.committed.knowledge_ingestion_jobs
        → is_ok (retry_job plain service 2 3 7 none nowhere draw t).0 ≡ false)
unfolding get_job find_job find_version read find_blob select scalar_one_or_none
strands_example =
    retry_job-strands plain service 2 3 7 none nowhere draw (here []) failed_job version
      Error.blob_not_found refl refl refl refl

-- the upload goes through
uploaded : is_ok (upload_document plain service upload draw fresh_session).0 ≡ true
unfolding upload_document admit store enqueue ingest_upload run_ingestion run_found conclude
    refresh_job target_of document_of version_of job_of key_of verify_stored get_source find_job
    add_document add_version version_conflicts add_job job_conflicts update_job add_rows
    chunk_conflicts set_knowledge_rls_context set_organisation set_workspace commit insert
    emit_transactional sanitise_event_data put write generate_key select scalar_one_or_none exists
    count update is_supported_media_type has_key before_semicolon parse run_parser get_parser lookup
    parse_plain decode ingest text_chunker chunk chunk_loop chunk_of join embed_chunks embed_chunk
    chunk_row embedding_row plain unary_uuid unary
uploaded = refl
