-- ===== src/Base/Results.antt =====
-- The exceptions that the services raise, and the result of a call that may raise one.
use Prim.Native.Nat.{ℕ}
use mathlib.Core.Bool.{Bool, true, false}

-- The exception classes of the services and of the libraries below them. A payload is kept where
-- a handler reads it; messages are not modelled.
pub data Error : Type 0 where
  -- sqlalchemy.exc: a statement that the database refuses, `scalar_one_or_none` of several rows
  integrity_error rls_violation multiple_results_found value_error : Error
  -- auth/refresh.py, auth/pre_auth.py
  refresh_token_reuse : ℕ → Error
  pre_auth_session_reuse : ℕ → ℕ → Error
  -- knowledge/chunker.py, answering/citation.py
  chunker_config_error citation_validation_error : Error
  -- services/auth_service.py
  registration_error authentication_error org_selection_error : Error
  -- services/invitation_service.py
  invitation_not_found invitation_expired invitation_revoked : Error
  invitation_already_accepted invitation_email_mismatch invitation_duplicate : Error
  -- services/org_service.py, services/workspace_service.py
  org_service_error workspace_service_error : Error
  -- services/team_service.py
  team_not_found team_duplicate team_member_not_found : Error
  team_member_already_exists team_member_not_org_member : Error
  -- services/knowledge_service.py, knowledge/parsers.py, knowledge/blob_store.py
  knowledge_error knowledge_source_not_found knowledge_source_archived : Error
  knowledge_document_not_found knowledge_document_archived : Error
  knowledge_unsupported_media_type knowledge_file_too_large : Error
  knowledge_idempotency_conflict knowledge_ingestion_job_not_found : Error
  knowledge_ingestion_job_not_retryable : Error
  unsupported_media_type embedding_error : Error
  blob_store_error blob_not_found blob_store_size_error blob_store_path_error : Error
  -- sqlalchemy.exc: `refresh` of a row that is gone
  invalid_request_error : Error
  -- services/service_account_service.py
  service_account_not_found service_account_disabled service_account_duplicate : Error
  api_key_not_found api_key_invalid api_key_revoked api_key_expired api_key_scope : Error

pub data Result {ℓ} (A : Type ℓ) : Type ℓ where
  ok : A → Result A
  err : Error → Result A

abbrev pub is_ok {ℓ} : {A : Type ℓ} → Result A → Bool
is_ok (ok a) = true
is_ok (err e) = false
