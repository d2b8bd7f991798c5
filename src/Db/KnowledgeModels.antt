-- ===== src/Db/KnowledgeModels.antt =====
-- The ORM classes of the knowledge tables (backend/app/db/models/knowledge_*.py), as in Models.
use atlascore.Base.{ℕ, Bool, String, List, Option}
use atlascore.Db.Models.{Value}

-- models/knowledge_source.py
pub record KnowledgeSource : Type 0 where
  pub id : ℕ
  pub organisation_id : ℕ
  pub workspace_id : ℕ
  pub source_type : String
  pub display_name : String
  pub description : Option String
  pub is_active : Bool
  pub configuration : List (String × Value)
  pub created_by_user_id : Option ℕ

-- models/knowledge_document.py
pub record KnowledgeDocument : Type 0 where
  pub id : ℕ
  pub organisation_id : ℕ
  pub workspace_id : ℕ
  pub source_id : ℕ
  pub original_filename : String
  pub media_type : String
  pub is_archived : Bool
  pub archived_at : Option ℕ
  pub created_by_user_id : Option ℕ

-- models/knowledge_document_version.py
pub record KnowledgeDocumentVersion : Type 0 where
  pub id : ℕ
  pub document_id : ℕ
  pub organisation_id : ℕ
  pub workspace_id : ℕ
  pub version_number : ℕ
  pub content_sha256 : String
  pub size_bytes : ℕ
  pub media_type : String
  pub storage_key : String
  pub created_by_user_id : Option ℕ

-- models/knowledge_ingestion_job.py
pub record KnowledgeIngestionJob : Type 0 where
  pub id : ℕ
  pub version_id : ℕ
  pub document_id : ℕ
  pub organisation_id : ℕ
  pub workspace_id : ℕ
  pub status : String
  pub idempotency_key : String
  pub started_at : Option ℕ
  pub finished_at : Option ℕ
  pub error_message : Option String
  pub result_metadata : List (String × Value)

-- models/knowledge_chunk.py
pub record KnowledgeChunk : Type 0 where
  pub id : ℕ
  pub version_id : ℕ
  pub organisation_id : ℕ
  pub workspace_id : ℕ
  pub chunk_index : ℕ
  pub chunk_text : String
  pub content_sha256 : String
  pub token_count : ℕ

-- models/knowledge_chunk_embedding.py; a float of the vector is the number that its bits spell
pub record KnowledgeChunkEmbedding : Type 0 where
  pub id : ℕ
  pub chunk_id : ℕ
  pub organisation_id : ℕ
  pub workspace_id : ℕ
  pub model_id : String
  pub embedding : List ℕ
  pub dimensions : ℕ
