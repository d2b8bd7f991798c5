-- ===== src/Services/Knowledge/Jobs/Excuses.antt =====
-- Why `retry_job` of services/knowledge_service.py may raise.
use atlascore.Base.{
  ◌&&◌, ◌≢◌, is_ok, true, false, ℕ, String, ◌≡◌, refl, List, some, arith, Result, ok, err, Error,
  ap,
}
use atlascore.Platform.{Platform}
use atlascore.Db.KnowledgeModels.{KnowledgeIngestionJob, KnowledgeDocumentVersion, KnowledgeChunk}
use atlascore.Db.Table.{exists, delete}
use atlascore.Db.Session.{tenant, Session, raise, lift, handle, ◌>>=◌}
use atlascore.Knowledge.BlobStore.{Disk, read, get}
use atlascore.Knowledge.Ingestion.{Target, Rows, ingest}
use atlascore.Services.Knowledge.{is_row, found_or, find_version, get_job, chunk_conflicts}
use atlascore.Services.Knowledge.Jobs.{Service, Draw}

-- reading a blob leaves the session as it is, and returns what is read
pub load-same :
    (disk : Disk) (key : String) (s : Session)
    → (handle (get disk key) (λ e. raise Error.knowledge_error) s).1 ≡ s
unfolding get
load-same disk key s = handled (read disk key s.blobs)
  where
    handled : (r : Result (List ℕ)) → (handle (lift r) (λ e. raise Error.knowledge_error) s).1 ≡ s
    handled (ok a) = refl
    handled (err e) = refl

pub load-fails :
    (disk : Disk) (key : String) (s : Session) (e : Error)
    → (handle (get disk key) (λ e. raise Error.knowledge_error) s).0 ≡ err e
    → is_ok (read disk key s.blobs) ≡ false
unfolding get
load-fails disk key s e h = handled (read disk key s.blobs) h
  where
    handled :
        (r : Result (List ℕ))
        → (handle (lift r) (λ e. raise Error.knowledge_error) s).0 ≡ err e
        → is_ok r ≡ false
    handled (ok a) h = ap is_ok h
    handled (err x) h = refl

pub load-reads :
    (disk : Disk) (key : String) (s : Session) (content : List ℕ)
    → (handle (get disk key) (λ e. raise Error.knowledge_error) s).0 ≡ ok content
    → read disk key s.blobs ≡ ok content
unfolding get
load-reads disk key s content h = handled (read disk key s.blobs) h
  where
    handled :
        (r : Result (List ℕ))
        → (handle (lift r) (λ e. raise Error.knowledge_error) s).0 ≡ ok content
        → r ≡ ok content
    handled (ok a) h = h
    handled (err x) h = absurd (ground (arith, h))

module _ (py : Platform) (self : Service) (o w i : ℕ) (draw : Draw) where
  abbrev pub target : KnowledgeDocumentVersion → Target
  target version = record { version_id = version.id; organisation_id = o; workspace_id = w }

  -- the chunks that stay when those of the version are deleted
  abbrev pub kept : KnowledgeDocumentVersion → List KnowledgeChunk → List KnowledgeChunk
  kept version chunks =
      delete
        (λ r.
          (tenant (some o) r.organisation_id && tenant (some w) r.workspace_id)
          && is_row version.id o w r.version_id r.organisation_id r.workspace_id)
        chunks

  -- the version is the one that is found for the job
  pub record IsFound (version : KnowledgeDocumentVersion) (s : Session) : Type 0 where
    pub job : KnowledgeIngestionJob
    pub here : (get_job o w i s).0 ≡ ok job
    pub found :
        ((find_version job.version_id o >>= found_or Error.knowledge_error) s).0 ≡ ok version

  -- Why a retry of a job may raise: there is no such job, it has not failed, its version is gone, the
  -- version's file cannot be read, or the rows made of the file's content conflict with chunks that
  -- the retry does not delete.
  pub data Excuse (s : Session) : Type 0 where
    no_job : is_ok (get_job o w i s).0 ≡ false → Excuse s
    not_failed :
        (job : KnowledgeIngestionJob)
        → (get_job o w i s).0 ≡ ok job
        → job.status ≢ "failed"
        → Excuse s
    no_version :
        (job : KnowledgeIngestionJob)
        → (get_job o w i s).0 ≡ ok job
        → is_ok ((find_version job.version_id o >>= found_or Error.knowledge_error) s).0 ≡ false
        → Excuse s
    unreadable :
        (version : KnowledgeDocumentVersion)
        → IsFound version s
        → is_ok (read self.disk version.storage_key s.blobs) ≡ false
        → Excuse s
    clash :
        (version : KnowledgeDocumentVersion) (content : List ℕ) (rows : Rows)
        → IsFound version s
        → read self.disk version.storage_key s.blobs ≡ ok content
        → ingest self.provider
            (target version)
            draw.ids
            py
            self.texts
            self.settings
            content
            version.media_type
          ≡ ok rows
        → exists (chunk_conflicts rows) (kept version s.db.knowledge_chunks) ≡ true
        → Excuse s
