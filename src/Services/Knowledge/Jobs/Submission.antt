-- ===== src/Services/Knowledge/Jobs/Submission.antt =====
-- The steps of `upload_document` of services/knowledge_service.py that come before the job leave the
-- jobs as they were.
use atlascore.Base.{
  ℕ, ◌+◌, String, ◌≡◌, [], ◌&&◌, not, List, Option, none, some, ◌==◌, Result, ok, err, Error,
  str_eq, ltb, length,
}
use atlascore.Platform.{Platform}
use atlascore.Db.KnowledgeModels.{
  KnowledgeIngestionJob, KnowledgeDocument, KnowledgeDocumentVersion,
}
use atlascore.Db.Table.{count, select, scalar_one_or_none}
use atlascore.Db.Session.{Session, Action, rollback, raise, lift, handle, ◌>>=◌, ◌>>◌}
use atlascore.Db.Session.Rules.{insert_rule, if_rule}
use atlascore.Db.Session.Keeps.{
  Keeps, Keeps-bind, Keeps-then, Keeps-gets, Keeps-raise_if, Keeps-pure,
}
use atlascore.Knowledge.Parsers.{is_supported_media_type}
use atlascore.Knowledge.BlobStore.{Disk, write, keep, put, drop_blob, delete as delete_blob}
use atlascore.Services.Knowledge.{visible, is_row, found_or, get_source, add_document, add_version}
use atlascore.Services.Knowledge.Jobs.{Service}
use atlascore.Services.Knowledge.Jobs.Uploads.{
  Upload, document_of, key_of, admit, blob_failure, verify_stored, store,
}

module _ (base : List KnowledgeIngestionJob) where
  -- the jobs are those of the base, pending and committed, and the session has committed nothing
  pub record IsClean (s : Session) : Type 0 where
    pub pending : s.db.knowledge_ingestion_jobs ≡ base
    pub committed : s.committed.knowledge_ingestion_jobs ≡ base
    pub begun : s.commits ≡ []

  found-IsClean :
      {A : Type 0} (e : Error) (r : Result (Option A)) (s : Session)
      → IsClean s
      → IsClean ((lift r >>= found_or e) s).1
  found-IsClean e (err e') s v = v
  found-IsClean e (ok none) s v = v
  found-IsClean e (ok (some a)) s v = v

  get_source-Keeps : (o w i : ℕ) → Keeps IsClean (get_source o w i)
  unfolding get_source
  get_source-Keeps o w i = record {
    keep = λ s v.
        found-IsClean Error.knowledge_source_not_found
          (scalar_one_or_none (
            select
              (λ r.
                visible s r.organisation_id r.workspace_id
                && is_row i o w r.id r.organisation_id r.workspace_id)
              s.db.knowledge_sources))
          s v;
  }

  add_document-Keeps : (d : KnowledgeDocument) → Keeps IsClean (add_document d)
  unfolding add_document rollback
  add_document-Keeps d = record {
    keep = λ s v.
        insert_rule (λ (r : Result (Unit {0}) × Session). IsClean r.1) _ _ _ s
          (λ h. record { pending = v.committed; committed = v.committed; begun = v.begun })
          (λ h k. record { pending = v.committed; committed = v.committed; begun = v.begun })
          (λ h k. record { pending = v.pending; committed = v.committed; begun = v.begun });
  }

  pub add_version-Keeps : (d : KnowledgeDocumentVersion) → Keeps IsClean (add_version d)
  unfolding add_version rollback
  add_version-Keeps d = record {
    keep = λ s v.
        insert_rule (λ (r : Result (Unit {0}) × Session). IsClean r.1) _ _ _ s
          (λ h. record { pending = v.committed; committed = v.committed; begun = v.begun })
          (λ h k. record { pending = v.committed; committed = v.committed; begun = v.begun })
          (λ h k. record { pending = v.pending; committed = v.committed; begun = v.begun });
  }

  handled-IsClean :
      {A : Type 0} (f : Error → Error) (s : Session) (out : Result A × Session)
      → IsClean out.1
      → IsClean (handle (λ _. out) (λ e. raise (f e)) s).1
  handled-IsClean f s (ok a, t) v = v
  handled-IsClean f s (err e, t) v = v

  handle-Keeps :
      {A : Type 0} (m : Action A) (f : Error → Error)
      → Keeps IsClean m
      → Keeps IsClean (handle m (λ e. raise (f e)))
  handle-Keeps m f h = record { keep = λ s v. handled-IsClean f s (m s) (h.keep s v) }

  keep-Keeps : (key : String) (content : List ℕ) → Keeps IsClean (keep key content)
  keep-Keeps key content = record {
    keep = λ s v. record { pending = v.pending; committed = v.committed; begun = v.begun };
  }

  put-Keeps :
      (disk : Disk) (key : String) (content : List ℕ) (max_bytes : ℕ)
      → Keeps IsClean (put disk key content max_bytes)
  unfolding put
  put-Keeps disk key content max_bytes =
      Keeps-bind (Keeps-gets (λ s. write disk key content max_bytes))
        (λ hash. Keeps-then (keep-Keeps key content) Keeps-pure)

  drop_blob-Keeps : (key : String) → Keeps IsClean (drop_blob key)
  drop_blob-Keeps key = record {
    keep = λ s v. record { pending = v.pending; committed = v.committed; begun = v.begun };
  }

  delete_blob-Keeps : (disk : Disk) (key : String) → Keeps IsClean (delete_blob disk key)
  unfolding delete_blob
  delete_blob-Keeps disk key =
      Keeps-then (Keeps-raise_if (not (disk.resolves key)) Error.blob_store_path_error)
        (drop_blob-Keeps key)

  verify_stored-Keeps :
      (py : Platform) (self : Service) (u : Upload) (stored : String)
      → Keeps IsClean (verify_stored py self u stored)
  unfolding verify_stored
  verify_stored-Keeps py self u stored = record {
    keep = λ s v.
        if_rule (λ (r : Result (Unit {0}) × Session). IsClean r.1)
          (str_eq stored (self.disk.sha256 u.content)) (ok tt, s)
          ((delete_blob self.disk (key_of py self u) >> raise Error.knowledge_error) s) (λ h. v)
          (λ h.
            (Keeps-then (delete_blob-Keeps self.disk (key_of py self u))
                (Keeps-gets (λ t. err Error.knowledge_error))).keep
              s v);
  }

  pub admit-Keeps : (py : Platform) (self : Service) (u : Upload) → Keeps IsClean (admit py self u)
  unfolding admit
  admit-Keeps py self u =
      Keeps-bind (get_source-Keeps u.organisation_id u.workspace_id u.source_id) (λ source.
        Keeps-then (Keeps-raise_if (not source.is_active) Error.knowledge_source_archived) (
          Keeps-then
            (Keeps-raise_if (not (is_supported_media_type py u.media_type))
              Error.knowledge_unsupported_media_type)
            (Keeps-raise_if (ltb self.settings.knowledge_max_upload_bytes (length u.content))
              Error.knowledge_file_too_large)))

  pub store-Keeps : (py : Platform) (self : Service) (u : Upload) → Keeps IsClean (store py self u)
  unfolding store
  store-Keeps py self u = Keeps-then (add_document-Keeps (document_of u)) (
      Keeps-bind
        (Keeps-gets (λ s. ok (
          count
            (λ r.
              visible s r.organisation_id r.workspace_id
              && (r.document_id == u.document_id && r.organisation_id == u.organisation_id))
            s.db.knowledge_document_versions)))
        (λ number.
          Keeps-bind
            (handle-Keeps
              (put self.disk (key_of py self u) u.content self.settings.knowledge_max_upload_bytes)
              blob_failure
              (put-Keeps self.disk (key_of py self u) u.content
                self.settings.knowledge_max_upload_bytes))
            (λ stored.
              Keeps-then (verify_stored-Keeps py self u stored) (Keeps-pure {a = number + 1}))))
