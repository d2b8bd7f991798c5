-- ===== src/Services/Knowledge/Jobs/Stranding.antt =====
-- The case in which `retry_job` of services/knowledge_service.py leaves a job behind.
use atlascore.Base.{
  ℕ, ◌≡◌, refl, false, ◌&&◌, not, [], ◌∷◌, Option, none, some, arith, ◌==◌, Result, ok, err, Error,
  ap, ◌∙◌, str_eq, is_ok,
}
use atlascore.Platform.{Platform}
use atlascore.Db.Models.{Value}
use atlascore.Db.KnowledgeModels.{KnowledgeIngestionJob, KnowledgeDocumentVersion}
use atlascore.Db.Table.Rows.{one_or_none-some, All_of_Has}
use atlascore.Db.Session.{Session, commit, pure, raise, raise_if, lift, handle, ◌>>=◌, ◌>>◌}
use atlascore.Db.Session.Rules.{bind-ok, bind-err, handle-err}
use atlascore.Services.Audit.{Origin, emit_transactional, event, log}
use atlascore.Knowledge.BlobStore.{read, get}
use atlascore.Services.Knowledge.{
  set_knowledge_rls_context, visible, is_row, found_or, find_job, find_version, get_job, update_job,
  delete_chunks, queued,
}
use atlascore.Services.Knowledge.Jobs.{Service, Draw, run_ingestion, refresh_job}
use atlascore.Services.Knowledge.Jobs.Retries.{requeue, rerun, retry_found, retry_job}
use atlascore.Services.Knowledge.Jobs.History.{IsAt, IsAt-update}
use atlascore.Services.Knowledge.Jobs.Standing.{is_job}

module _ (py : Platform) (self : Service) (o w i : ℕ) (actor : Option ℕ) (origin : Origin)
    (draw : Draw) where
  module _ (job : KnowledgeIngestionJob) (version : KnowledgeDocumentVersion) (s : Session) where
    -- the session in which the retry is committed
    abbrev retried : Session
    retried =
        (commit (
          log
            (event py "knowledge.ingestion.retry_requested" (some o) actor
              (("job_id", Value.uuid job.id) ∷ []) origin "success")
            (update_job job.id queued s).1)).1

    requeue-ok :
        find_version job.version_id o s ≡ (ok (some version), s)
        → requeue py self o actor origin job s ≡ (ok version, retried)
    unfolding requeue update_job emit_transactional commit
    requeue-ok found =
        bind-ok (do v ← find_version job.version_id o; found_or Error.knowledge_error v)
          (λ v. do
            update_job job.id queued
            emit_transactional py "knowledge.ingestion.retry_requested" o actor
                (("job_id", Value.uuid job.id) ∷ []) origin "success"
            commit
            pure v)
          s version s
          (bind-ok (find_version job.version_id o) (found_or Error.knowledge_error) s (some version)
            s found)

    rerun-lost :
        (e : Error)
        → read self.disk version.storage_key s.blobs ≡ err e
        → rerun py self o w job.id origin.request_id draw version retried
          ≡ (err Error.knowledge_error, retried)
    unfolding rerun get update_job commit
    rerun-lost e lost =
        bind-err (handle (get self.disk version.storage_key) (λ e. raise Error.knowledge_error))
          (λ content. do
            set_knowledge_rls_context o w
            delete_chunks version.id o w
            commit
            run_ingestion py self job.id
                (record { version_id = version.id; organisation_id = o; workspace_id = w }) content
                version.media_type origin.request_id draw
            refresh_job o w job.id)
          retried Error.knowledge_error retried
          (handle-err (get self.disk version.storage_key) (λ e. raise Error.knowledge_error) retried
            e retried (ap (λ r. (r, retried)) lost))

    retry_job-lost :
        (e : Error)
        → get_job o w i s ≡ (ok job, s)
        → job.status ≡ "failed"
        → find_version job.version_id o s ≡ (ok (some version), s)
        → read self.disk version.storage_key s.blobs ≡ err e
        → retry_job py self o w i actor origin draw s ≡ (err Error.knowledge_error, retried)
    unfolding retry_job retry_found
    retry_job-lost e here failed found lost =
        bind-ok (get_job o w i) (retry_found py self o w actor origin draw) s job s here
        ∙ bind-ok
            (raise_if (not (str_eq job.status "failed"))
              Error.knowledge_ingestion_job_not_retryable)
            (λ _.
              requeue py self o actor origin job
              >>= rerun py self o w job.id origin.request_id draw)
            s tt s (rw failed refl)
        ∙ bind-ok (requeue py self o actor origin job)
            (rerun py self o w job.id origin.request_id draw) s version retried (requeue-ok found)
        ∙ rerun-lost e lost

  refused_of_queued :
      (t : Session) (found : Result (Option KnowledgeIngestionJob))
      → ((job : KnowledgeIngestionJob) → found ≡ ok (some job) → job.status ≡ "queued")
      → is_ok
          (((lift found >>= found_or Error.knowledge_ingestion_job_not_found)
              >>= retry_found py self o w actor origin draw)
            t).0
        ≡ false
  unfolding retry_found
  refused_of_queued t (err e) at = refl
  refused_of_queued t (ok none) at = refl
  refused_of_queued t (ok (some job)) at = rw (at job refl) refl

  -- a retry of a job that is queued raises
  retry_job-queued :
      (t : Session)
      → IsAt (is_job i o w) "queued" t.db.knowledge_ingestion_jobs
      → is_ok (retry_job py self o w i actor origin draw t).0 ≡ false
  unfolding retry_job get_job find_job
  retry_job-queued t at =
      refused_of_queued t (find_job (λ r. is_row i o w r.id r.organisation_id r.workspace_id) t).0
        (λ job h.
          let fits = one_or_none-some _ t.db.knowledge_ingestion_jobs job h in
          All_of_Has _ job t.db.knowledge_ingestion_jobs at fits.1 (ground (arith, fits.0)))

  found_of_ok :
      (s : Session) (found : Result (Option KnowledgeIngestionJob)) (job : KnowledgeIngestionJob)
      → ((lift found >>= found_or Error.knowledge_ingestion_job_not_found) s).0 ≡ ok job
      → found ≡ ok (some job)
  found_of_ok s (err e) job h = ground (arith, h)
  found_of_ok s (ok none) job h = ground (arith, h)
  found_of_ok s (ok (some j)) job h = ground (arith, h)

  get_job-row :
      (s : Session) (job : KnowledgeIngestionJob)
      → get_job o w i s ≡ (ok job, s)
      → (s.organisation ≡ some o) × (s.workspace ≡ some w) × (job.id ≡ i)
  unfolding get_job find_job
  get_job-row s job here =
      let found =
        found_of_ok s (find_job (λ r. is_row i o w r.id r.organisation_id r.workspace_id) s).0 job
          (ap (λ x. x.0) here) in
      let fits = one_or_none-some _ s.db.knowledge_ingestion_jobs job found in
      (ground (arith, fits.0), ground (arith, fits.0), ground (arith, fits.0))

  queued-IsAt :
      (s : Session) (job : KnowledgeIngestionJob) (version : KnowledgeDocumentVersion)
      → (s.organisation ≡ some o) × (s.workspace ≡ some w) × (job.id ≡ i)
      → IsAt (is_job i o w) "queued" (retried job version s).committed.knowledge_ingestion_jobs
  unfolding update_job commit
  queued-IsAt s job version row =
      IsAt-update (is_job i o w) (λ r. visible s r.organisation_id r.workspace_id && r.id == job.id)
        queued "queued" s.db.knowledge_ingestion_jobs
        (λ j h. ground (arith, h, row.0, row.1, row.2)) (λ j. (refl, refl))

  -- Where a job that has failed is retried, its version stands, and the version's file cannot be
  -- read, the retry raises a KnowledgeError, and every later retry of the job, on the jobs as that
  -- one committed them, raises too.
  pub retry_job-strands :
      (s : Session) (job : KnowledgeIngestionJob) (version : KnowledgeDocumentVersion) (e : Error)
      → get_job o w i s ≡ (ok job, s)
      → job.status ≡ "failed"
      → find_version job.version_id o s ≡ (ok (some version), s)
      → read self.disk version.storage_key s.blobs ≡ err e
      → let (r, s') = retry_job py self o w i actor origin draw s in
        (r ≡ err Error.knowledge_error)
        × ((t : Session)
            → t.db.knowledge_ingestion_jobs ≡ s'.committed.knowledge_ingestion_jobs
            → is_ok (retry_job py self o w i actor origin draw t).0 ≡ false)
  retry_job-strands s job version e here failed found lost =
      let done = retry_job-lost job version s e here failed found lost in
      let row = get_job-row s job here in
      (
        ap (λ x. x.0) done,
        λ t same. retry_job-queued t (
            rw (same ∙ ap (λ x. x.1.committed.knowledge_ingestion_jobs) done)
              (queued-IsAt s job version row)),
      )
