-- ===== src/Services/Knowledge/Jobs/Completion.antt =====
-- `upload_document` of services/knowledge_service.py ends the job of the upload, or raises.
use mathlib.Core.Path.{subst}
use atlascore.Base.{
  ℕ, String, ◌≡◌, refl, sym, ap, ◌∙◌, false, is_ok, List, [], ◌∷◌, ◌++◌, arith, Result, ok, err,
  Error, length,
}
use atlascore.Platform.{Platform}
use atlascore.Db.Models.{Value}
use atlascore.Db.KnowledgeModels.{
  KnowledgeIngestionJob, KnowledgeDocument, KnowledgeDocumentVersion,
}
use atlascore.Db.Table.{exists, count}
use atlascore.Db.Table.Count.{count-append, count_mono, count-zero_of_exists}
use atlascore.Db.Session.{Session, commit, rollback, pure, raise, handle, Action, ◌>>=◌, ◌>>◌}
use atlascore.Db.Session.Rules.{bind_rule, insert_rule, bind_after, bind_fails}
use atlascore.Services.Audit.{emit_transactional}
use atlascore.Services.Knowledge.{visible, add_version, add_job, job_conflicts}
use atlascore.Services.Knowledge.Jobs.{Service, Draw}
use atlascore.Services.Knowledge.Jobs.Uploads.{
  Upload, target_of, document_of, version_of, job_of, admit, store, job_failure, enqueue,
  ingest_upload, upload_document,
}
use atlascore.Services.Knowledge.Jobs.History.{Advances-append, latest, IsLawful, IsAt-append}
use atlascore.Services.Knowledge.Jobs.Progress.{Clashes}
use atlascore.Services.Knowledge.Jobs.Standing.{is_job, IsOn, IsReady, commit-IsReady}
use atlascore.Services.Knowledge.Jobs.Refinement.{Ends, run_then_refresh-Ends}
use atlascore.Services.Knowledge.Jobs.Submission.{
  IsClean, admit-Keeps, store-Keeps, add_version-Keeps,
}

module _ (base : List KnowledgeIngestionJob) (u : Upload) where
  clean-IsLawful : (s : Session) → IsClean base s → IsLawful base s
  clean-IsLawful s v = record {
    trace = rw v.begun tt;
    last = v.committed ∙ sym (ap (latest base) v.begun);
  }

  -- a success has put the job of the upload in the queue
  abbrev Put : {A : Type 0} → Result A × Session → Type 0
  Put (ok a, s) =
      IsOn base s.db.knowledge_chunks u.job_id u.organisation_id u.workspace_id "queued" s
  Put (err e, s) = IsLawful base s

  -- a success has committed it there
  abbrev Queued : {A : Type 0} → Result A × Session → Type 0
  Queued (ok a, s) =
      IsReady base s.db.knowledge_chunks u.job_id u.organisation_id u.workspace_id "queued" s
  Queued (err e, s) = IsLawful base s

  handled-Put :
      (f : Error → Error) (s : Session) (out : Result (Unit {0}) × Session)
      → Put out
      → Put (handle (λ _. out) (λ e. raise (f e)) s)
  handled-Put f s (ok a, t) v = v
  handled-Put f s (err e, t) v = v

  put_once :
      (jobs : List KnowledgeIngestionJob)
      → exists (job_conflicts (job_of u)) jobs ≡ false
      → count (is_job u.job_id u.organisation_id u.workspace_id) (jobs ++ job_of u ∷ []) ≡ 1
  unfolding job_of job_conflicts
  put_once jobs free = ground (
    arith,
    count-append (is_job u.job_id u.organisation_id u.workspace_id) jobs (job_of u),
    count-zero_of_exists (job_conflicts (job_of u)) jobs free,
    count_mono (is_job u.job_id u.organisation_id u.workspace_id) (job_conflicts (job_of u)) jobs
        (λ r k. ground (arith, k)),
  )

  add_job-Put : (s : Session) → IsClean base s → Put (add_job (job_of u) s)
  unfolding add_job rollback job_of job_conflicts
  add_job-Put s v =
      let lawful = clean-IsLawful s v in
      insert_rule (λ (r : Result (Unit {0}) × Session). Put r)
        (visible s u.organisation_id u.workspace_id)
        (exists (job_conflicts (job_of u)) s.db.knowledge_ingestion_jobs)
        (λ t. record t { knowledge_ingestion_jobs = t.knowledge_ingestion_jobs ++ job_of u ∷ [] }) s
        (λ h. record { trace = lawful.trace; last = lawful.last })
        (λ h k. record { trace = lawful.trace; last = lawful.last })
        (λ h free. record {
          lawful = record { trace = lawful.trace; last = lawful.last };
          pending = rw (v.begun, v.pending) (Advances-append base (job_of u) refl);
          at =
              IsAt-append (is_job u.job_id u.organisation_id u.workspace_id)
                (job_conflicts (job_of u)) (job_of u) s.db.knowledge_ingestion_jobs free
                (λ r k. ground (arith, k));
          single = put_once s.db.knowledge_ingestion_jobs free;
          chunks = refl;
        })

  module _ (py : Platform) (self : Service) where
    finish_enqueue-Queued :
        (number : ℕ) (fields : List (String × Value)) (s : Session)
        → IsOn base s.db.knowledge_chunks u.job_id u.organisation_id u.workspace_id "queued" s
        → Queued (
            (emit_transactional py "knowledge.document.uploaded" u.organisation_id u.actor_user_id
                  fields u.origin "success"
                >> (commit >> pure (version_of py self u number)))
              s)
    unfolding emit_transactional commit
    finish_enqueue-Queued number fields s v =
        let done =
          commit-IsReady base s.db.knowledge_chunks u.job_id u.organisation_id u.workspace_id
            "queued" s v in
        record {
          lawful = record { trace = done.lawful.trace; last = done.lawful.last };
          saved = done.saved;
          at = done.at;
          single = done.single;
          chunks = done.chunks;
        }

    finished-Queued :
        (number : ℕ) (fields : List (String × Value)) (s : Session)
        (out : Result (Unit {0}) × Session)
        → Put out
        → Queued (
            ((λ _. out)
                >> (emit_transactional py "knowledge.document.uploaded" u.organisation_id
                      u.actor_user_id fields u.origin "success"
                    >> (commit >> pure (version_of py self u number))))
              s)
    finished-Queued number fields s (ok a, t) v = finish_enqueue-Queued number fields t v
    finished-Queued number fields s (err e, t) v = v

    enqueue-Queued :
        (number : ℕ) (s : Session) → IsClean base s → Queued (enqueue py self u number s)
    unfolding enqueue
    enqueue-Queued number s v =
        let stored = (add_version-Keeps base (version_of py self u number)).keep s v in
        bind_rule Queued (add_version (version_of py self u number))
          (λ _. do
            handle (add_job (job_of u)) (λ e. raise (job_failure e))
            emit_transactional py "knowledge.document.uploaded" u.organisation_id u.actor_user_id
                (("document_id", Value.uuid u.document_id)
                  ∷ ("version_id", Value.uuid u.version_id)
                  ∷ ("source_id", Value.uuid u.source_id)
                  ∷ ("content_sha256", Value.text (self.disk.sha256 u.content))
                  ∷ ("size_bytes", Value.number (length u.content))
                  ∷ ("media_type", Value.text u.media_type)
                  ∷ [])
                u.origin "success"
            commit
            pure (version_of py self u number))
          s (λ e h. clean-IsLawful _ stored)
          (λ a h.
            let t = (add_version (version_of py self u number) s).1 in
            finished-Queued number _ t (handle (add_job (job_of u)) (λ e. raise (job_failure e)) t)
              (handled-Put job_failure t (add_job (job_of u) t) (add_job-Put t stored)))

  -- Every commit was lawful; the job of an upload that returns is done; and nothing is raised
  -- without an excuse.
  abbrev pub Completes :
      Type 0
      → Result (KnowledgeDocument × KnowledgeDocumentVersion × KnowledgeIngestionJob) × Session
      → Type 0
  Completes Excuse (ok (document, version, job), s) =
      Ends base Excuse u.job_id u.organisation_id u.workspace_id (ok job, s)
  Completes Excuse (err e, s) = IsLawful base s × Excuse

  -- the steps of an upload up to its first commit
  abbrev pub submit : Platform → Service → Action KnowledgeDocumentVersion
  submit py self = admit py self u >> (store py self u >>= λ number. enqueue py self u number)

  -- Why an upload may raise: a step before its first commit does, or the rows of its run conflict
  -- with chunks that are stored.
  pub data Excuse (py : Platform) (self : Service) (draw : Draw) (s : Session) : Type 0 where
    refused : is_ok (submit py self s).0 ≡ false → Excuse py self draw s
    clash :
        Clashes base
          (submit py self s).1.db.knowledge_chunks
          u.job_id
          (target_of u)
          py
          self
          u.content
          u.media_type
          u.origin.request_id
          draw
        → Excuse py self draw s

  module _ (E : Type 0) where
    returned-Completes :
        (version : KnowledgeDocumentVersion) (s : Session)
        (out : Result KnowledgeIngestionJob × Session)
        → Ends base E u.job_id u.organisation_id u.workspace_id out
        → Completes E (((λ _. out) >>= λ job. pure (document_of u, version, job)) s)
    returned-Completes version s (ok job, t) v = v
    returned-Completes version s (err e, t) v = v

  module _ (py : Platform) (self : Service) (draw : Draw) where
    ingest_upload-Completes :
        (E : Type 0) (s : Session) (out : Result KnowledgeDocumentVersion × Session)
        → (is_ok out.0 ≡ false → E)
        → (Clashes base out.1.db.knowledge_chunks u.job_id
              (target_of u)
              py
              self
              u.content
              u.media_type
              u.origin.request_id
              draw
            → E)
        → Queued out
        → Completes E (
            ((λ _. out) >>= λ version.
            ingest_upload py self u draw >>= λ job. pure (document_of u, version, job))
              s)
    unfolding ingest_upload target_of
    ingest_upload-Completes E s (err e, t) refuses clashes v = (v, refuses refl)
    ingest_upload-Completes E s (ok version, t) refuses clashes v =
        returned-Completes E version t (ingest_upload py self u draw t) (
          run_then_refresh-Ends py self base t.db.knowledge_chunks E (target_of u) u.job_id
            u.content u.media_type u.origin.request_id draw t clashes v)

    -- In a session that has committed nothing yet and whose jobs are as they are committed, every
    -- commit of an upload takes each job by at most one transition that the table allows, and adds
    -- only jobs that start out queued, whatever the outcome. The upload returns, and then its job
    -- has the id drawn for it, stands committed, and has succeeded or failed; it raises only where
    -- one of its steps before the first commit raises, or the rows made of the content conflict
    -- with chunks that are stored.
    pub upload_document-Completes :
        (s : Session)
        → s.commits ≡ []
        → s.db.knowledge_ingestion_jobs ≡ base
        → s.committed.knowledge_ingestion_jobs ≡ base
        → Completes (Excuse py self draw s) (upload_document py self u draw s)
    unfolding upload_document
    upload_document-Completes s begun pending committed =
        let rest = λ (number : ℕ). enqueue py self u number in
        let admitted =
          (admit-Keeps base py self u).keep s
            (record { pending = pending; committed = committed; begun = begun }) in
        let t = (admit py self u s).1 in
        let kept = (store-Keeps base py self u).keep t admitted in
        bind_rule (Completes (Excuse py self draw s)) (admit py self u)
          (λ _. store py self u >>= λ number. enqueue py self u number >>= λ version.
            ingest_upload py self u draw >>= λ job. pure (document_of u, version, job))
          s
          (λ e h. (
            clean-IsLawful t admitted,
            refused (bind_fails (admit py self u) (λ _. store py self u >>= rest) s e h),
          ))
          (λ a h.
            let begins = bind_after (admit py self u) (λ _. store py self u >>= rest) s a h in
            bind_rule (Completes (Excuse py self draw s)) (store py self u)
              (λ number. enqueue py self u number >>= λ version.
                ingest_upload py self u draw >>= λ job. pure (document_of u, version, job))
              t
              (λ e k. (
                clean-IsLawful _ kept,
                refused (ap (λ x. is_ok x.0) begins ∙ bind_fails (store py self u) rest t e k),
              ))
              (λ number k.
                let submits = begins ∙ bind_after (store py self u) rest t number k in
                ingest_upload-Completes (Excuse py self draw s) (store py self u t).1
                  (enqueue py self u number (store py self u t).1)
                  (λ h'. refused (ap (λ x. is_ok x.0) submits ∙ h'))
                  (λ c. clash (
                    subst
                      (λ x.
                        Clashes base x.1.db.knowledge_chunks u.job_id (target_of u) py self
                          u.content u.media_type u.origin.request_id draw)
                      (sym submits) c))
                  (enqueue-Queued py self number _ kept)))
