-- ===== src/Services/Knowledge/Jobs/Retry.antt =====
-- `retry_job` of services/knowledge_service.py: it ends the job, or raises for one of
-- the reasons of Excuses.
use mathlib.Core.Path.{subst}
use atlascore.Base.{
  ◌&&◌, sym, is_ok, true, false, ℕ, ◌≡◌, refl, not, List, [], ◌∷◌, Option, none, some, arith,
  All-map, Result, ok, err, Error, ap, ◌∙◌, str_eq, str_eq_iff,
}
use atlascore.Platform.{Platform}
use atlascore.Db.Models.{Value}
use atlascore.Db.KnowledgeModels.{KnowledgeIngestionJob, KnowledgeDocumentVersion, KnowledgeChunk}
use atlascore.Db.Table.Rows.{one_or_none-some, one_or_none-only, one_or_none-count}
use atlascore.Db.Table.{exists}
use atlascore.Db.Table.Count.{count_mono}
use atlascore.Db.Session.{
  Tables, Session, commit, set_organisation, set_workspace, pure, raise, lift, handle, ◌>>=◌, ◌>>◌,
}
use atlascore.Db.Session.Rules.{bind_rule, raise_if_rule}
use atlascore.Services.Audit.{Origin, emit_transactional}
use atlascore.Knowledge.BlobStore.{read, get}
use atlascore.Knowledge.Ingestion.{transitions}
use atlascore.Services.Knowledge.{
  set_knowledge_rls_context, visible, is_row, found_or, find_job, find_version, get_job, update_job,
  delete_chunks, chunk_conflicts, queued,
}
use atlascore.Services.Knowledge.Jobs.{Service, Draw, run_ingestion, refresh_job}
use atlascore.Services.Knowledge.Jobs.Retries.{requeue, rerun, retry_found, retry_job}
use atlascore.Services.Knowledge.Jobs.History.{Advances, Advances-refl, IsLawful, Trace, latest}
use atlascore.Services.Knowledge.Jobs.Standing.{
  is_job, IsReady, IsWithin, update_job-IsOn, commit-IsReady,
}
use atlascore.Services.Knowledge.Jobs.Refinement.{Ends, run_then_refresh-Ends}
use atlascore.Services.Knowledge.Jobs.Excuses.{
  load-same, load-fails, load-reads, target, kept, IsFound, Excuse,
}

module _ (py : Platform) (self : Service) (base : List KnowledgeIngestionJob) (o w : ℕ)
    (job : KnowledgeIngestionJob) (actor : Option ℕ) (origin : Origin) (draw : Draw)
    (start : Session) where
  abbrev i : ℕ
  i = job.id

  abbrev Reason : Type 0
  Reason = Excuse py self o w i draw start

  abbrev stock : List KnowledgeChunk
  stock = start.db.knowledge_chunks

  -- once the job is queued and its version found
  rerun-Ends :
      (version : KnowledgeDocumentVersion) (s : Session)
      → IsFound py self o w i draw version start
      → s.blobs ≡ start.blobs
      → IsReady base stock i o w "queued" s
      → Ends base Reason i o w (rerun py self o w i origin.request_id draw version s)
  unfolding rerun set_knowledge_rls_context set_organisation set_workspace delete_chunks commit
  rerun-Ends version s stands same v =
      let left = kept py self o w i draw version s.db.knowledge_chunks in
      bind_rule (Ends base Reason i o w)
        (handle (get self.disk version.storage_key) (λ e. raise Error.knowledge_error))
        (λ content. do
          set_knowledge_rls_context o w
          delete_chunks version.id o w
          commit
          run_ingestion py self i (target py self o w i draw version) content version.media_type
              origin.request_id draw
          refresh_job o w i)
        s
        (λ e h.
          let lost = load-fails self.disk version.storage_key s e h in
          (
            subst (IsLawful base) (sym (load-same self.disk version.storage_key s)) v.lawful,
            Excuse.unreadable version stands
                (subst (λ b. is_ok (read self.disk version.storage_key b) ≡ false) same lost),
          ))
        (λ content h.
          let got = load-reads self.disk version.storage_key s content h in
          run_then_refresh-Ends py self base left Reason (target py self o w i draw version) i
            content version.media_type origin.request_id draw _
            (λ c.
              Excuse.clash version content c.rows stands
                (subst (λ b. read self.disk version.storage_key b ≡ ok content) same got) c.made
                (subst
                  (λ chunks.
                    exists (chunk_conflicts c.rows) (kept py self o w i draw version chunks) ≡ true)
                  v.chunks c.taken))
            (subst
              (λ (t : Session). IsReady base left i o w "queued" (record t {
                organisation = none;
                user = none;
                workspace = none;
                db = cleared version t;
                committed = cleared version t;
                commits = cleared version t ∷ t.commits;
              }))
              (sym (load-same self.disk version.storage_key s))
              (record {
                lawful = record {
                  trace = (
                    subst (λ jobs. Advances jobs s.db.knowledge_ingestion_jobs) v.saved
                        (Advances-refl s.db.knowledge_ingestion_jobs),
                    v.lawful.trace,
                  );
                  last = refl;
                };
                saved = refl;
                at = v.at;
                single = v.single;
                chunks = refl;
              })))
    where
      cleared : KnowledgeDocumentVersion → Session → Tables
      cleared version t =
          (delete_chunks version.id o w
            (record t { organisation = some o; workspace = some w })).1.db

  abbrev Requeued : Result KnowledgeDocumentVersion × Session → Type 0
  Requeued (ok version, s) =
      IsReady base stock i o w "queued" s
      × (s.blobs ≡ start.blobs)
      × IsFound py self o w i draw version start
  Requeued (err e, s) = IsLawful base s × Reason

  requeue_version-Requeued :
      (found : Result (Option KnowledgeDocumentVersion))
      → (is_ok ((lift found >>= found_or Error.knowledge_error) start).0 ≡ false → Reason)
      → ((version : KnowledgeDocumentVersion)
          → found ≡ ok (some version)
          → IsFound py self o w i draw version start)
      → IsWithin base stock i o w start
      → IsReady base stock i o w "failed" start
      → Requeued (
          ((lift found >>= found_or Error.knowledge_error) >>= λ version. (do
            update_job i queued
            emit_transactional py "knowledge.ingestion.retry_requested" o actor
                (("job_id", Value.uuid i) ∷ [])
                origin
                "success"
            commit
            pure version))
            start)
  unfolding update_job emit_transactional commit
  requeue_version-Requeued (err e) excuse stands inside v = (v.lawful, excuse refl)
  requeue_version-Requeued (ok none) excuse stands inside v = (v.lawful, excuse refl)
  requeue_version-Requeued (ok (some version)) excuse stands inside v =
      let moved = commit-IsReady base stock i o w "queued" _ (
        update_job-IsOn base stock i o w "failed" "queued" queued start (unfold transitions in refl)
          (λ j. (refl, refl, refl)) inside v) in
      (
        record {
          lawful = record { trace = moved.lawful.trace; last = refl };
          saved = refl;
          at = moved.at;
          single = moved.single;
          chunks = moved.chunks;
        },
        refl,
        stands version refl,
      )

  requeue-Requeued :
      (get_job o w i start).0 ≡ ok job
      → IsWithin base stock i o w start
      → IsReady base stock i o w "failed" start
      → Requeued (requeue py self o actor origin job start)
  unfolding requeue find_version
  requeue-Requeued here inside v =
      requeue_version-Requeued (find_version job.version_id o start).0
        (λ h. Excuse.no_version job here h)
        (λ version h. record {
          job = job;
          here = here;
          found =
              ap
                (λ (r : Result (Option KnowledgeDocumentVersion)).
                  ((lift r >>= found_or Error.knowledge_error) start).0)
                h;
        })
        inside v

  retry_found-Ends :
      (get_job o w i start).0 ≡ ok job
      → IsWithin base stock i o w start
      → IsLawful base start
      → (job.status ≡ "failed" → IsReady base stock i o w "failed" start)
      → Ends base Reason i o w (retry_found py self o w actor origin draw job start)
  unfolding retry_found
  retry_found-Ends here inside lawful on =
      raise_if_rule (Ends base Reason i o w) (not (str_eq job.status "failed"))
        Error.knowledge_ingestion_job_not_retryable
        (requeue py self o actor origin job >>= rerun py self o w i origin.request_id draw) start
        (λ h. (
          lawful,
          Excuse.not_failed job here
              (λ e. ground (arith, h, e, (str_eq_iff job.status "failed").1)),
        ))
        (λ h.
          after (requeue py self o actor origin job start)
            (requeue-Requeued here inside (on (ground (arith, h, str_eq_iff job.status "failed")))))
    where
      after :
          (out : Result KnowledgeDocumentVersion × Session)
          → Requeued out
          → Ends base Reason i o w
              (((λ _. out) >>= rerun py self o w i origin.request_id draw) start)
      after (ok version, t) v = rerun-Ends version t v.2 v.1 v.0
      after (err e, t) v = v

module _ (py : Platform) (self : Service) (o w i : ℕ) (actor : Option ℕ) (origin : Origin)
    (draw : Draw) where
  found-Ends :
      (s : Session) (found : Result (Option KnowledgeIngestionJob))
      → IsLawful s.committed.knowledge_ingestion_jobs s
      → (is_ok ((lift found >>= found_or Error.knowledge_ingestion_job_not_found) s).0 ≡ false
          → Excuse py self o w i draw s)
      → ((job : KnowledgeIngestionJob)
          → found ≡ ok (some job)
          → Ends s.committed.knowledge_ingestion_jobs
              (Excuse py self o w i draw s)
              i
              o
              w
              (retry_found py self o w actor origin draw job s))
      → Ends s.committed.knowledge_ingestion_jobs (Excuse py self o w i draw s) i o w (
          ((lift found >>= found_or Error.knowledge_ingestion_job_not_found)
              >>= retry_found py self o w actor origin draw)
            s)
  found-Ends s (err e) lawful excuse goes = (lawful, excuse refl)
  found-Ends s (ok none) lawful excuse goes = (lawful, excuse refl)
  found-Ends s (ok (some job)) lawful excuse goes = goes job refl

  -- In a session that has committed nothing yet and whose jobs are as they are committed, every
  -- commit of a retry takes each job by at most one transition that the table allows, whatever the
  -- outcome. The retry returns, and then its job is the one asked for, stands committed, and has
  -- succeeded or failed; it raises only where there is no such job, the job has not failed, its
  -- version is gone, the version's file cannot be read, or the rows made of the content conflict with
  -- chunks that the retry does not delete.
  pub retry_job-Ends :
      (s : Session)
      → s.commits ≡ []
      → s.db.knowledge_ingestion_jobs ≡ s.committed.knowledge_ingestion_jobs
      → Ends s.committed.knowledge_ingestion_jobs
          (Excuse py self o w i draw s)
          i
          o
          w
          (retry_job py self o w i actor origin draw s)
  unfolding retry_job get_job find_job
  retry_job-Ends s new clean =
      let base = s.committed.knowledge_ingestion_jobs in
      let stock = s.db.knowledge_chunks in
      let lawful : IsLawful base s = record {
        trace = subst (Trace base) (sym new) tt;
        last = subst (λ c. base ≡ latest base c) (sym new) refl;
      } in
      found-Ends s (find_job (λ r. is_row i o w r.id r.organisation_id r.workspace_id) s).0 lawful
        (λ h. Excuse.no_job h)
        (λ job h.
          let fits = one_or_none-some _ s.db.knowledge_ingestion_jobs job h in
          let only = one_or_none-only _ s.db.knowledge_ingestion_jobs job h in
          let same : job.id ≡ i = ground (arith, fits.0) in
          subst
            (λ j.
              (get_job o w j s).0 ≡ ok job
              → Ends base (Excuse py self o w j draw s) j o w
                  (retry_found py self o w actor origin draw job s))
            same
            (λ here.
              retry_found-Ends py self base o w job actor origin draw s here
                (record {
                  organisation = ground (arith, fits.0);
                  workspace = ground (arith, fits.0);
                })
                lawful
                (λ failed. record {
                  lawful = lawful;
                  saved = clean ∙ lawful.last;
                  at =
                      All-map s.db.knowledge_ingestion_jobs
                        (λ r alone mine.
                          ap (λ x. x.status) (alone (ground (arith, fits.0, mine, same))) ∙ failed)
                        only;
                  single = omega (
                    arith,
                    one_or_none-count _ s.db.knowledge_ingestion_jobs job h,
                    count_mono (is_job job.id o w)
                        (λ r.
                          visible s r.organisation_id r.workspace_id
                          && is_row i o w r.id r.organisation_id r.workspace_id)
                        s.db.knowledge_ingestion_jobs
                        (λ r mine. ground (arith, fits.0, mine, same)),
                    count_mono
                        (λ r.
                          visible s r.organisation_id r.workspace_id
                          && is_row i o w r.id r.organisation_id r.workspace_id)
                        (is_job job.id o w) s.db.knowledge_ingestion_jobs
                        (λ r mine. ground (arith, mine, same)),
                  );
                  chunks = refl;
                }))
            (ap
              (λ (r : Result (Option KnowledgeIngestionJob)).
                ((lift r >>= found_or Error.knowledge_ingestion_job_not_found) s).0)
              h))
