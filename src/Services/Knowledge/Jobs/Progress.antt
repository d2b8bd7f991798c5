-- ===== src/Services/Knowledge/Jobs/Progress.antt =====
-- A run of an ingestion job, `_run_ingestion` of services/knowledge_service.py, takes it from its
-- start to an end, along the table of transitions.

use atlascore.Base.{
  ap, sym, ℕ, String, ◌≡◌, refl, Bool, true, ◌&&◌, List, ◌++◌, Option, some, arith, ◌==◌, inl, inr,
  ◌⊎◌, Result, ok, err, ◌∙◌, length, map,
}
use atlascore.Platform.{Platform}
use atlascore.Db.KnowledgeModels.{KnowledgeIngestionJob, KnowledgeChunk}
use atlascore.Db.Table.{exists, count, Has}
use atlascore.Db.Table.Count.{count_mono}
use atlascore.Db.Table.Rows.{one_or_none-some, one_or_none_of_one}
use atlascore.Db.Session.{Session, commit, rollback, set_organisation, set_workspace, tenant, ◌>>◌}
use atlascore.Db.Session.Rules.{insert_rule, bind-ok}
use atlascore.Services.Audit.{emit_transactional}
use atlascore.Knowledge.Ingestion.{Target, Rows, ingest, transitions}
use atlascore.Services.Knowledge.{
  set_knowledge_rls_context, visible, find_job, update_job, add_rows, chunk_conflicts, running,
  failed, succeeded,
}
use atlascore.Services.Knowledge.Jobs.{Service, Draw, conclude, run_found, run_ingestion}
use atlascore.Services.Knowledge.Jobs.History.{Advances, latest, IsLawful, IsAt}
use atlascore.Services.Knowledge.Jobs.Standing.{
  is_job, IsOn, IsReady, IsWithin, IsEnded, update_job-IsOn, commit-IsReady,
}

-- `Clash` is what makes the database refuse the rows of a run.
module _ (base : List KnowledgeIngestionJob) (stock : List KnowledgeChunk) (Clash : Type 0)
    (i o w : ℕ) where
  -- A run that returns has ended the job; it raises only where its rows clash; and every commit of
  -- it is lawful.
  abbrev pub Ran : {A : Type 0} → Result A × Session → Type 0
  Ran (ok a, s) = IsEnded base stock i o w s
  Ran (err e, s) = IsLawful base s × Clash

  abbrev IsEnd : String → Type 0
  IsEnd st = (st ≡ "succeeded") ⊎ (st ≡ "failed")

  saved-Ran :
      (st : String) (s : Session)
      → IsEnd st
      → IsLawful base s
      → Advances (latest base s.commits) s.db.knowledge_ingestion_jobs
      → IsAt (is_job i o w) st s.db.knowledge_ingestion_jobs
      → count (is_job i o w) s.db.knowledge_ingestion_jobs ≡ 1
      → Ran (commit s)
  unfolding commit
  saved-Ran st s e lawful pending at single = record {
    lawful = record { trace = (pending, lawful.trace); last = refl };
    on = elim e [ inl same ↦ inl (rw⁻¹ same at) | inr same ↦ inr (rw⁻¹ same at) ];
    single = single;
    saved = refl;
  }

  add_rows-Ran :
      (rows : Rows) (s : Session)
      → (exists (chunk_conflicts rows) stock ≡ true → Clash)
      → IsWithin base stock i o w s
      → IsOn base stock i o w "succeeded" s
      → Ran ((add_rows o w rows >> commit) s)
  unfolding add_rows rollback
  add_rows-Ran rows s clash inside v =
      insert_rule (λ (out : Result (Unit {0}) × Session). Ran (((λ _. out) >> commit) s))
        (visible s o w) (exists (chunk_conflicts rows) s.db.knowledge_chunks)
        (λ t. record t {
          knowledge_chunks = t.knowledge_chunks ++ map (λ r. r.0) rows;
          knowledge_chunk_embeddings = t.knowledge_chunk_embeddings ++ map (λ r. r.1) rows;
        })
        s (λ h. absurd (ground (arith, h, inside.organisation, inside.workspace)))
        (λ h k. (
          record { trace = v.lawful.trace; last = v.lawful.last },
          clash (ap (λ c. exists (chunk_conflicts rows) c) (sym v.chunks) ∙ k),
        ))
        (λ h k.
          saved-Ran "succeeded" _ (inl refl)
            (record { trace = v.lawful.trace; last = v.lawful.last }) v.pending v.at v.single)

  module _ (py : Platform) (self : Service) (job : KnowledgeIngestionJob) (target : Target)
      (request_id : Option String) (draw : Draw) where
    conclude-Ran :
        (r : Result Rows) (s : Session)
        → ((rows : Rows) → r ≡ ok rows → exists (chunk_conflicts rows) stock ≡ true → Clash)
        → job.id ≡ i
        → target.organisation_id ≡ o
        → target.workspace_id ≡ w
        → IsWithin base stock i o w s
        → IsReady base stock i o w "running" s
        → Ran (conclude py self job target request_id draw r s)
    unfolding conclude emit_transactional update_job transitions
    conclude-Ran (err e) s clash same so sw inside v =
        let moved =
          update_job-IsOn base stock i o w "running" "failed"
            (failed draw.finished (draw.message e)) s refl (λ j. (refl, refl, refl)) inside v in
        rw same (
          saved-Ran "failed" _ (inr refl)
            (record { trace = moved.lawful.trace; last = moved.lawful.last }) moved.pending moved.at
            moved.single)
    conclude-Ran (ok rows) s clash same so sw inside v =
        let moved =
          update_job-IsOn base stock i o w "running" "succeeded"
            (succeeded self.provider draw.finished (length rows)) s refl (λ j. (refl, refl, refl))
            inside v in
        rw (same, so, sw)
          (add_rows-Ran rows _ (clash rows refl)
            (record { organisation = inside.organisation; workspace = inside.workspace })
            (record {
              lawful = record { trace = moved.lawful.trace; last = moved.lawful.last };
              pending = moved.pending;
              at = moved.at;
              single = moved.single;
              chunks = moved.chunks;
            }))

module _ (i o w : ℕ) where
  -- The query of a job that stands once finds it, in its workspace.
  pub find_job-single :
      (s : Session)
      → count (is_job i o w) s.db.knowledge_ingestion_jobs ≡ 1
      → (p : KnowledgeIngestionJob → Bool)
      → ((j : KnowledgeIngestionJob)
          → ((tenant (some o) j.organisation_id && tenant (some w) j.workspace_id) && p j)
            ≡ is_job i o w j)
      → (job : KnowledgeIngestionJob) × (find_job p
            (record s { organisation = some o; workspace = some w })
          ≡ (ok (some job), record s { organisation = some o; workspace = some w }))
        × (is_job i o w job ≡ true)
        × Has job s.db.knowledge_ingestion_jobs
  unfolding find_job
  find_job-single s single p same =
      let rows = s.db.knowledge_ingestion_jobs in
      let q : KnowledgeIngestionJob → Bool =
        λ j. (tenant (some o) j.organisation_id && tenant (some w) j.workspace_id) && p j in
      let (job, found) = one_or_none_of_one q rows (
        omega (
          arith,
          single,
          count_mono q (is_job i o w) rows (λ j h. sym (same j) ∙ h),
          count_mono (is_job i o w) q rows (λ j h. same j ∙ h),
        )) in
      let fits = one_or_none-some q rows job found in
      (
        job,
        ap (λ r. (r, record s { organisation = some o; workspace = some w })) found,
        sym (same job) ∙ fits.0,
        fits.1,
      )

module _ (base : List KnowledgeIngestionJob) (stock : List KnowledgeChunk) (i : ℕ) (target : Target)
    (py : Platform) (self : Service) (content : List ℕ) (media_type : String)
    (request_id : Option String) (draw : Draw) where
  abbrev o : ℕ
  o = target.organisation_id

  abbrev w : ℕ
  w = target.workspace_id

  -- The rows of the content conflict with chunks that are stored.
  pub record Clashes : Type 0 where
    pub rows : Rows
    pub made :
        ingest self.provider target draw.ids py self.texts self.settings content media_type
        ≡ ok rows
    pub taken : exists (chunk_conflicts rows) stock ≡ true

  run_found-Ran :
      (job : KnowledgeIngestionJob) (s : Session)
      → job.id ≡ i
      → IsWithin base stock i o w s
      → IsReady base stock i o w "queued" s
      → Ran base stock Clashes i o w
          (run_found py self target content media_type request_id draw (some job) s)
  unfolding run_found update_job transitions set_knowledge_rls_context set_organisation
      set_workspace commit
  run_found-Ran job s same inside v =
      let started = commit-IsReady base stock i o w "running" _ (
        update_job-IsOn base stock i o w "queued" "running" (running draw.started) s refl
          (λ j. (refl, refl, refl)) inside v) in
      conclude-Ran base stock Clashes i o w py self job target request_id draw
        (ingest self.provider target draw.ids py self.texts self.settings content media_type) _
        (λ rows made taken. record { rows = rows; made = made; taken = taken }) same refl refl
        (record { organisation = refl; workspace = refl })
        (rw same (record {
          lawful = record { trace = started.lawful.trace; last = started.lawful.last };
          saved = started.saved;
          at = started.at;
          single = started.single;
          chunks = started.chunks;
        }))

  -- A run of a job that is queued ends it, or raises where its rows clash.
  pub run_ingestion-Ran :
      (s : Session)
      → IsReady base stock i o w "queued" s
      → Ran base stock Clashes i o w
          (run_ingestion py self i target content media_type request_id draw s)
  unfolding run_ingestion set_knowledge_rls_context set_organisation set_workspace
  run_ingestion-Ran s v =
      let (job, found, mine, has) =
        find_job-single i o w s v.single (λ r. r.id == i && r.organisation_id == o)
          (λ j. ground arith) in
      let inside : Session = record s { organisation = some o; workspace = some w } in
      rw
        (bind-ok (find_job (λ r. r.id == i && r.organisation_id == o))
          (run_found py self target content media_type request_id draw) inside (some job) inside
          found)
        (run_found-Ran job inside (ground (arith, mine))
          (record { organisation = refl; workspace = refl })
          (record {
            lawful = record { trace = v.lawful.trace; last = v.lawful.last };
            saved = v.saved;
            at = v.at;
            single = v.single;
            chunks = v.chunks;
          }))
