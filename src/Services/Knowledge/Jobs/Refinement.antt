-- ===== src/Services/Knowledge/Jobs/Refinement.antt =====
-- The methods of services/knowledge_service.py that work on ingestion jobs change their status only
-- as the table of db/models/knowledge_ingestion_job.py allows, and end the job when they return.
use mathlib.Core.Path.{subst}
use atlascore.Base.{
  ℕ, String, ◌≡◌, List, Option, some, arith, inl, inr, ◌⊎◌, Result, ok, err, Error, ◌==◌,
}
use atlascore.Platform.{Platform}
use atlascore.Db.KnowledgeModels.{KnowledgeIngestionJob, KnowledgeChunk}
use atlascore.Db.Table.{Has}
use atlascore.Db.Table.Rows.{All_of_Has}
use atlascore.Db.Session.{Session, set_organisation, set_workspace, ◌>>◌}
use atlascore.Db.Session.Rules.{bind-ok}
use atlascore.Knowledge.Ingestion.{Target}
use atlascore.Services.Knowledge.{set_knowledge_rls_context, found_or, find_job}
use atlascore.Services.Knowledge.Jobs.{Service, Draw, run_ingestion, refresh_job}
use atlascore.Services.Knowledge.Jobs.History.{IsLawful}
use atlascore.Services.Knowledge.Jobs.Progress.{Ran, Clashes, find_job-single, run_ingestion-Ran}
use atlascore.Services.Knowledge.Jobs.Standing.{IsReady, IsEnded}

-- What a method tells of the job that it returns: it stands, committed, at an end.
pub record IsDone (i o w : ℕ) (job : KnowledgeIngestionJob) (s : Session) : Type 0 where
  pub job_id : job.id ≡ i
  pub stands : Has job s.committed.knowledge_ingestion_jobs
  pub ended : (job.status ≡ "succeeded") ⊎ (job.status ≡ "failed")

-- `Excuse` is what a method needs to raise.
module _ (base : List KnowledgeIngestionJob) (Excuse : Type 0) (i o w : ℕ) where
  -- Every commit was lawful; what is returned is done; and nothing is raised without an excuse.
  abbrev pub Ends : Result KnowledgeIngestionJob × Session → Type 0
  Ends (ok job, s) = IsLawful base s × IsDone i o w job s
  Ends (err e, s) = IsLawful base s × Excuse

  refresh_job-Ends :
      (stock : List KnowledgeChunk) (s : Session)
      → IsEnded base stock i o w s
      → Ends (refresh_job o w i s)
  unfolding refresh_job set_knowledge_rls_context set_organisation set_workspace
  refresh_job-Ends stock s v =
      let (job, found, mine, has) =
        find_job-single i o w s v.single (λ r. r.id == i) (λ j. ground arith) in
      let inside : Session = record s { organisation = some o; workspace = some w } in
      rw
        (bind-ok (find_job (λ r. r.id == i)) (found_or Error.invalid_request_error) inside
          (some job) inside found)
        (
          record { trace = v.lawful.trace; last = v.lawful.last },
          record {
            job_id = ground (arith, mine);
            stands = subst (λ jobs. Has job jobs) v.saved has;
            ended = elim v.on [
              | inl at ↦ inl (All_of_Has _ job _ at has mine)
              | inr at ↦ inr (All_of_Has _ job _ at has mine)
            ];
          },
        )

module _ (py : Platform) (self : Service) (base : List KnowledgeIngestionJob)
    (stock : List KnowledgeChunk) (Excuse : Type 0) (target : Target) (i : ℕ) (content : List ℕ)
    (media_type : String) (request_id : Option String) (draw : Draw) where
  -- a run and the refresh behind it
  pub run_then_refresh-Ends :
      (s : Session)
      → (Clashes base stock i target py self content media_type request_id draw → Excuse)
      → IsReady base stock i target.organisation_id target.workspace_id "queued" s
      → Ends base Excuse i target.organisation_id target.workspace_id (
          (run_ingestion py self i target content media_type request_id draw
              >> refresh_job target.organisation_id target.workspace_id i)
            s)
  run_then_refresh-Ends s excuse v =
      after (run_ingestion py self i target content media_type request_id draw s)
        (run_ingestion-Ran base stock i target py self content media_type request_id draw s v)
    where
      after :
          (out : Result (Unit {0}) × Session)
          → Ran base stock
              (Clashes base stock i target py self content media_type request_id draw)
              i
              target.organisation_id
              target.workspace_id
              out
          → Ends base Excuse i target.organisation_id target.workspace_id
              (((λ _. out) >> refresh_job target.organisation_id target.workspace_id i) s)
      after (ok a, t) r =
          refresh_job-Ends base Excuse i target.organisation_id target.workspace_id stock t r
      after (err e, t) r = (r.0, excuse r.1)
