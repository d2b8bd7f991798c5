-- ===== src/Services/Knowledge/Jobs/Standing.antt =====
-- Where the ingestion jobs stand in a session, and how the statements of
-- services/knowledge_service.py move one of them.
use mathlib.Core.Path.{subst}
use atlascore.Base.{
  ℕ, String, ◌≡◌, refl, Bool, true, ◌&&◌, List, some, arith, ◌==◌, contains, ◌⊎◌, ◌∙◌,
}
use atlascore.Db.KnowledgeModels.{KnowledgeIngestionJob, KnowledgeChunk}
use atlascore.Db.Table.{count, update}
use atlascore.Db.Table.Count.{count-update_same}
use atlascore.Db.Session.{Session, commit}
use atlascore.Knowledge.Ingestion.{transitions}
use atlascore.Services.Knowledge.{visible, is_row, update_job}
use atlascore.Services.Knowledge.Jobs.History.{
  Advances, Advances-update, latest, IsLawful, IsAt, IsAt-IsMove, IsAt-update,
}

-- the rows of a job of a workspace
abbrev pub is_job : ℕ → ℕ → ℕ → KnowledgeIngestionJob → Bool
is_job i o w j = is_row i o w j.id j.organisation_id j.workspace_id

-- `stock` are the chunks that a run finds.
module _ (base : List KnowledgeIngestionJob) (stock : List KnowledgeChunk) (i o w : ℕ) where
  -- All commits so far are lawful; what is pending is one step from them; the job stands once, and
  -- is at a status.
  pub record IsOn (st : String) (s : Session) : Type 0 where
    pub lawful : IsLawful base s
    pub pending : Advances (latest base s.commits) s.db.knowledge_ingestion_jobs
    pub at : IsAt (is_job i o w) st s.db.knowledge_ingestion_jobs
    pub single : count (is_job i o w) s.db.knowledge_ingestion_jobs ≡ 1
    pub chunks : s.db.knowledge_chunks ≡ stock

  -- The same where nothing is pending.
  pub record IsReady (st : String) (s : Session) : Type 0 where
    pub lawful : IsLawful base s
    pub saved : s.db.knowledge_ingestion_jobs ≡ latest base s.commits
    pub at : IsAt (is_job i o w) st s.db.knowledge_ingestion_jobs
    pub single : count (is_job i o w) s.db.knowledge_ingestion_jobs ≡ 1
    pub chunks : s.db.knowledge_chunks ≡ stock

  -- The session is within the job's workspace.
  pub record IsWithin (s : Session) : Type 0 where
    pub organisation : s.organisation ≡ some o
    pub workspace : s.workspace ≡ some w

  pub update_job-IsOn :
      (before after : String) (f : KnowledgeIngestionJob → KnowledgeIngestionJob) (s : Session)
      → contains after (transitions before) ≡ true
      → ((j : KnowledgeIngestionJob)
          → ((f j).status ≡ after) × ((f j).id ≡ j.id) × (is_job i o w (f j) ≡ is_job i o w j))
      → IsWithin s
      → IsReady before s
      → IsOn after (update_job i f s).1
  unfolding update_job
  update_job-IsOn before after f s allowed sets inside v = record {
    lawful = record { trace = v.lawful.trace; last = v.lawful.last };
    pending =
        subst (λ jobs. Advances jobs (update reached f s.db.knowledge_ingestion_jobs)) v.saved
          (Advances-update reached f s.db.knowledge_ingestion_jobs (
            IsAt-IsMove (is_job i o w) reached f before after s.db.knowledge_ingestion_jobs allowed
              (λ j h. ground (arith, h, inside.organisation, inside.workspace))
              (λ j. ((sets j).0, (sets j).1)) v.at));
    at =
        IsAt-update (is_job i o w) reached f after s.db.knowledge_ingestion_jobs
          (λ j h. ground (arith, h, inside.organisation, inside.workspace))
          (λ j. ((sets j).0, (sets j).2));
    single =
        count-update_same (is_job i o w) reached f s.db.knowledge_ingestion_jobs (λ j h. (sets j).2)
        ∙ v.single;
    chunks = v.chunks;
  }
    where
      reached : KnowledgeIngestionJob → Bool
      reached j = visible s j.organisation_id j.workspace_id && j.id == i

  -- A commit is one step more.
  pub commit-IsReady : (st : String) (s : Session) → IsOn st s → IsReady st (commit s).1
  unfolding commit
  commit-IsReady st s v = record {
    lawful = record { trace = (v.pending, v.lawful.trace); last = refl };
    saved = refl;
    at = v.at;
    single = v.single;
    chunks = v.chunks;
  }

  -- The job has come to an end, which is committed.
  pub record IsEnded (s : Session) : Type 0 where
    pub lawful : IsLawful base s
    pub on :
        IsAt (is_job i o w) "succeeded" s.db.knowledge_ingestion_jobs
        ⊎ IsAt (is_job i o w) "failed" s.db.knowledge_ingestion_jobs
    pub single : count (is_job i o w) s.db.knowledge_ingestion_jobs ≡ 1
    pub saved : s.db.knowledge_ingestion_jobs ≡ s.committed.knowledge_ingestion_jobs
