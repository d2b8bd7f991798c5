-- ===== src/Services/Knowledge/Jobs/History.antt =====
-- How the rows of the ingestion jobs may change: along the table of transitions of
-- db/models/knowledge_ingestion_job.py.
use atlascore.Base.{
  String, ◌≡◌, refl, Bool, true, false, List, [], ◌∷◌, ◌++◌, arith, contains, All, All-map,
  if◌then◌else◌,
}
use atlascore.Db.KnowledgeModels.{KnowledgeIngestionJob}
use atlascore.Db.Session.{Session, Tables}
use atlascore.Db.Table.{update, exists}
use atlascore.Knowledge.Ingestion.{transitions}

abbrev Job : Type 0
Job = KnowledgeIngestionJob

-- What one commit may do to a status: nothing, or one transition of the table.
pub data Step : String → String → Type 0 where
  stay : {a : String} → Step a a
  move : {a b : String} → contains b (transitions a) ≡ true → Step a b

-- The rows of the jobs before and after one commit: no row goes, each makes at most one step, and
-- what is new is queued.
pub data Advances : List KnowledgeIngestionJob → List KnowledgeIngestionJob → Type 0 where
  began : {new : List KnowledgeIngestionJob} → All (λ j. j.status ≡ "queued") new → Advances [] new
  went :
      {j k : KnowledgeIngestionJob} {js ks : List KnowledgeIngestionJob}
      → k.id ≡ j.id
      → Step j.status k.status
      → Advances js ks
      → Advances (j ∷ js) (k ∷ ks)

pub Advances-refl : (js : List KnowledgeIngestionJob) → Advances js js
Advances-refl [] = began tt
Advances-refl (j ∷ js) = went refl stay (Advances-refl js)

pub Advances-append :
    (js : List KnowledgeIngestionJob) (j : KnowledgeIngestionJob)
    → j.status ≡ "queued"
    → Advances js (js ++ j ∷ [])
Advances-append [] j e = began (e, tt)
Advances-append (x ∷ js) j e = went refl stay (Advances-append js j e)

-- an update of the job is one step
abbrev pub IsMove : (Job → Bool) → (Job → Job) → Job → Type 0
IsMove p f j = p j ≡ true → Step j.status (f j).status × ((f j).id ≡ j.id)

move_of :
    (b : Bool) (f : Job → Job) (j : Job)
    → (b ≡ true → Step j.status (f j).status × ((f j).id ≡ j.id))
    → Step j.status (if b then f j else j).status × ((if b then f j else j).id ≡ j.id)
move_of true f j m = m refl
move_of false f j m = (stay, refl)

pub Advances-update :
    (p : KnowledgeIngestionJob → Bool) (f : KnowledgeIngestionJob → KnowledgeIngestionJob)
    (js : List KnowledgeIngestionJob)
    → All (IsMove p f) js
    → Advances js (update p f js)
unfolding update
Advances-update p f [] m = began tt
Advances-update p f (j ∷ js) m =
    let moved = move_of (p j) f j m.0 in went moved.1 moved.0 (Advances-update p f js m.1)

-- the jobs as the latest of some commits left them, or as they stood before the first
abbrev pub latest : List KnowledgeIngestionJob → List Tables → List KnowledgeIngestionJob
latest base [] = base
latest base (t ∷ commits) = t.knowledge_ingestion_jobs

-- Each of the commits takes the jobs one step from those of the commit before it.
abbrev pub Trace : List KnowledgeIngestionJob → List Tables → Type 0
Trace base [] = Unit
Trace base (t ∷ commits) =
    Advances (latest base commits) t.knowledge_ingestion_jobs × Trace base commits

-- Since the jobs stood as the base, every commit of the session has been one step, and what is
-- committed is what the latest one left.
pub record IsLawful (base : List KnowledgeIngestionJob) (s : Session) : Type 0 where
  pub trace : Trace base s.commits
  pub last : s.committed.knowledge_ingestion_jobs ≡ latest base s.commits

-- Of the rows of the job, every one has the status.
abbrev pub IsAt : (KnowledgeIngestionJob → Bool) → String → List KnowledgeIngestionJob → Type 0
IsAt p st rows = All (λ j. p j ≡ true → j.status ≡ st) rows

one_move :
    (before after a b : String)
    → contains after (transitions before) ≡ true
    → a ≡ before
    → b ≡ after
    → Step a b
one_move before after a b allowed p q = rw (p, q) (move allowed)

pub IsAt-IsMove :
    (p q : KnowledgeIngestionJob → Bool) (f : KnowledgeIngestionJob → KnowledgeIngestionJob)
    (before after : String) (rows : List KnowledgeIngestionJob)
    → contains after (transitions before) ≡ true
    → ((j : KnowledgeIngestionJob) → q j ≡ true → p j ≡ true)
    → ((j : KnowledgeIngestionJob) → ((f j).status ≡ after) × ((f j).id ≡ j.id))
    → IsAt p before rows
    → All (IsMove q f) rows
IsAt-IsMove p q f before after rows allowed reaches sets at =
    All-map rows
      (λ j here hit. (
        one_move before after j.status (f j).status allowed (here (reaches j hit)) (sets j).0,
        (sets j).1,
      ))
      at

at_of :
    (b : Bool) (p : Job → Bool) (f : Job → Job) (j : Job) (st : String)
    → (p j ≡ true → b ≡ true)
    → (f j).status ≡ st
    → p (f j) ≡ p j
    → p (if b then f j else j) ≡ true
    → (if b then f j else j).status ≡ st
at_of true p f j st hits sets same h = sets
at_of false p f j st hits sets same h = absurd (ground (arith, hits h))

pub IsAt-update :
    (p q : KnowledgeIngestionJob → Bool) (f : KnowledgeIngestionJob → KnowledgeIngestionJob)
    (st : String) (rows : List KnowledgeIngestionJob)
    → ((j : KnowledgeIngestionJob) → p j ≡ true → q j ≡ true)
    → ((j : KnowledgeIngestionJob) → ((f j).status ≡ st) × (p (f j) ≡ p j))
    → IsAt p st (update q f rows)
unfolding update
IsAt-update p q f st [] hits sets = tt
IsAt-update p q f st (j ∷ rows) hits sets =
    (at_of (q j) p f j st (hits j) (sets j).0 (sets j).1, IsAt-update p q f st rows hits sets)

-- A new job, of an id that no row has, is where it starts.
pub IsAt-append :
    (p q : KnowledgeIngestionJob → Bool) (j : KnowledgeIngestionJob)
    (rows : List KnowledgeIngestionJob)
    → exists q rows ≡ false
    → ((r : KnowledgeIngestionJob) → p r ≡ true → q r ≡ true)
    → IsAt p j.status (rows ++ j ∷ [])
unfolding exists
IsAt-append p q j [] free covers = (λ h. refl, tt)
IsAt-append p q j (r ∷ rows) free covers = (
  λ h. absurd (ground (arith, free, covers r h)),
  IsAt-append p q j rows (ground (arith, free)) covers,
)
