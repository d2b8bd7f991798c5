-- ===== src/Db/Session.antt =====
-- The database session of a request: the tables as its transaction sees them, the tables as they
-- are committed, and the transaction-local settings that the row-level security policies read
-- (db/engine.py and the migrations under backend/alembic/versions).
pub mod Rules
pub mod Keeps
use atlascore.Base.{
  ℕ, String, Bool, Option, none, some, List, [], ◌∷◌, Result, ok, err, Error, opt_eq, if◌then◌else◌,
}
use atlascore.Db.KnowledgeModels.{
  KnowledgeSource, KnowledgeDocument, KnowledgeDocumentVersion, KnowledgeIngestionJob,
  KnowledgeChunk, KnowledgeChunkEmbedding,
}
use atlascore.Db.Models.{
  User, Organisation, OrganisationMembership, WorkspaceMembership, Workspace, PreAuthSession,
  RefreshToken, Invitation, ServiceAccount, ApiKey, AuditEvent,
}

pub record Tables : Type 0 where
  pub users : List User
  pub organisations : List Organisation
  pub org_memberships : List OrganisationMembership
  pub workspaces : List Workspace
  pub workspace_memberships : List WorkspaceMembership
  pub pre_auth_sessions : List PreAuthSession
  pub refresh_tokens : List RefreshToken
  pub invitations : List Invitation
  pub service_accounts : List ServiceAccount
  pub api_keys : List ApiKey
  pub audit_events : List AuditEvent
  pub knowledge_sources : List KnowledgeSource
  pub knowledge_documents : List KnowledgeDocument
  pub knowledge_document_versions : List KnowledgeDocumentVersion
  pub knowledge_ingestion_jobs : List KnowledgeIngestionJob
  pub knowledge_chunks : List KnowledgeChunk
  pub knowledge_chunk_embeddings : List KnowledgeChunkEmbedding

abbrev pub no_rows : Tables
no_rows = record {
  users = [];
  organisations = [];
  org_memberships = [];
  workspaces = [];
  workspace_memberships = [];
  pre_auth_sessions = [];
  refresh_tokens = [];
  invitations = [];
  service_accounts = [];
  api_keys = [];
  audit_events = [];
  knowledge_sources = [];
  knowledge_documents = [];
  knowledge_document_versions = [];
  knowledge_ingestion_jobs = [];
  knowledge_chunks = [];
  knowledge_chunk_embeddings = [];
}

-- `none` is a setting that is unset or empty, which the policies' NULLIF makes NULL. `blobs` are the
-- files of the blob store by their keys, which no transaction guards. `commits` are the tables as
-- each COMMIT of the session left them, the latest first: what others could read in between.
pub record Session : Type 0 where
  pub organisation : Option ℕ
  pub user : Option ℕ
  pub workspace : Option ℕ
  pub db : Tables
  pub committed : Tables
  pub commits : List Tables
  pub blobs : List (String × List ℕ)

-- a session whose transaction has just begun
abbrev pub begin : Tables → Session
begin t = record {
  organisation = none;
  user = none;
  workspace = none;
  db = t;
  committed = t;
  commits = [];
  blobs = [];
}

-- A method that works on the session and may raise. What was written before a raise stays
-- written in the transaction, so the session comes back beside the error too.
abbrev pub Action : Type 0 → Type 0
Action A = Session → Result A × Session

module _ {A : Type 0} where
  abbrev pub pure : A → Action A
  pure a s = (ok a, s)

  abbrev pub raise : Error → Action A
  raise e s = (err e, s)

  abbrev pub lift : Result A → Action A
  lift r s = (r, s)

  abbrev pub gets : (Session → A) → Action A
  gets f s = (ok (f s), s)

infixl 5 ◌>>=◌ ◌>>◌
abbrev pub ◌>>=◌ : {A B : Type 0} → Action A → (A → Action B) → Action B
◌>>=◌ m f s = let (r, s') = m s in elim r [ ok a ↦ f a s' | err e ↦ raise e s' ]

abbrev pub ◌>>◌ : {A B : Type 0} → Action A → Action B → Action B
m >> k = m >>= λ _. k

-- `try: m except …: handler`. A handler that re-raises returns the same error.
abbrev pub handle : {A : Type 0} → Action A → (Error → Action A) → Action A
handle m handler s = let (r, s') = m s in elim r [ ok a ↦ (ok a, s') | err e ↦ handler e s' ]

abbrev pub raise_if : Bool → Error → Action Unit
raise_if c e s = (if c then err e else ok tt, s)

-- `if c: m`
abbrev pub when : Bool → Action Unit → Action Unit
when c m s = if c then m s else (ok tt, s)

abbrev pub modify : (Tables → Tables) → Action Unit
modify f s = (ok tt, record s { db = f s.db })

-- SELECT set_config('app.current_organisation_id', …, true)
unfoldable pub set_organisation : ℕ → Action Unit
set_organisation o s = (ok tt, record s { organisation = some o })

-- SELECT set_config('app.current_user_id', …, true)
unfoldable pub set_user : ℕ → Action Unit
set_user u s = (ok tt, record s { user = some u })

-- SELECT set_config('app.current_workspace_id', …, true)
unfoldable pub set_workspace : ℕ → Action Unit
set_workspace w s = (ok tt, record s { workspace = some w })

-- COMMIT: what the transaction wrote is durable, and its local settings are gone.
unfoldable pub commit : Action Unit
commit s = (
  ok tt,
  record s {
    organisation = none;
    user = none;
    workspace = none;
    committed = s.db;
    commits = s.db ∷ s.commits;
  },
)

-- ROLLBACK
unfoldable pub rollback : Session → Session
rollback s = record s { organisation = none; user = none; workspace = none; db = s.committed }

-- The policy of the tenant-scoped tables, for USING and for WITH CHECK: the row's organisation
-- is the current one. Without a current organisation no row passes.
abbrev pub tenant : Option ℕ → ℕ → Bool
tenant current o = opt_eq current o

-- INSERT: refused by the policy, or by a constraint (`conflict`), in which case the flush has
-- rolled the transaction back.
unfoldable pub insert : Bool → Bool → (Tables → Tables) → Action Unit
unfolding rollback
insert allowed conflict add s =
    if allowed
    then if conflict
      then (err Error.integrity_error, rollback s)
      else (ok tt, record s { db = add s.db })
    else (err Error.rls_violation, rollback s)
