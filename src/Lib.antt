-- ===== src/Lib.antt =====
-- AtlasCore (backend/app): verification of the identity, access and ingestion core.
--
-- AtlasCore is a multi-tenant knowledge service. A request runs in a database session whose
-- settings name the current organisation; row-level security lets its statements reach the rows
-- of that organisation only. Services work on the session, write audit events, and raise.
--
-- Parts and files
--   Platform          what the code takes from Python's standard library: UUID texts, hashes, case
--                     and white space. Only the documented laws that a theorem needs are assumed.
--   Db.Models         db/models/*.py: a record for each row, with the columns that the services use
--   Db.KnowledgeModels  db/models/knowledge_*.py: the rows of sources, documents, jobs and chunks
--   Db.Table          the SQL statements on a table as the list of its rows (select, update, delete,
--                     count, scalar_one_or_none); Count and Rows are their laws
--   Db.Session        db/engine.py and the policies of alembic/versions: pending and committed
--                     tables, the tables as each commit left them, the organisation, the
--                     workspace and the user that the session is set to, and the files of the blob store, which no rollback undoes. A method is
--                     an `Action`: it returns or raises, and gives the session back in both cases.
--                     Rules and Keeps are the proof rules.
--   Auth.RoutingToken the organisation hint in a token (`_extract_organisation_hint`)
--   Auth.Refresh      auth/refresh.py; Families, Rotation, Reuse and Isolation hold its theorems
--   Auth.PreAuth      auth/pre_auth.py; SingleUse, Outcome
--   Auth.Password     auth/password.py, with Argon2 as a parameter
--   Auth.Permissions  auth/permissions.py; Privilege
--   Services.Audit    services/audit.py, whose redaction looks at the top level of an event's data
--                     only, though values nest; Redaction
--   Services.Org      services/org_service.py; Ownership, Methods, Admission, Transfer,
--                     TransferAll
--   Services.Invitation  services/invitation_service.py; Refusal, SingleUse, Joins, Create
--   Services.Workspace   services/workspace_service.py; Admission
--   Services.Auth        services/auth_service.py: Register, Login and Tokens hold its methods;
--                     Registering, Selection and Refreshing its theorems
--   Services.ServiceAccount  services/service_account_service.py, the accounts
--   Services.ApiKey      services/service_account_service.py, the keys; Format (the text of a key),
--                     Authentic, Creation, Acceptance, Retirement
--   Services.Knowledge   services/knowledge_service.py: the queries and rows; Sources (sources and
--                     documents), Jobs (the run of an ingestion job) with Uploads and Retries.
--                     Jobs.History, Standing, Progress, Submission, Refinement, Completion,
--                     Excuses, Retry and Stranding hold the theorems on the commits of a job
--   Knowledge.Ingestion  the pipeline of `_run_ingestion`, knowledge/embeddings.py (its interface) and
--                     the transitions of db/models/knowledge_ingestion_job.py
--   Knowledge.Parsers    knowledge/parsers.py, with decoding and regular expressions as parameters
--   Knowledge.BlobStore  knowledge/blob_store.py, with the file system as a parameter
--   Knowledge.Chunker    knowledge/chunker.py; Coverage
--   Retrieval.Hybrid     retrieval/hybrid.py, with floats and the order of texts as parameters; Slots,
--                     Ranking, Formula
--   Answering.Evidence   answering/evidence.py (its rows) and answering/sufficiency.py
--   Answering.Citation   answering/citation.py, without the rewriting of the answer text; the
--                     pattern of an identifier and its number are parameters; Sorting, Provenance
--   Tests             concrete runs of the theorems
--
-- Correspondence. A function of the model has the name of the method that it models. A method
-- with several database statements is split where a query returns (`rotate_found`,
-- `remove_found`), in the order of the source. `try` with `except` is `handle`. What `uuid4`,
-- `secrets` and `datetime.now` return are arguments. Times are microseconds. A flush that a
-- unique index or a policy refuses rolls the transaction back and raises. The hash functions are
-- parameters; no theorem assumes that they are injective, but those on stored tokens assume that
-- the rows have distinct hashes, as the unique columns enforce.
--
-- Bounds and fuel. Identifiers and times are unbounded natural numbers. The loop of the chunker
-- runs on fuel, one unit for each word, and `chunk-IsChunked` shows that this is enough. The loop of
-- `create_api_key` has its three turns, as `attempts 2` counts those left after the first.
--
-- Not modelled: foreign keys, server-set timestamps, the order of listings, reads that change
-- nothing (`list_members`, `list_for_org`, `list_sources` and the like), concurrency within one
-- statement, requests that run between the statements of another (but for the claim of a pre-
-- authentication session), the HTTP layer, access tokens, teams, the SQL of the searches, the
-- answering pipeline, the building and scoring of evidence, the vectors of the test embedding
-- provider, configuration and logging.
pub mod Base
pub mod Platform
pub mod Db
pub mod Auth
pub mod Services
pub mod Knowledge
pub mod Answering
pub mod Retrieval
pub mod Tests
