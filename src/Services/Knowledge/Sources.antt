-- ===== src/Services/Knowledge/Sources.antt =====
-- services/knowledge_service.py: sources of documents, and the archiving of a document.
use Prim.Native.Char.{code}
use atlascore.Base.{
  ℕ, String, Bool, true, false, ◌&&◌, ◌||◌, not, Option, none, some, List, [], ◌∷◌, ◌++◌, Result,
  ok, err, Error, ◌==◌, str_eq, if◌then◌else◌,
}
use atlascore.Platform.{Platform}
use atlascore.Db.Models.{Value}
use atlascore.Db.KnowledgeModels.{KnowledgeSource, KnowledgeDocument}
use atlascore.Db.Table.{update, exists}
use atlascore.Db.Session.{Action, pure, lift, raise_if, ◌>>=◌, ◌>>◌, insert, modify}
use atlascore.Services.Audit.{Origin, emit_transactional}
use atlascore.Services.Knowledge.{visible, get_source, get_document}

abbrev pub secret_keys : List String
secret_keys =
    "token" ∷ "secret" ∷ "password" ∷ "key" ∷ "api_key" ∷ "credential" ∷ "refresh_token"
    ∷ "access_token" ∷ "private_key" ∷ "client_secret" ∷ []

-- `s.startswith(p)`
unfoldable pub starts_with : String → String → Bool
starts_with String.[] s = true
starts_with (String.◌∷◌ c p) String.[] = false
starts_with (String.◌∷◌ c p) (String.◌∷◌ d s) = code c == code d && starts_with p s

-- `p in s`
unfoldable pub is_part : String → String → Bool
unfolding starts_with
is_part p String.[] = starts_with p ""
is_part p (String.◌∷◌ c s) = starts_with p (String.◌∷◌ c s) || is_part p s

-- `any(secret in k for secret in _SECRET_KEYS)`
unfoldable pub looks_secret : String → List String → Bool
looks_secret k [] = false
looks_secret k (secret ∷ secrets) = is_part secret k || looks_secret k secrets

-- `_sanitise_source_config`
unfoldable pub sanitise_source_config :
    Platform → List (String × Value) → Result (List (String × Value))
sanitise_source_config py [] = ok []
sanitise_source_config py ((k, v) ∷ config) =
    let rest = sanitise_source_config py config in
    if looks_secret (py.lower k) secret_keys
    then err Error.knowledge_error
    else elim rest [ err e ↦ err e | ok safe ↦ ok ((k, v) ∷ safe) ]

-- the unique columns of `knowledge_sources`
unfoldable pub conflicts : KnowledgeSource → KnowledgeSource → Bool
conflicts new r =
    r.id == new.id || (r.workspace_id == new.workspace_id && str_eq r.display_name new.display_name)

unfoldable pub add_source : KnowledgeSource → Action Unit
add_source new s =
    insert (visible s new.organisation_id new.workspace_id)
      (exists (conflicts new) s.db.knowledge_sources)
      (λ t. record t { knowledge_sources = t.knowledge_sources ++ new ∷ [] }) s

-- flush of a changed source, refused where another source of the workspace has its name
unfoldable pub save_source : KnowledgeSource → Action Unit
save_source changed s =
    insert (visible s changed.organisation_id changed.workspace_id)
      (exists (λ r. not (r.id == changed.id) && conflicts changed r) s.db.knowledge_sources)
      (λ t. record t {
        knowledge_sources =
            update (λ r. visible s r.organisation_id r.workspace_id && r.id == changed.id)
              (λ r. changed) t.knowledge_sources;
      })
      s

-- what an update of a source asks for
pub record Change : Type 0 where
  pub display_name : Option String
  pub description : Option String
  pub configuration : Option (List (String × Value))
  pub is_active : Option Bool

abbrev same_bool : Bool → Bool → Bool
same_bool true b = b
same_bool false b = not b

-- `x is not None and x != current`, as the new value and the field of the event
abbrev pub set_name : Option String → String → String × List (String × Value)
set_name none current = (current, [])
set_name (some n) current =
    (n, if str_eq n current then [] else ("display_name", Value.text n) ∷ [])

abbrev pub set_active : Option Bool → Bool → Bool × List (String × Value)
set_active none current = (current, [])
set_active (some b) current =
    (b, if same_bool b current then [] else ("is_active", Value.flag b) ∷ [])

abbrev pub or_current : {A : Type 0} → Option A → A → A
or_current none current = current
or_current (some a) current = a

module _ (py : Platform) where
  -- `row_id` is what `uuid4` returns
  unfoldable pub create_source :
      ℕ
      → ℕ
      → String
      → String
      → Option String
      → List (String × Value)
      → Option ℕ
      → Origin
      → ℕ
      → Action KnowledgeSource
  create_source organisation_id workspace_id source_type display_name description configuration
        created_by_user_id origin row_id =
      do
        safe ← lift (sanitise_source_config py configuration)
        let source : KnowledgeSource = record {
          id = row_id;
          organisation_id = organisation_id;
          workspace_id = workspace_id;
          source_type = source_type;
          display_name = display_name;
          description = description;
          is_active = true;
          configuration = safe;
          created_by_user_id = created_by_user_id;
        }
        add_source source
        emit_transactional py "knowledge.source.created" organisation_id created_by_user_id
            (("source_id", Value.uuid row_id)
              ∷ ("source_type", Value.text source_type)
              ∷ ("display_name", Value.text display_name)
              ∷ [])
            origin "success"
        pure source

  -- `configuration is not None`
  unfoldable pub change_config :
      Option (List (String × Value))
      → List (String × Value)
      → Result (List (String × Value) × List (String × Value))
  change_config none current = ok (current, [])
  change_config (some config) current = elim (sanitise_source_config py config) [
    | err e ↦ err e
    | ok safe ↦ ok (safe, ("configuration_updated", Value.flag true) ∷ [])
  ]

  unfoldable pub update_found :
      ℕ → Change → Option ℕ → Origin → KnowledgeSource → Action KnowledgeSource
  update_found organisation_id change actor_user_id origin source = do
    let name = set_name change.display_name source.display_name
    config ← lift (change_config change.configuration source.configuration)
    let active = set_active change.is_active source.is_active
    let changed : KnowledgeSource = record source {
      display_name = name.0;
      description = elim change.description [ none ↦ source.description | some d ↦ some d ];
      configuration = config.0;
      is_active = active.0;
    }
    save_source changed
    emit_transactional py "knowledge.source.updated" organisation_id actor_user_id
        (("source_id", Value.uuid source.id) ∷ (name.1 ++ (config.1 ++ active.1))) origin "success"
    pure changed

  unfoldable pub update_source : ℕ → ℕ → ℕ → Change → Option ℕ → Origin → Action KnowledgeSource
  update_source organisation_id workspace_id source_id change actor_user_id origin =
      get_source organisation_id workspace_id source_id
      >>= update_found organisation_id change actor_user_id origin

  abbrev pub archived : ℕ → KnowledgeDocument → KnowledgeDocument
  archived now d = record d { is_archived = true; archived_at = some now }

  unfoldable pub archive_document : ℕ → ℕ → ℕ → Option ℕ → Origin → ℕ → Action KnowledgeDocument
  archive_document organisation_id workspace_id document_id actor_user_id origin now = do
    doc ← get_document organisation_id workspace_id document_id
    raise_if doc.is_archived Error.knowledge_document_archived
    (λ s.
        modify
          (λ t. record t {
            knowledge_documents =
                update (λ r. visible s r.organisation_id r.workspace_id && r.id == doc.id)
                  (archived now) t.knowledge_documents;
          })
          s)
    emit_transactional py "knowledge.document.archived" organisation_id actor_user_id
        (("document_id", Value.uuid document_id) ∷ []) origin "success"
    pure (archived now doc)
