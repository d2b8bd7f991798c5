-- ===== src/Services/Audit.antt =====
-- services/audit.py: the audit log and its three ways to write.
pub mod Redaction
use atlascore.Base.{
  ℕ, String, Bool, Option, none, some, List, [], ◌∷◌, ◌++◌, ◌≡◌, Error, ok, true, contains,
  if◌then◌else◌, map,
}
use atlascore.Platform.{Platform}
use atlascore.Db.Models.{AuditEvent, Value}
use atlascore.Db.Session.{Session, Tables, Action, raise, modify}

abbrev pub global_event_types : List String
global_event_types =
    "auth.login_failed" ∷ "auth.pre_auth_session_expired" ∷ "auth.pre_auth_session_reused"
    ∷ "auth.token_reuse_detected" ∷ []

abbrev pub tenant_independent_event_types : List String
tenant_independent_event_types = "invitation.expired" ∷ []

abbrev pub all_event_types : List String
all_event_types =
    "auth.login" ∷ "auth.login_failed" ∷ "auth.logout" ∷ "auth.logout_all" ∷ "auth.token_refreshed"
    ∷ "auth.token_reuse_detected" ∷ "auth.pre_auth_session_expired" ∷ "auth.pre_auth_session_reused"
    ∷ "auth.org_selected" ∷ "auth.password_changed" ∷ "org.created" ∷ "org.updated"
    ∷ "org.membership_added" ∷ "org.membership_removed" ∷ "org.role_changed"
    ∷ "org.ownership_transferred" ∷ "org.organisation_selected" ∷ "workspace.created"
    ∷ "workspace.membership_added" ∷ "workspace.membership_removed" ∷ "workspace.role_changed"
    ∷ "invitation.created" ∷ "invitation.revoked" ∷ "invitation.accepted" ∷ "invitation.expired"
    ∷ "team.created" ∷ "team.updated" ∷ "team.deleted" ∷ "team.member_added" ∷ "team.member_removed"
    ∷ "service_account.created" ∷ "service_account.disabled" ∷ "service_account.enabled"
    ∷ "api_key.created" ∷ "api_key.revoked" ∷ "api_key.rotated" ∷ "api_key.used"
    ∷ "org.member_role_changed" ∷ "workspace.member_role_changed" ∷ "workspace.member_added"
    ∷ "workspace.member_removed" ∷ "org.context_switched" ∷ "workspace.context_switched"
    ∷ "knowledge.source.created" ∷ "knowledge.source.updated" ∷ "knowledge.document.uploaded"
    ∷ "knowledge.document.archived" ∷ "knowledge.ingestion.succeeded" ∷ "knowledge.ingestion.failed"
    ∷ "knowledge.ingestion.retry_requested" ∷ []

abbrev pub redacted_keys : List String
redacted_keys =
    "password" ∷ "password_hash" ∷ "current_password" ∷ "new_password" ∷ "token" ∷ "raw_token"
    ∷ "invitation_token" ∷ "access_token" ∷ "refresh_token" ∷ "pre_auth_token" ∷ "csrf_token"
    ∷ "secret" ∷ "secret_hash" ∷ "token_hash" ∷ "api_key" ∷ "raw_key" ∷ "key_hash" ∷ "pepper"
    ∷ "private_key" ∷ []

-- where a request came from
pub record Origin : Type 0 where
  pub request_id : Option String
  pub client_ip : Option String

-- `_sanitise_event_data`
unfoldable pub sanitise_event_data : Platform → List (String × Value) → List (String × Value)
sanitise_event_data py [] = []
sanitise_event_data py ((k, v) ∷ rest) =
    (k, if contains (py.lower k) redacted_keys then Value.text "[REDACTED]" else v)
    ∷ sanitise_event_data py rest

abbrev pub event :
    Platform → String → Option ℕ → Option ℕ → List (String × Value) → Origin → String → AuditEvent
event py event_type organisation_id actor fields origin outcome = record {
  organisation_id = organisation_id;
  actor_user_id = actor;
  event_type = event_type;
  event_data = sanitise_event_data py fields;
  request_id = origin.request_id;
  client_ip = origin.client_ip;
  outcome = outcome;
}

abbrev pub log : AuditEvent → Session → Session
log e s = record s { db = record s.db { audit_events = s.db.audit_events ++ e ∷ [] } }

-- The event joins the transaction of the session.
unfoldable pub emit_transactional :
    Platform → String → ℕ → Option ℕ → List (String × Value) → Origin → String → Action Unit
emit_transactional py event_type organisation_id actor fields origin outcome s =
    if contains event_type all_event_types
    then (ok tt, log (event py event_type (some organisation_id) actor fields origin outcome) s)
    else raise Error.value_error s

-- The event goes through the SECURITY DEFINER function, with no organisation.
unfoldable pub emit_independent :
    Platform → String → Option ℕ → List (String × Value) → Origin → String → Action Unit
emit_independent py event_type actor fields origin outcome s =
    if contains event_type global_event_types
    then (ok tt, log (event py event_type none actor fields origin outcome) s)
    else raise Error.value_error s

-- The event is committed by a session of its own. A statement of the caller's transaction, which
-- reads committed rows, sees it, and a rollback of the caller keeps it.
unfoldable pub emit_tenant_independent :
    Platform → String → ℕ → Option ℕ → List (String × Value) → Origin → String → Action Unit
emit_tenant_independent py event_type organisation_id actor fields origin outcome s =
    if contains event_type tenant_independent_event_types
    then (
      ok tt,
      let e = event py event_type (some organisation_id) actor fields origin outcome in
          record s {
            db = record s.db { audit_events = s.db.audit_events ++ e ∷ [] };
            committed = record s.committed { audit_events = s.committed.audit_events ++ e ∷ [] };
          },
    )
    else raise Error.value_error s
