-- ===== src/Services/Audit/Redaction.antt =====
-- The redaction of sensitive top-level fields in the audit log of services/audit.py.
use atlascore.Base.{
  ℕ, String, true, ◌≡◌, refl, Option, some, none, List, [], ◌∷◌, ◌++◌, All, All-append, contains,
  arith, Result, ok, err, Error, Bool-cases, inl, inr, ap, sym, ◌∙◌, str_eq, str_eq_iff,
}
use atlascore.Platform.{Platform}
use atlascore.Db.Models.{AuditEvent, Value}
use atlascore.Db.Session.{Session}
use atlascore.Db.Session.Rules.{if_rule}
use atlascore.Services.Audit.{
  Origin, redacted_keys, sanitise_event_data, event, log, emit_transactional, emit_independent,
  emit_tenant_independent, all_event_types, global_event_types, tenant_independent_event_types,
}

contains-All :
    (k : String) (xs ys : List String)
    → All (λ x. contains x ys ≡ true) xs
    → contains k xs ≡ true
    → contains k ys ≡ true
contains-All k [] ys h c = absurd (ground (arith, c))
contains-All k (x ∷ xs) ys h c = elim (Bool-cases (str_eq x k)) [
  | inl e ↦ ap (λ t. contains t ys) (sym ((str_eq_iff x k).0 e)) ∙ h.0
  | inr e ↦ contains-All k xs ys h.1 (ground (arith, c, e))
]

module _ (py : Platform) where
  -- The top-level fields that no audit event may hold in clear: passwords, tokens, secrets and keys.
  abbrev pub sensitive : List String
  sensitive =
      "password" ∷ "current_password" ∷ "new_password" ∷ "password_hash" ∷ "token" ∷ "raw_token"
      ∷ "token_hash" ∷ "invitation_token" ∷ "access_token" ∷ "refresh_token" ∷ "pre_auth_token"
      ∷ "csrf_token" ∷ "secret" ∷ "secret_hash" ∷ "pepper" ∷ "api_key" ∷ "raw_key" ∷ "key_hash"
      ∷ "private_key" ∷ []

  -- A field whose key is sensitive, in whatever case, holds the redaction mark. What stands inside a
  -- field of another key is not looked at.
  abbrev pub IsRedacted : String × Value → Type 0
  IsRedacted (k, v) = contains (py.lower k) sensitive ≡ true → v ≡ Value.text "[REDACTED]"

  covered : (k : String) → contains k sensitive ≡ true → contains k redacted_keys ≡ true
  covered k h =
      contains-All k sensitive redacted_keys
        (
          refl,
          (
            refl,
            (
              refl,
              (
                refl,
                (
                  refl,
                  (
                    refl,
                    (
                      refl,
                      (
                        refl,
                        (
                          refl,
                          (
                            refl,
                            (
                              refl,
                              (refl, (refl, (refl, (refl, (refl, (refl, (refl, (refl, tt)))))))),
                            ),
                          ),
                        ),
                      ),
                    ),
                  ),
                ),
              ),
            ),
          ),
        )
        h

  abbrev pub IsClean : AuditEvent → Type 0
  IsClean e = All IsRedacted e.event_data

  sanitise-redacts :
      (fields : List (String × Value)) → All IsRedacted (sanitise_event_data py fields)
  unfolding sanitise_event_data
  sanitise-redacts [] = tt
  sanitise-redacts ((k, v) ∷ rest) = (λ h. rw (covered (py.lower k) h) refl, sanitise-redacts rest)

  -- The log of a session is clean, pending and committed.
  pub record IsCleanLog (s : Session) : Type 0 where
    pub pending : All IsClean s.db.audit_events
    pub committed : All IsClean s.committed.audit_events

  event-IsClean :
      (event_type : String) (organisation_id actor : Option ℕ) (fields : List (String × Value))
      (origin : Origin) (outcome : String)
      → IsClean (event py event_type organisation_id actor fields origin outcome)
  event-IsClean event_type organisation_id actor fields origin outcome = sanitise-redacts fields

  logged :
      (e : AuditEvent) (events : List AuditEvent)
      → All IsClean events
      → IsClean e
      → All IsClean (events ++ e ∷ [])
  logged e events h k = All-append IsClean events (e ∷ []) h (k, tt)

  -- The three ways to write an audit event keep the log clean at the top level of its events: a
  -- top-level field whose key is one of nineteen sensitive names, in whatever case, is stored as the
  -- redaction mark, whatever the event, its fields and the outcome of the call. Fields inside the
  -- value of another field are not redacted.
  pub emit-IsCleanLog :
      (event_type : String) (organisation_id : ℕ) (actor : Option ℕ)
      (fields : List (String × Value)) (origin : Origin) (outcome : String) (s : Session)
      → IsCleanLog s
      → IsCleanLog
          (emit_transactional py event_type organisation_id actor fields origin outcome s).1
        × IsCleanLog (emit_independent py event_type actor fields origin outcome s).1
        × IsCleanLog
            (emit_tenant_independent py event_type organisation_id actor fields origin outcome s).1
  unfolding emit_transactional emit_independent emit_tenant_independent
  emit-IsCleanLog event_type organisation_id actor fields origin outcome s h =
      let Q : Result (Unit {0}) × Session → Type 0 = λ r. IsCleanLog r.1 in
      let here = event py event_type (some organisation_id) actor fields origin outcome in
      let global = event py event_type none actor fields origin outcome in
      let with_here = logged here s.db.audit_events h.pending (sanitise-redacts fields) in
      (
        if_rule Q (contains event_type all_event_types) (ok tt, log here s)
            (err Error.value_error, s)
            (λ _. record { pending = with_here; committed = h.committed }) (λ _. h),
        if_rule Q (contains event_type global_event_types) (ok tt, log global s)
            (err Error.value_error, s)
            (λ _. record {
              pending = logged global s.db.audit_events h.pending (sanitise-redacts fields);
              committed = h.committed;
            })
            (λ _. h),
        if_rule Q (contains event_type tenant_independent_event_types)
            (
              ok tt,
              record s {
                db = record s.db { audit_events = s.db.audit_events ++ here ∷ [] };
                committed = record s.committed {
                  audit_events = s.committed.audit_events ++ here ∷ [];
                };
              },
            )
            (err Error.value_error, s)
            (λ _. record {
              pending = with_here;
              committed =
                  logged here s.committed.audit_events h.committed (sanitise-redacts fields);
            })
            (λ _. h),
      )
