-- ===== src/Feedback.antt =====
-- services/feedback-service/router.py: analysts' verdicts as suggestions. The JSON schema is the
-- parameter `valid`, random ids are arguments, a time is a number of seconds.
pub mod Advisory
pub mod Examples
use cernityndr.Base.{
  ℕ, ◌+◌, String, Bool, true, false, not, ◌&&◌, Option, none, some, List, [], ◌∷◌, ◌++◌, Result, ok,
  err, ltb, leb, if◌then◌else◌, ◌==◌, string_eq, Table, lookup,
}
use cernityndr.Finding.Quality.{is_blank}

-- A session of the server's configuration; a field of another type, or a number that is not finite,
-- is absent.
pub record Session : Type 0 where
  pub emitter : Option String
  pub analyst : Option String
  pub tenant : Option String
  pub expires_at : Option ℕ
  pub disposition_write : Bool

pub record Identity : Type 0 where
  pub emitter : String
  pub analyst : String
  pub tenant : String

pub data RouterError : Type 0 where
  unauthorized : RouterError
  invalid_session : RouterError
  expired_session : RouterError
  schema_invalid : RouterError

-- The three fields of an identity, if they are texts that are not blank.
unfoldable pub identity_of : Session → Option Identity
unfolding is_blank
identity_of x = with_emitter x.emitter
  where
    with_tenant : String → String → Option String → Option Identity
    with_tenant e a none = none
    with_tenant e a (some t) =
        if is_blank t then none else some (record { emitter = e; analyst = a; tenant = t })

    with_analyst : String → Option String → Option Identity
    with_analyst e none = none
    with_analyst e (some a) = if is_blank a then none else with_tenant e a x.tenant

    with_emitter : Option String → Option Identity
    with_emitter none = none
    with_emitter (some e) = if is_blank e then none else with_analyst e x.analyst

abbrev pub is_live : Option ℕ → ℕ → Bool
is_live none now = false
is_live (some expiry) now = ltb now expiry

unfoldable pub admitted : Session → ℕ → Option Identity → Result RouterError Identity
admitted x now none = err invalid_session
admitted x now (some identity) =
    if is_live x.expires_at now && x.disposition_write then ok identity else err expired_session

unfoldable pub of_session : ℕ → Option Session → Result RouterError Identity
unfolding identity_of admitted
of_session now none = err unauthorized
of_session now (some x) = admitted x now (identity_of x)

-- `token` is what follows "Bearer " in the header, if it starts so; an empty one has no session.
unfoldable pub authenticate : Table Session → Option String → ℕ → Result RouterError Identity
unfolding of_session lookup
authenticate tokens none now = err unauthorized
authenticate tokens (some token) now =
    if token == "" then err unauthorized else of_session now (lookup token tokens)

pub record Disposition : Type 0 where
  pub finding_id : String
  pub entity : String
  pub verdict : String
  pub reason : String
  pub ts : String

-- The record of a suggestion. An applied entry has an approval as well.
pub record Suggestion : Type 0 where
  pub id : String
  pub audit_id : String
  pub approval_audit_id : String
  pub tenant : String
  pub owner : String
  pub emitter : String
  pub scope : String
  pub finding_id : String
  pub entity : String
  pub verdict : String
  pub justification : String
  pub source_ts : String
  pub created_at : ℕ
  pub expires_at : ℕ
  pub status : String
  pub sink : String

pub record AuditEntry : Type 0 where
  pub audit_id : String
  pub tenant : String
  pub actor : String
  pub emitter : String
  pub resource_id : String
  pub timestamp : ℕ
  pub source_ip : String
  pub reason : String

-- SINKS; another verdict does not pass the schema.
unfoldable pub sinks : String → String
sinks verdict =
    if verdict == "true_positive"
    then "anomaly_ground_truth"
    else if verdict == "benign"
    then "anomaly_ground_truth"
    else if verdict == "false_positive"
    then "detector_fp_candidate"
    else if verdict == "allowlist"
    then "ignore_list"
    else ""

unfoldable pub ignore_entry_suppresses : Suggestion → String → String → ℕ → Bool
ignore_entry_suppresses entry tenant entity now =
    entry.sink == "ignore_list"
    && entry.status == "applied"
    && entry.tenant == tenant
    && entry.entity == entity
    && not (entry.owner == "")
    && not (entry.justification == "")
    && not (entry.audit_id == "")
    && not (entry.approval_audit_id == "")
    && leb entry.created_at now
    && ltb now entry.expires_at

pub record Router : Type 0 where
  pub tokens : Table Session
  pub ttl : ℕ
  pub feedback : List Suggestion
  pub audit : List AuditEntry

-- The random identifiers of a call.
pub record Ids : Type 0 where
  pub id : String
  pub audit_id : String

unfoldable pub suggestion : ℕ → Ids → ℕ → Disposition → Identity → Suggestion
unfolding sinks
suggestion ttl ids now d who = record {
  id = ids.id;
  audit_id = ids.audit_id;
  approval_audit_id = "";
  tenant = who.tenant;
  owner = who.analyst;
  emitter = who.emitter;
  scope = if d.verdict == "allowlist" then "entity" else "finding";
  finding_id = d.finding_id;
  entity = d.entity;
  verdict = d.verdict;
  justification = d.reason;
  source_ts = d.ts;
  created_at = now;
  expires_at = now + ttl;
  status = "suggested";
  sink = sinks d.verdict;
}

unfoldable pub audit_entry : Ids → ℕ → String → Disposition → Identity → AuditEntry
audit_entry ids now source_ip d who = record {
  audit_id = ids.audit_id;
  tenant = who.tenant;
  actor = who.analyst;
  emitter = who.emitter;
  resource_id = ids.id;
  timestamp = now;
  source_ip = source_ip;
  reason = d.reason;
}

-- After the authentication; both rows in one transaction.
unfoldable pub accept :
    (Disposition → Bool)
    → Router
    → Ids
    → ℕ
    → String
    → Disposition
    → Result RouterError Identity
    → Result RouterError Suggestion × Router
unfolding suggestion audit_entry
accept valid s ids now source_ip d (err x) = (err x, s)
accept valid s ids now source_ip d (ok who) = if not (valid d) then (err schema_invalid, s) else (
  ok (suggestion s.ttl ids now d who),
  record s {
    feedback = s.feedback ++ suggestion s.ttl ids now d who ∷ [];
    audit = s.audit ++ audit_entry ids now source_ip d who ∷ [];
  },
)

unfoldable pub consume :
    (Disposition → Bool)
    → Router
    → Ids
    → ℕ
    → String
    → Option String
    → Disposition
    → Result RouterError Suggestion × Router
unfolding authenticate accept
consume valid s ids now source_ip token d =
    accept valid s ids now source_ip d (authenticate s.tokens token now)
