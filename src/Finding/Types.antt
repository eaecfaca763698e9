-- ===== src/Finding/Types.antt =====
-- The data of state_machine.py, its tables and the operations on one finding.
use cernityndr.Base.{
  ℕ, ◌+◌, String, Bool, true, false, not, Option, none, some, List, [], ◌∷◌, ◌++◌, Table, lookup,
  insert, nat_eq, if◌then◌else◌, ◌==◌, string_eq, contains, order_by,
}

pub data State : Type 0 where
  candidate scored capture_requested enriched enrichment_failed suppressed final : State

pub data EnrichmentState : Type 0 where
  not_required pending required enriched enrichment_failed timeout : EnrichmentState

-- "" or the text that names a severity.
pub data Reason : Type 0 where
  no_reason : Reason
  low_severity : Option ℕ → Reason

pub data Policy : Type 0 where
  metadata_sufficient packets_needed : Policy

pub data Route : Type 0 where
  final capture final_and_capture : Route

-- An item of `entities` that is a dict.
pub record Entity : Type 0 where
  pub kind : Option String  -- the key `type`
  pub value : Option String
  pub role : Option String

-- The record of a source event.
pub record Source : Type 0 where
  pub sensor_id : Option String
  pub host : Option String

pub record Quality (F : Type 0) : Type 0 where
  pub quality : String
  pub reasons : List String
  pub sensor_id : Option String
  pub factor : F
  pub original_confidence : F

pub record Finding (F : Type 0) : Type 0 where
  pub finding_id : String
  pub tenant_id : Option String
  pub detector_id : Option String
  pub detector_version : Option String
  pub category : Option String
  pub severity : Option ℕ
  pub confidence : Option F
  pub sensor_ids : List String
  pub sensor_id : Option String
  pub source_events : List Source
  pub entities : List Entity
  pub mitre : List String
  pub evidence_refs : List String
  pub summary : Option String
  pub iocs : Table (List String)
  pub capture_job_ids : List String
  pub suppression_reason : Reason
  pub state : Option State
  pub enrichment_state : Option EnrichmentState
  pub revision : Option ℕ
  pub observation_quality : Option (Quality F)

pub record Settings : Type 0 where
  pub suppress_max_severity : ℕ
  pub ndpi_deliver_all : Bool

abbrev pub confirmed_threat_sources : List String
confirmed_threat_sources = "ids_signature" ∷ "threat_intel" ∷ "file_malware_hash" ∷ []

-- `x in xs` where x may be None.
unfoldable pub is_among : Option String → List String → Bool
unfolding contains
is_among none xs = false
is_among (some x) xs = contains xs x

unfoldable pub is_text : Option String → String → Bool
is_text none t = false
is_text (some x) t = x == t

-- `isinstance(x, str) and x`: present and not empty.
unfoldable pub has_text : Option String → Bool
has_text none = false
has_text (some x) = not (x == "")

unfoldable pub category_mitre : String → List String
category_mitre c =
    if c == "recon"
    then "T1046" ∷ []
    else if c == "discovery"
    then "T1046" ∷ []
    else if c == "c2"
    then "T1071" ∷ []
    else if c == "dns_tunnel"
    then "T1071.004" ∷ []
    else if c == "lateral"
    then "T1021" ∷ []
    else if c == "exfil"
    then "TA0010" ∷ []
    else if c == "bruteforce"
    then "T1110" ∷ []
    else if c == "credential_access"
    then "T1110" ∷ []
    else if c == "defense_evasion"
    then "T1571" ∷ []
    else if c == "impact"
    then "T1486" ∷ []
    else []

abbrev pub structural_categories : List String
structural_categories =
    "recon" ∷ "discovery" ∷ "credential_access" ∷ "lateral" ∷ "impact" ∷ "defense_evasion" ∷ []

-- `int(cand.get("severity", 10) or 10)`
unfoldable pub severity_of : Option ℕ → ℕ
severity_of none = 10
severity_of (some n) = if nat_eq n 0 then 10 else n

abbrev pub is_final : Option State → Bool
is_final (some State.final) = true
is_final _ = false

abbrev pub or_list : List String → List String → List String
or_list [] ys = ys
or_list (x ∷ xs) ys = x ∷ xs

abbrev pub mitre_of : Option String → List String
mitre_of none = []
mitre_of (some c) = category_mitre c

-- `int(finding.get("revision") or 1) + 1`
unfoldable pub next_revision : Option ℕ → ℕ
next_revision none = 2
next_revision (some n) = if nat_eq n 0 then 2 else n + 1

-- Appends what is not there yet, in order.
unfoldable pub union : List String → List String → List String
unfolding contains
union seen [] = seen
union seen (r ∷ rs) = union (if contains seen r then seen else seen ++ r ∷ []) rs

-- `sorted(set(xs) | set(ys))`
unfoldable pub sorted_union : List String → List String → List String
unfolding union order_by
sorted_union xs ys = order_by (λ x. x) (union (union [] xs) ys)

abbrev pub list_or_empty : Option (List String) → List String
list_or_empty none = []
list_or_empty (some xs) = xs

-- Every value of the iocs is a list of texts; a value that is no list is left out of the model.
unfoldable pub merge_iocs : Table (List String) → Table (List String) → Table (List String)
unfolding sorted_union lookup insert
merge_iocs merged [] = merged
merge_iocs merged ((k, v) ∷ rest) =
    merge_iocs (insert k (sorted_union (list_or_empty (lookup k merged)) v) merged) rest

-- ndr.enrichment.result.v1; `iocs` is absent unless it is a dict.
pub record EnrichmentResult : Type 0 where
  pub finding_id : String
  pub tenant_id : Option String
  pub status : Option String
  pub evidence_refs : List String
  pub summary : Option String
  pub iocs : Option (Table (List String))
