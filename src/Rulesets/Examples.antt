-- ===== src/Rulesets/Examples.antt =====
-- A ruleset that is registered, denied once and promoted to shadow.
use cernityndr.Base.{
  String, ◌≡◌, refl, sym, ap, ◌∙◌, true, none, some, List, [], ◌∷◌, ok, ◌==◌, string_eq, lookup,
  map,
}
use cernityndr.Rulesets.{
  Ruleset, AuditRow, Patterns, Registration, Promotion, Authorize, Call, registration, promotion,
  execute_all, empty_registry, audit, load_bytes,
}
use cernityndr.Rulesets.Audit.{replay, status_of}
use cernityndr.Rulesets.Trail.{audit-execute_all}
use cernityndr.Rulesets.Bytes.{load_bytes-execute_all}

abbrev patterns : Patterns
patterns = record {
  sha256 = λ bytes. bytes;
  is_datetime = λ ts. true;
  is_safe_id = λ id. true;
  is_mime = λ mime. true;
}

abbrev only_ann : Authorize
only_ann actor tenant to = actor == "ann"

abbrev web_rules : Registration
web_rules = record {
  name = "web";
  version = "1";
  bytes = "rule a";
  source = "team";
  target_mime_types = [];
  max_file_size = 1024;
  release_notes = none;
  test_corpus_ref = none;
  tenant = "acme";
  ruleset_id = "r1";
  ts = "2026-01-01T00:00:00Z";
}

abbrev by_bob : Promotion
by_bob = record {
  ruleset_id = "r1";
  to_status = "shadow";
  actor = "bob";
  ts = "2026-01-02T00:00:00Z";
}

abbrev calls : List Call
calls = registration web_rules ∷ promotion by_bob ∷ promotion (record by_bob { actor = "ann" }) ∷ []

events :
    map
      (λ (a : AuditRow). a.event)
      (audit (execute_all patterns only_ann empty_registry calls) "r1")
    ≡ "registered" ∷ "promotion_denied" ∷ "promoted" ∷ []
unfolding execute_all audit
events = refl

abbrev shadowed : Ruleset
shadowed = record {
  id = "r1";
  name = "web";
  version = "1";
  sha256 = "rule a";
  source = "team";
  created_at = "2026-01-01T00:00:00Z";
  promoted_by = some "ann";
  promoted_at = some "2026-01-02T00:00:00Z";
  status = "shadow";
  target_mime_types = [];
  max_file_size = 1024;
  release_notes = none;
  test_corpus_ref = none;
  tenant = "acme";
}

is_shadowed :
    lookup "r1" (execute_all patterns only_ann empty_registry calls).rulesets ≡ some shadowed
unfolding execute_all
is_shadowed = refl

some-path : {A : Type 0} {x y : A} → some x ≡ some y → x ≡ y
some-path h = cc

is_acme :
    (row : Ruleset)
    → lookup "r1" (execute_all patterns only_ann empty_registry calls).rulesets ≡ some row
    → row.tenant ≡ "acme"
is_acme row h = ap (λ (r : Ruleset). r.tenant) (some-path (sym h ∙ is_shadowed))

audit-execute_all_example :
    replay only_ann "acme"
      (some none)
      (audit (execute_all patterns only_ann empty_registry calls) "r1")
    ≡ some (status_of (lookup "r1" (execute_all patterns only_ann empty_registry calls).rulesets))
audit-execute_all_example = audit-execute_all only_ann patterns calls "r1" "acme" is_acme

load_bytes-execute_all_example :
    (bytes : String) × (load_bytes patterns
        (execute_all patterns only_ann empty_registry calls)
        "r1"
      ≡ ok bytes)
    × (patterns.sha256 bytes ≡ shadowed.sha256)
load_bytes-execute_all_example =
    load_bytes-execute_all patterns only_ann calls "r1" shadowed is_shadowed
