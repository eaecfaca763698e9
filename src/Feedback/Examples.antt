-- ===== src/Feedback/Examples.antt =====
-- An analyst who asks for an allowlist entry.
use cernityndr.Base.{◌≡◌, true, some, [], ◌∷◌}
use cernityndr.Feedback.{Disposition, Router, Ids, consume}
use cernityndr.Feedback.Advisory.{suppressing, consume_advisory}

abbrev wish : Disposition
wish = record {
  finding_id = "f-1";
  entity = "ip:10.0.0.5";
  verdict = "allowlist";
  reason = "scanner";
  ts = "2026-01-01T00:00:00Z";
}

abbrev router : Router
router = record {
  tokens =
      (
        "t-1",
        record {
          emitter = some "console";
          analyst = some "ana";
          tenant = some "acme";
          expires_at = some 500;
          disposition_write = true;
        },
      )
      ∷ [];
  ttl = 86400;
  feedback = [];
  audit = [];
}

abbrev ids : Ids
ids = record { id = "i-1"; audit_id = "a-1" }

consume_advisory_example :
    suppressing "acme" "ip:10.0.0.5" 200
      (consume (λ d. true) router ids 100 "" (some "t-1") wish).1.feedback
    ≡ suppressing "acme" "ip:10.0.0.5" 200 []
consume_advisory_example =
    consume_advisory (λ d. true) router ids 100 "" (some "t-1") wish "acme" "ip:10.0.0.5" 200
