-- ===== src/Lib.antt =====
-- Cernity: network detection and response. Detectors put candidate findings on a message bus; the
-- finding service decides for each whether it is delivered at once, held back or first captured,
-- keeps the analysts' cases, and hands their verdicts to the feedback loop; the capture
-- orchestrator arms packet captures on sensors under a budget.
--
-- Parts and files:
--   Base           text, lists, tables keyed by text, results of code that may raise.
--   Finding        services/finding-service/state_machine.py. Types has the data and tables,
--                  Lifecycle the operations on one finding, Quality the discount for a sensor that
--                  saw badly and build_finding, Capture capture_job; Delivery, Routing, Discount and
--                  Evidence prove what they do.
--   Case           services/finding-service/cases.py and the case table of state_machine.py, one
--                  function for each operation; Requests runs a case under a list of requests;
--                  Disposition is case_dispositions; Audit, Workflow and Shape are proofs.
--   CaseStore      services/finding-service/store.py over Case: both tables and the claims as one
--                  record, each method one step under the lock; Isolation, Outbox, Delivery,
--                  Pending and Settled are proofs.
--   Orchestrator   services/capture-orchestrator/gates.py and app.py: the gates and the budget that
--                  requests and statuses change; Gates and Budget are proofs.
--   Pipeline       services/finding-service/app.py: the handlers of the consumer loop over Finding,
--                  with the table of findings that wait for evidence and the cache of closed ones;
--                  Partition has the key of the final topic; Keys, Obligations, Sweep, Late,
--                  Recency and Recall are proofs.
--   DetectionRegistry  services/detection-registry/store.py, lifecycle.py and authz.py; History and
--                  Promotion are proofs.
--   SensorRegistry services/sensor-registry/enrollment.py, store.py and the ingest loop of app.py;
--                  Enrollment, Ingest and Vouched are proofs.
--   ThreatIntel    services/threat-intel/lifecycle.py on one indicator; Refresh has ingest, match and
--                  suppression over the tables of store.py; Sharing is a proof.
--   Feedback       services/feedback-service/router.py; Advisory is a proof.
--   Assets         services/asset-service/resolution.py: the owner of an address over time, and in
--                  Cache the intervals by mac; Plot, Extend, Exact, Gives and Rebuild are proofs.
--   Rulesets       services/file-yara/registry.py; Audit and Trail are about the status of a ruleset,
--                  Bytes about its bytes.
--   FileArtifact   services/file-artifact/store.py and shared/object_keys.py: Keys, Archive and Store
--                  are the code, Nested, Vetted, Promoted and Isolated
--                  proofs.
--   WindowStore    shared/store.py, InMemoryStore: hashes and sets, and in Windows the other kinds of
--                  keys; Identities, Fields, SetField,
--                  Changes, Replay, Counters and Once are proofs.
--   Examples       below each part: test data, tests, and the theorems at concrete inputs.
--
-- Conventions: a Python dict is a record with a field for each key; a ValueError or KeyError is the
-- `err` of a result; text is String, compared whole; a dict of rows is an association list. Floats
-- are the parameter `Floats` (Finding.Quality), with the laws of `<` that the proofs use; NaN is
-- left out. SHA-1, the JSON schema validator and the file system are parameters. Environment settings are arguments. No definition needs fuel: a
-- loop runs over a list, or over the number of tries that remain.
--
-- Not modelled: message bus, HTTP, SQLite faults and JSON coding; the detectors and the other
-- services; in the orchestrator the preserve mode, object keys and the health snapshot.
pub mod Base
pub mod Feedback
pub mod Finding
pub mod Assets
pub mod Case
pub mod CaseStore
pub mod Rulesets
pub mod SensorRegistry
pub mod ThreatIntel
pub mod Pipeline
pub mod Orchestrator
pub mod DetectionRegistry
pub mod FileArtifact
pub mod WindowStore
