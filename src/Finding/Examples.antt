-- ===== src/Finding/Examples.antt =====
-- A beacon candidate, over floats counted in thousandths.
use cernityndr.Base.{
  ℕ, ◌*◌, ◌/◌, ◌≡◌, refl, true, false, none, some, [], ◌∷◌, contains, arith, ltb, string_eq,
}
use cernityndr.Finding.{
  suppressed, capture_requested, required, capture, no_reason, Finding, Settings, EnrichmentResult,
}
use cernityndr.Finding.Quality.{Floats, Factors, Lookup, build_finding, quality_adjust}
use cernityndr.Finding.Delivery.{result, timed_out, due, finish_all, finish_all-due}
use cernityndr.Finding.Discount.{Discounted, quality_adjust_bounds}
use cernityndr.Finding.Routing.{
  Routed, with_quality_of, build_finding-Routed, build_finding-quality,
}

pub ltb_asymm : (a b : ℕ) → ltb a b ≡ true → ltb b a ≡ false
ltb_asymm a b h = ground arith

pub ltb_irrefl : (a : ℕ) → ltb a a ≡ false
ltb_irrefl a = ground arith

abbrev pub milli : Floats ℕ
milli = record {
  zero = 0;
  one = 1000;
  nine_tenths = 900;
  lt = ltb;
  mul = λ a b. a * b / 1000;
  div = λ a b. a * 1000 / b;
  lt_asymm = ltb_asymm;
  lt_irrefl = ltb_irrefl;
  zero-lt-one = refl;
}

abbrev pub factors : Factors ℕ
factors = record { degraded = 700; blind = 400; floor = 50 }

abbrev pub cfg : Settings
cfg = record { suppress_max_severity = 5; ndpi_deliver_all = false }

abbrev pub beacon : Finding ℕ
beacon = record {
  finding_id = "f-1";
  tenant_id = some "acme";
  detector_id = some "beacon";
  detector_version = some "1.0";
  category = some "c2";
  severity = some 4;
  confidence = some 600;
  sensor_ids = "s-1" ∷ [];
  sensor_id = none;
  source_events = [];
  entities = [];
  mitre = [];
  evidence_refs = "e-1" ∷ [];
  summary = none;
  iocs = [];
  capture_job_ids = [];
  suppression_reason = no_reason;
  state = some capture_requested;
  enrichment_state = some required;
  revision = some 1;
  observation_quality = none;
}

abbrev pub good_result : EnrichmentResult
good_result = record {
  finding_id = "f-1";
  tenant_id = some "acme";
  status = some "ok";
  evidence_refs = "e-1" ∷ "e-2" ∷ [];
  summary = none;
  iocs = none;
}

abbrev bad_result : EnrichmentResult
bad_result = record good_result { status = some "failed" }

finish_all-due_example :
    ((finish_all cfg beacon (timed_out ∷ result good_result ∷ [])).state ≡ some (due cfg beacon))
    × ((finish_all cfg beacon (timed_out ∷ result good_result ∷ [])).revision ≡ some 3)
finish_all-due_example = finish_all-due cfg beacon timed_out (result good_result ∷ []) 0 refl

held_back : (finish_all cfg beacon (timed_out ∷ result good_result ∷ [])).state ≡ some suppressed
unfolding finish_all contains
held_back = refl

abbrev built : Finding ℕ
built = record beacon { mitre = "T1071" ∷ [] }

build_finding-Routed_example : (built.revision ≡ some 1) × Routed cfg beacon built capture
unfolding build_finding contains
build_finding-Routed_example =
    build_finding-Routed cfg beacon milli factors none {f = built} {route = capture} refl

abbrev pub blind : Lookup
blind tenant sensor = some (record { quality = some "blind"; reasons = "DROPS" ∷ [] })

abbrev built_blind : Finding ℕ
built_blind = record built {
  confidence = some 240;
  observation_quality = some (record {
    quality = "blind";
    reasons = "DROPS" ∷ [];
    sensor_id = some "s-1";
    factor = 400;
    original_confidence = 600;
  });
}

build_finding-quality_example :
    (built_blind ≡ with_quality_of built_blind built) × (capture ≡ capture)
unfolding build_finding contains
build_finding-quality_example =
    build_finding-quality cfg beacon milli factors blind {f = built_blind} {g = built}
      {route = capture} {route' = capture} refl refl

quality_adjust_bounds_example : Discounted milli 600 "blind" factors (240, 400)
unfolding quality_adjust
quality_adjust_bounds_example =
    quality_adjust_bounds milli 600 "blind" factors {r = (240, 400)} refl

abbrev no_floor : Factors ℕ
no_floor = record factors { floor = 0 }
