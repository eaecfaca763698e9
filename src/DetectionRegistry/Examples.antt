-- ===== src/DetectionRegistry/Examples.antt =====
-- One active detection, retired by an authorized analyst.
use cernityndr.Base.{
  String, ◌≡◌, refl, ap, sym, true, Bool, some, [], ◌∷◌, string_eq, ◌==◌, ok, lookup,
}
use cernityndr.DetectionRegistry.{Entry, Registry, Checks, promote}
use cernityndr.DetectionRegistry.History.{
  HistoryKept, change, promotion, execute_all, execute_all-HistoryKept,
}
use cernityndr.DetectionRegistry.Promotion.{Promoted, promote-Promoted}

abbrev beacon : Entry
beacon = record {
  detection_id = "beacon";
  manifest_ref = "beacon.yaml";
  status = "active";
  change_history =
      record { ts = "2026-01-01T00:00:00Z"; actor = "ana"; was = "shadow"; now = "active" } ∷ [];
  content = "beaconing";
}

abbrev shelf : Registry
shelf = ("beacon", beacon) ∷ []

abbrev checks : Checks
checks = record { valid = λ e. true; resolves = λ m. m == "beacon.yaml" }

abbrev ana : String → Bool
ana actor = actor == "ana"

beacon_keyed : (old : Entry) → lookup "beacon" shelf ≡ some old → old.detection_id ≡ "beacon"
unfolding lookup
beacon_keyed old p = let q : beacon ≡ old = cc in ap (λ (e : Entry). e.detection_id) (sym q)

-- Retiring it answers the entry with the status `retired`.
retire_test :
    (promote checks ana shelf "beacon" "retired" "ana" "2026-02-01T00:00:00Z").0
    ≡ ok (record beacon {
      status = "retired";
      change_history =
          record { ts = "2026-01-01T00:00:00Z"; actor = "ana"; was = "shadow"; now = "active" }
          ∷ record { ts = "2026-02-01T00:00:00Z"; actor = "ana"; was = "active"; now = "retired" }
          ∷ [];
    })
unfolding promote lookup
retire_test = refl

promote-Promoted_example :
    Promoted checks ana shelf "beacon" "retired" "ana" "2026-02-01T00:00:00Z"
      (promote checks ana shelf "beacon" "retired" "ana" "2026-02-01T00:00:00Z")
promote-Promoted_example =
    promote-Promoted checks ana shelf "beacon" "retired" "ana" "2026-02-01T00:00:00Z" beacon_keyed

execute_all-HistoryKept_example : HistoryKept shelf (
    execute_all checks ana shelf (
      promotion "beacon" "retired" "ana" "2026-02-01T00:00:00Z"
      ∷ change (record beacon { change_history = [] })
      ∷ []))
execute_all-HistoryKept_example = execute_all-HistoryKept checks ana shelf (
    promotion "beacon" "retired" "ana" "2026-02-01T00:00:00Z"
    ∷ change (record beacon { change_history = [] })
    ∷ [])
