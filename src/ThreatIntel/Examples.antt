-- ===== src/ThreatIntel/Examples.antt =====
-- A trusted source without a marking, and a red one.
use cernityndr.Base.{ℕ, ◌≡◌, refl, false, some, [], ◌∷◌, ltb}
use cernityndr.ThreatIntel.{Provenance, Indicator, is_exportable, derive}
use cernityndr.ThreatIntel.Sharing.{derive_red, marked_red}

abbrev trusted : Provenance ℕ
trusted = record {
  source = "cert";
  feed = "daily";
  source_trust = 90;
  score = 70;
  tlp = some "green";
  expiry = some 2000;
}

abbrev secret : Provenance ℕ
secret = record trusted { source = "partner"; source_trust = 20; tlp = some "red" }

abbrev domain : Indicator ℕ
domain = record {
  tenant = "acme";
  kind = "domain";
  indicator = "evil.example";
  provenance = trusted ∷ secret ∷ [];
  first_seen = 100;
  last_seen = 900;
  expiry = 2000;
  score = 70;
  source = "cert";
  feed = "daily";
  source_trust = 90;
  tlp = some "green";
  disposition = "active";
}

abbrev shared_domain : Indicator ℕ
shared_domain = record domain { tlp = some "red" }

domain_derived : derive ltb domain 1000 ≡ some shared_domain
unfolding derive
domain_derived = refl

derive_red_example : is_exportable shared_domain ≡ false
derive_red_example =
    derive_red ltb domain shared_domain 1000 (unfold marked_red in refl) domain_derived
