-- ===== src/ThreatIntel.antt =====
-- services/threat-intel: the rules of lifecycle.py on one indicator; Refresh has the store. A time
-- text is the number of its epoch, a score or a trust value of the type `F` with an order `lt`.
pub mod Refresh
pub mod Sharing
pub mod Examples
use cernityndr.Base.{
  ℕ, String, ◌≡◌, ◌↔◌, Bool, true, false, not, ◌&&◌, ◌||◌, Option, none, some, List, [], ◌∷◌, ◌++◌,
  map, arith, eq_iff, ltb, leb, if◌then◌else◌, Testable, ◌==◌, string_eq, contains, keep, any, Dict,
  find, put, drop_key, Result, ok, err,
}
use cernityndr.Finding.Quality.{is_blank}

pub record Provenance (F : Type 0) : Type 0 where
  pub source : String
  pub feed : String
  pub source_trust : F
  pub score : F
  pub tlp : Option String
  pub expiry : Option ℕ

-- intel.v1
pub record Indicator (F : Type 0) : Type 0 where
  pub tenant : String
  pub kind : String  -- the key `type`
  pub indicator : String
  pub provenance : List (Provenance F)
  pub first_seen : ℕ
  pub last_seen : ℕ
  pub expiry : ℕ
  pub score : F
  pub source : String
  pub feed : String
  pub source_trust : F
  pub tlp : Option String
  pub disposition : String

-- (tenant, type, indicator)
pub record Key : Type 0 where
  pub tenant : String
  pub kind : String
  pub indicator : String

pub same_key_iff :
    (a b : Key)
    → ((a.tenant == b.tenant && a.kind == b.kind && a.indicator == b.indicator) ≡ true) ↔ (a ≡ b)
same_key_iff a b =
    ground (arith, eq_iff a.tenant b.tenant, eq_iff a.kind b.kind, eq_iff a.indicator b.indicator)

instance abbrev pub key_eq : Testable Key
key_eq = record {
  same = λ a b. a.tenant == b.tenant && a.kind == b.kind && a.indicator == b.indicator;
  same_iff = same_key_iff;
}

-- The place in TLP_LEVELS, if the marking is known.
unfoldable pub tlp_rank : String → Option ℕ
tlp_rank t =
    if t == "clear"
    then some 0
    else if t == "green"
    then some 1
    else if t == "amber"
    then some 2
    else if t == "amber+strict"
    then some 3
    else if t == "red"
    then some 4
    else none

abbrev pub rank_or_zero : Option ℕ → ℕ
rank_or_zero none = 0
rank_or_zero (some n) = n

-- The larger of the best so far and a known marking; the first of equal ones stays.
unfoldable pub stricter : Option String → String → Option ℕ → Option String
unfolding tlp_rank
stricter best t none = best
stricter none t (some n) = some t
stricter (some b) t (some n) = if ltb (rank_or_zero (tlp_rank b)) n then some t else some b

unfoldable pub strictest_from : Option String → List (Option String) → Option String
unfolding stricter tlp_rank
strictest_from best [] = best
strictest_from best (none ∷ tlps) = strictest_from best tlps
strictest_from best (some t ∷ tlps) = strictest_from (stricter best t (tlp_rank t)) tlps

unfoldable pub most_restrictive_tlp : List (Option String) → Option String
unfolding strictest_from
most_restrictive_tlp tlps = strictest_from none tlps

abbrev pub or_expiry : Option ℕ → ℕ → ℕ
or_expiry none record_expiry = record_expiry
or_expiry (some e) record_expiry = e

abbrev pub or_tlp : Option String → Option String → Option String
or_tlp none other = other
or_tlp (some t) other = some t

module _ {F : Type 0} where
  abbrev pub prov_expiry : Provenance F → ℕ → ℕ
  prov_expiry p record_expiry = or_expiry p.expiry record_expiry

  unfoldable pub valid_provs : List (Provenance F) → ℕ → ℕ → List (Provenance F)
  valid_provs provs record_expiry now =
      keep (λ (p : Provenance F). ltb now (prov_expiry p record_expiry)) provs

  -- `_rank(a) < _rank(b)`, on pairs
  unfoldable pub ranks_below : (F → F → Bool) → Provenance F → Provenance F → Bool
  ranks_below lt a b =
      lt a.source_trust b.source_trust
      || (not (lt b.source_trust a.source_trust) && lt a.score b.score)

  -- `max(..., key=_rank)` from a first element.
  unfoldable pub best_from : (F → F → Bool) → Provenance F → List (Provenance F) → Provenance F
  unfolding ranks_below
  best_from lt best [] = best
  best_from lt best (p ∷ ps) = best_from lt (if ranks_below lt best p then p else best) ps

  abbrev pub or_all : List (Provenance F) → List (Provenance F) → List (Provenance F)
  or_all [] provs = provs
  or_all (p ∷ ps) provs = p ∷ ps

  -- No assertion at all is a ValueError of `max`, here `none`.
  unfoldable pub best_provenance :
      (F → F → Bool) → List (Provenance F) → ℕ → ℕ → Option (Provenance F)
  unfolding valid_provs best_from
  best_provenance lt provs record_expiry now =
      best_of_list (or_all (valid_provs provs record_expiry now) provs)
    where
      best_of_list : List (Provenance F) → Option (Provenance F)
      best_of_list [] = none
      best_of_list (p ∷ ps) = some (best_from lt p ps)

  unfoldable pub is_exportable : Indicator F → Bool
  is_exportable r = not (is_red r.tlp)
    where
      is_red : Option String → Bool
      is_red none = false
      is_red (some t) = t == "red"

  unfoldable pub is_expired : Indicator F → ℕ → Bool
  is_expired r now = leb r.expiry now

  unfoldable pub is_active : Indicator F → ℕ → Bool
  unfolding is_expired
  is_active r now = r.disposition == "active" && not (is_expired r now)

  abbrev pub latest : ℕ → ℕ → List (Provenance F) → ℕ
  latest record_expiry best [] = best
  latest record_expiry best (p ∷ ps) =
      latest record_expiry
        (if ltb best (prov_expiry p record_expiry) then prov_expiry p record_expiry else best) ps

  abbrev pub has_any : List (Provenance F) → Bool
  has_any [] = false
  has_any (p ∷ ps) = true

  -- The fields that follow from the winner.
  unfoldable pub derived : ℕ → Indicator F → ℕ → Provenance F → Indicator F
  unfolding most_restrictive_tlp valid_provs
  derived now r expiry winner = record r {
    expiry = expiry;
    score = winner.score;
    source = winner.source;
    feed = winner.feed;
    source_trust = winner.source_trust;
    tlp = or_tlp (most_restrictive_tlp (map (λ (p : Provenance F). p.tlp) r.provenance)) r.tlp;
    disposition = if has_any (valid_provs r.provenance expiry now) then "active" else "expired";
  }

  abbrev pub with_winner : ℕ → Indicator F → ℕ → Option (Provenance F) → Option (Indicator F)
  with_winner now r expiry none = none
  with_winner now r expiry (some winner) = some (derived now r expiry winner)

  -- An empty provenance is a ValueError, here `none`.
  unfoldable pub derive : (F → F → Bool) → Indicator F → ℕ → Option (Indicator F)
  unfolding best_provenance derived
  derive lt r now =
      let expiry = latest r.expiry 0 r.provenance in
      with_winner now r expiry (best_provenance lt r.provenance expiry now)

  abbrev pub same_feed : Provenance F → Provenance F → Bool
  same_feed p q = p.source == q.source && p.feed == q.feed

  -- `existing` is None on first sight.
  unfoldable pub merge : Option (Indicator F) → Indicator F → Indicator F
  merge none incoming = incoming
  merge (some existing) incoming = record existing {
    provenance =
        keep (λ (p : Provenance F). not (any (same_feed p) incoming.provenance)) existing.provenance
        ++ incoming.provenance;
    first_seen =
        if leb existing.first_seen incoming.first_seen
        then existing.first_seen
        else incoming.first_seen;
    last_seen =
        if leb incoming.last_seen existing.last_seen
        then existing.last_seen
        else incoming.last_seen;
  }
