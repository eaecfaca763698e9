-- ===== src/ThreatIntel/Refresh.antt =====
-- services/threat-intel: ingest and match of lifecycle.py over the tables of store.py.
use cernityndr.Base.{
  ℕ, String, Bool, true, false, not, ◌&&◌, ◌||◌, Option, none, some, List, [], ◌∷◌, ◌++◌, ltb, leb,
  if◌then◌else◌, ◌==◌, string_eq, keep, any, Dict, find, put, drop_key,
}
use cernityndr.Finding.Quality.{is_blank}
use cernityndr.ThreatIntel.{
  Provenance, Indicator, Key, key_eq, is_exportable, is_active, derive, merge,
}

-- A marker that a feed withdraws its assertion.
pub record Revocation : Type 0 where
  pub key : Key
  pub source : String
  pub feed : String

pub record Suppression : Type 0 where
  pub key : Key
  pub owner : String
  pub justification : String
  pub created_at : ℕ
  pub expires_at : ℕ

-- The tables `indicators` and `suppressions`, and the `audit` events of suppressions.
pub record IntelStore (F : Type 0) : Type 0 where
  pub indicators : Dict Key (Indicator F)
  pub suppressions : List Suppression
  pub audit : List Suppression

-- What an ingest has merged so far, and the keys that it will delete.
pub record Batch (F : Type 0) : Type 0 where
  pub working : Dict Key (Indicator F)
  pub deletes : List Key

module _ {F : Type 0} where
  abbrev pub key_of : Indicator F → Key
  key_of r = record { tenant = r.tenant; kind = r.kind; indicator = r.indicator }

  unfoldable pub get : IntelStore F → Key → Option (Indicator F)
  unfolding find
  get s key = find key s.indicators

  abbrev pub or_stored : Option (Indicator F) → Option (Indicator F) → Option (Indicator F)
  or_stored none stored = stored
  or_stored (some r) stored = some r

  -- `working[key] if key in working else store.get(*key)`
  unfoldable pub base_of : IntelStore F → Batch F → Key → Option (Indicator F)
  unfolding find get
  base_of s b key = or_stored (find key b.working) (get s key)

  abbrev pub revoked_provs : Indicator F → Revocation → List (Provenance F)
  revoked_provs base rv =
      keep (λ (p : Provenance F). not (p.source == rv.source && p.feed == rv.feed)) base.provenance

  -- The outer `none` is the None of the source: the last assertion is withdrawn.
  unfoldable pub apply_revocation :
      (F → F → Bool) → Indicator F → Revocation → ℕ → Option (Indicator F)
  unfolding derive
  apply_revocation lt base rv now =
      derive lt (record base { provenance = revoked_provs base rv }) now

  -- A record without an assertion makes `derive` raise, and the batch fails.
  unfoldable pub with_record : Batch F → Key → Option (Indicator F) → Option (Batch F)
  unfolding put
  with_record b key none = none
  with_record b key (some r) = some (record b { working = put key r b.working })

  unfoldable pub with_revoked : Batch F → Key → Option (Indicator F) → Batch F
  unfolding put drop_key
  with_revoked b key none = record b {
    working = drop_key key b.working;
    deletes = b.deletes ++ key ∷ [];
  }
  with_revoked b key (some r) = record b { working = put key r b.working }

  unfoldable pub merge_record :
      (F → F → Bool) → IntelStore F → ℕ → Indicator F → Option (Batch F) → Option (Batch F)
  unfolding base_of merge derive with_record
  merge_record lt s now r none = none
  merge_record lt s now r (some b) =
      with_record b (key_of r) (derive lt (merge (base_of s b (key_of r)) r) now)

  -- The first loop of `ingest`.
  unfoldable pub merge_records :
      (F → F → Bool) → IntelStore F → ℕ → Option (Batch F) → List (Indicator F) → Option (Batch F)
  unfolding merge_record
  merge_records lt s now b [] = b
  merge_records lt s now b (r ∷ rs) = merge_records lt s now (merge_record lt s now r b) rs

  unfoldable pub revoke : (F → F → Bool) → ℕ → Revocation → Option (Indicator F) → Batch F → Batch F
  unfolding apply_revocation with_revoked
  revoke lt now rv none b = b
  revoke lt now rv (some base) b = with_revoked b rv.key (apply_revocation lt base rv now)

  -- The second loop.
  unfoldable pub revoke_all :
      (F → F → Bool) → IntelStore F → ℕ → Batch F → List Revocation → Batch F
  unfolding base_of revoke
  revoke_all lt s now b [] = b
  revoke_all lt s now b (rv ∷ rvs) =
      revoke_all lt s now (revoke lt now rv (base_of s b rv.key) b) rvs

  abbrev pub put_all : Dict Key (Indicator F) → Dict Key (Indicator F) → Dict Key (Indicator F)
  put_all d [] = d
  put_all d (row ∷ rows) = put_all (put row.0 row.1 d) rows

  abbrev pub drop_all : Dict Key (Indicator F) → List Key → Dict Key (Indicator F)
  drop_all d [] = d
  drop_all d (key ∷ keys) = drop_all (drop_key key d) keys

  -- One transaction: the upserts, then the deletes.
  unfoldable pub upsert_many : IntelStore F → Batch F → IntelStore F
  unfolding put drop_key
  upsert_many s b = record s { indicators = drop_all (put_all s.indicators b.working) b.deletes }

  -- False is an exception: nothing was written.
  unfoldable pub ingest :
      (F → F → Bool) → IntelStore F → List (Indicator F) → ℕ → List Revocation → Bool × IntelStore F
  unfolding merge_records revoke_all upsert_many
  ingest lt s records now revocations =
      write (merge_records lt s now (some (record { working = []; deletes = [] })) records)
    where
      write : Option (Batch F) → Bool × IntelStore F
      write none = (false, s)
      write (some b) = (true, upsert_many s (revoke_all lt s now b revocations))

  -- A record for the audit of a suppression, and the row itself; False is a ValueError.
  unfoldable pub suppress : IntelStore F → Suppression → Bool × IntelStore F
  unfolding is_blank
  suppress s x =
      if is_blank x.owner || is_blank x.justification
      then (false, s)
      else if leb x.expires_at x.created_at
      then (false, s)
      else (true, record s { suppressions = s.suppressions ++ x ∷ []; audit = s.audit ++ x ∷ [] })

  unfoldable pub is_suppressed : IntelStore F → Key → ℕ → Bool
  is_suppressed s key now =
      any (λ (x : Suppression). x.key == key && ltb now x.expires_at) s.suppressions

  -- The tests of `match` on what it derived.
  unfoldable pub live : IntelStore F → Key → ℕ → Option (Indicator F) → Option (Indicator F)
  unfolding is_active is_suppressed
  live s key now none = none
  live s key now (some r) =
      if not (is_active r now) then none else if is_suppressed s key now then none else some r

  unfoldable pub rederived : (F → F → Bool) → ℕ → Option (Indicator F) → Option (Indicator F)
  unfolding derive
  rederived lt now none = none
  rederived lt now (some r) = derive lt r now

  -- `key` holds the value that norm_indicator gives.
  unfoldable pub match_indicator : (F → F → Bool) → IntelStore F → Key → ℕ → Option (Indicator F)
  unfolding get live rederived
  match_indicator lt s key now = live s key now (rederived lt now (get s key))

  unfoldable pub exportable : List (Indicator F) → List (Indicator F)
  unfolding is_exportable
  exportable records = keep is_exportable records
