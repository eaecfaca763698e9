-- ===== src/Pipeline.antt =====
-- services/finding-service/app.py: the handlers of the finding service's consumer loop. `pending`
-- holds the findings that wait for evidence, `closed` the recently finalized ones. What a handler
-- does to the outside is a list of effects, in order: `annotate` stands for geoenrich and intel,
-- which add the keys geo, community_id and intel, that no other code here reads.
pub mod Keys
pub mod Obligations
pub mod Sweep
pub mod Late
pub mod Recency
pub mod Recall
pub mod Partition
pub mod Examples
use cernityndr.Base.{
  ℕ, ◌+◌, String, ◌≡◌, ◌↔◌, Bool, true, false, not, ◌&&◌, ◌||◌, Option, none, some, List, [], ◌∷◌,
  ◌++◌, Result, ok, err, ◌>>=◌, arith, eq_iff, leb, if◌then◌else◌, Testable, ◌==◌, string_eq, Dict,
  find, put, drop_key, put_last, trim, keep,
}
use cernityndr.Finding.{
  Finding, Settings, Route, capture, final_and_capture, EnrichmentResult, State, is_text, is_final,
  apply_enrichment_result, finalize_timeout, EnrichmentState, pending, required,
}
use cernityndr.Finding.Quality.{Floats, Factors, Lookup, FindingError, build_finding}
use cernityndr.Finding.Capture.{CaptureJob, capture_job}

-- (tenant, finding_id)
pub record Key : Type 0 where
  pub tenant : String
  pub fid : String

pub same_key_iff : (a b : Key) → ((a.tenant == b.tenant && a.fid == b.fid) ≡ true) ↔ (a ≡ b)
same_key_iff a b = ground (arith, eq_iff a.tenant b.tenant, eq_iff a.fid b.fid)

instance abbrev pub key_eq : Testable Key
key_eq = record { same = λ a b. a.tenant == b.tenant && a.fid == b.fid; same_iff = same_key_iff }

-- `tenant or "default"`
abbrev pub or_default : Option String → String
or_default none = "default"
or_default (some t) = if t == "" then "default" else t

abbrev pub pk : Option String → String → Key
pk tenant fid = record { tenant = or_default tenant; fid = fid }

pub record CaptureStatus : Type 0 where
  pub finding_id : String
  pub tenant_id : Option String
  pub state : Option String
  pub armed : Option Bool

pub record Entry (F : Type 0) : Type 0 where
  pub finding : Finding F
  pub delivered : Bool
  pub deadline : ℕ

pub record Closed (F : Type 0) : Type 0 where
  pub finding : Finding F
  pub delivered : Bool

pub data Effect (F : Type 0) : Type 0 where
  persist : Finding F → Effect F
  annotate : Finding F → Effect F
  deliver : Finding F → Effect F  -- FINAL_TOPIC
  order : CaptureJob → Effect F  -- CAPTURE_TOPIC

pub record Service (F : Type 0) : Type 0 where
  pub waiting : Dict Key (Entry F)  -- `pending`
  pub closed : Dict Key (Closed F)  -- `_finalized_capture`
  pub effects : List (Effect F)

-- What the service is started with; `stores` is false if ClickHouse is off.
pub record Config (F : Type 0) : Type 0 where
  pub floats : Floats F
  pub factors : Factors F
  pub settings : Settings
  pub max_finalized : ℕ
  pub deadline_secs : ℕ
  pub stores : Bool

abbrev pub is_refused : Option Bool → Bool
is_refused (some false) = true
is_refused _ = false

-- A status with no result to follow.
unfoldable pub is_terminal : CaptureStatus → Bool
unfolding is_text
is_terminal status =
    not (is_text status.state "completed")
    && (is_refused status.armed
        || is_text status.state "failed"
        || is_text status.state "rejected"
        || is_text status.state "refused"
        || is_text status.state "no_data")

-- The states that `_UNFINALIZED` names.
abbrev pub is_unfinalized : Option EnrichmentState → Bool
is_unfinalized (some pending) = true
is_unfinalized (some required) = true
is_unfinalized _ = false

module _ {F : Type 0} where
  abbrev pub key_of : Finding F → Key
  key_of f = pk f.tenant_id f.finding_id

  abbrev pub does : List (Effect F) → Service F → Service F
  does es s = record s { effects = s.effects ++ es }

  -- `_persist`
  unfoldable pub persisted : Config F → Finding F → List (Effect F)
  persisted cfg f = if cfg.stores then persist f ∷ [] else []

  unfoldable pub deliver_now : Finding F → List (Effect F)
  deliver_now f = annotate f ∷ deliver f ∷ []

  unfoldable pub emit_finalized : Config F → Bool → Finding F → List (Effect F)
  unfolding persisted
  emit_finalized cfg delivered done =
      (if delivered then [] else annotate done ∷ []) ++ persisted cfg done ++ deliver done ∷ []

  -- The keys of a finding id, over all tenants.
  abbrev pub matches : String → Dict Key (Entry F) → List Key
  matches fid [] = []
  matches fid (row ∷ rest) =
      let more = matches fid rest in if row.0.fid == fid then row.0 ∷ more else more

  abbrev pub pop : Key → Dict Key (Entry F) → Option (Entry F) × Dict Key (Entry F)
  pop key waiting = (find key waiting, drop_key key waiting)

  -- Without a tenant: only if one key matches.
  unfoldable pub pop_only : List Key → Dict Key (Entry F) → Option (Entry F) × Dict Key (Entry F)
  unfolding find drop_key
  pop_only [] waiting = (none, waiting)
  pop_only (key ∷ []) waiting = pop key waiting
  pop_only (key ∷ other ∷ more) waiting = (none, waiting)

  unfoldable pub pop_pending :
      Dict Key (Entry F) → Option String → String → Option (Entry F) × Dict Key (Entry F)
  unfolding find drop_key pop_only
  pop_pending waiting (some tenant) fid = pop (pk (some tenant) fid) waiting
  pop_pending waiting none fid = pop_only (matches fid waiting) waiting

  unfoldable pub remember_finalized : Config F → Finding F → Bool → Service F → Service F
  unfolding put_last trim
  remember_finalized cfg f delivered s = record s {
    closed =
        trim cfg.max_finalized
          (put_last (key_of f) (record { finding = f; delivered = delivered }) s.closed);
  }

  -- The end of `_handle_candidate`, by the route.
  unfoldable pub take_route : Config F → ℕ → Finding F → Route → Service F → Service F
  unfolding persisted deliver_now capture_job put
  take_route cfg now f Route.final s = does (persisted cfg f ++ deliver_now f) s
  take_route cfg now f capture s = record s {
    waiting =
        put (key_of f)
          (record { finding = f; delivered = false; deadline = now + cfg.deadline_secs }) s.waiting;
    effects = s.effects ++ (persisted cfg f ++ order (capture_job f) ∷ []);
  }
  take_route cfg now f final_and_capture s = record s {
    waiting =
        put (key_of f)
          (record { finding = f; delivered = true; deadline = now + cfg.deadline_secs }) s.waiting;
    effects = s.effects ++ (persisted cfg f ++ deliver_now f ++ order (capture_job f) ∷ []);
  }

  unfoldable pub handle_candidate :
      Config F → Lookup → ℕ → Finding F → Service F → Result FindingError (Service F)
  unfolding build_finding take_route
  handle_candidate cfg quality now cand s = do
    (f, route) ← build_finding cfg.floats cfg.factors cfg.settings (some quality) cand
    ok (take_route cfg now f route s)

  -- A result for a finding that is not pending.
  unfoldable pub handle_late :
      Config F → EnrichmentResult → Option (Closed F) → Service F → Service F
  unfolding drop_key apply_enrichment_result emit_finalized
  handle_late cfg result none s = s
  handle_late cfg result (some prev) s =
      does (emit_finalized cfg true (apply_enrichment_result cfg.settings prev.finding result))
        (record s { closed = drop_key (pk result.tenant_id result.finding_id) s.closed })

  unfoldable pub result_for :
      Config F → EnrichmentResult → Option (Entry F) × Dict Key (Entry F) → Service F → Service F
  unfolding handle_late find apply_enrichment_result emit_finalized
  result_for cfg result (none, waiting) s =
      handle_late cfg result (find (pk result.tenant_id result.finding_id) s.closed) s
  result_for cfg result (some entry, waiting) s =
      does
        (emit_finalized cfg entry.delivered
          (apply_enrichment_result cfg.settings entry.finding result))
        (record s { waiting = waiting })

  unfoldable pub handle_result : Config F → EnrichmentResult → Service F → Service F
  unfolding result_for pop_pending
  handle_result cfg result s =
      result_for cfg result (pop_pending s.waiting result.tenant_id result.finding_id) s

  -- Finalizes an entry that was taken out of `pending`.
  unfoldable pub time_out : Config F → Entry F → Service F → Service F
  unfolding finalize_timeout emit_finalized remember_finalized
  time_out cfg entry s =
      let done = finalize_timeout cfg.settings entry.finding in
      remember_finalized cfg done entry.delivered (does (emit_finalized cfg entry.delivered done) s)

  unfoldable pub status_for :
      Config F → Option (Entry F) × Dict Key (Entry F) → Service F → Service F
  unfolding time_out
  status_for cfg (none, waiting) s = s
  status_for cfg (some entry, waiting) s = time_out cfg entry (record s { waiting = waiting })

  unfoldable pub handle_status : Config F → CaptureStatus → Service F → Service F
  unfolding is_terminal status_for pop_pending
  handle_status cfg status s =
      if is_terminal status
      then status_for cfg (pop_pending s.waiting status.tenant_id status.finding_id) s
      else s

  -- [k for k, e in pending.items() if e["deadline"] <= now]
  unfoldable pub due_keys : ℕ → Dict Key (Entry F) → List Key
  due_keys now [] = []
  due_keys now (row ∷ rest) =
      let more = due_keys now rest in if leb row.1.deadline now then row.0 ∷ more else more

  unfoldable pub sweep_keys : Config F → List Key → Service F → Service F
  unfolding status_for find drop_key
  sweep_keys cfg [] s = s
  sweep_keys cfg (key ∷ keys) s = sweep_keys cfg keys (status_for cfg (pop key s.waiting) s)

  unfoldable pub sweep_timeouts : Config F → ℕ → Service F → Service F
  unfolding sweep_keys due_keys
  sweep_timeouts cfg now s = sweep_keys cfg (due_keys now s.waiting) s

  -- The loop of `_pending_from_rows`, from the entries found so far.
  unfoldable pub pending_from_rows : ℕ → Dict Key (Entry F) → List (Finding F) → Dict Key (Entry F)
  unfolding put
  pending_from_rows now found [] = found
  pending_from_rows now found (f ∷ rows) =
      pending_from_rows now
        (if f.finding_id == "" || not (is_unfinalized f.enrichment_state)
          then found
          else put (key_of f) (record { finding = f; delivered = is_final f.state; deadline = now })
              found)
        rows

-- What the loop of `main` reacts to: a message of one of three topics, or the end of a batch.
pub data Event (F : Type 0) : Type 0 where
  candidate : Lookup → ℕ → Finding F → Event F
  result : EnrichmentResult → Event F
  status : CaptureStatus → Event F
  sweep : ℕ → Event F

module _ {F : Type 0} where
  unfoldable pub react : Config F → Event F → Service F → Result FindingError (Service F)
  unfolding handle_candidate handle_result handle_status sweep_timeouts
  react cfg (candidate quality now cand) s = handle_candidate cfg quality now cand s
  react cfg (result r) s = ok (handle_result cfg r s)
  react cfg (status st) s = ok (handle_status cfg st s)
  react cfg (sweep now) s = ok (sweep_timeouts cfg now s)

  unfoldable pub loop : Config F → List (Event F) → Service F → Result FindingError (Service F)
  unfolding react
  loop cfg [] s = ok s
  loop cfg (event ∷ events) s = react cfg event s >>= loop cfg events
