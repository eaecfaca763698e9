-- ===== src/Pipeline/Obligations.antt =====
-- services/finding-service/app.py: no finding that waits for evidence is lost.
use cernityndr.Base.{
  ℕ, ◌+◌, ◌≡◌, refl, ◌∙◌, subst, inl, inr, Bool, true, false, ◌||◌, Option, none, some, List, [],
  ◌∷◌, ◌++◌, Result, ok, err, ◌>>=◌, arith, if◌then◌else◌, ◌==◌, any, Bool-cases, Dict, find, put,
  drop_key, find-put, find-drop_key, OnOk, OnOk-at,
}
use cernityndr.Finding.{
  Finding, Route, capture, final_and_capture, EnrichmentResult, apply_enrichment_result,
  finalize_timeout,
}
use cernityndr.Finding.Quality.{build_finding, FindingError}
use cernityndr.Finding.Capture.{capture_job}
use cernityndr.Pipeline.{
  Key, key_eq, Entry, Closed, Effect, persist, annotate, deliver, order, Service, Config, key_of,
  does, CaptureStatus, persisted, deliver_now, emit_finalized, remember_finalized, take_route,
  handle_candidate, handle_late, result_for, handle_result, is_terminal, time_out, status_for,
  handle_status, due_keys, sweep_keys, sweep_timeouts, Event, candidate, result, status, sweep,
  react, loop,
}
use cernityndr.Pipeline.Keys.{
  Keyed, put-Keyed, drop_key-Keyed, pop_pending-cases, apply_enrichment_result-key,
  finalize_timeout-key,
}

pub any-append :
    {A : Type 0} (p : A → Bool) (xs ys : List A) → any p (xs ++ ys) ≡ (any p xs || any p ys)
any-append p [] ys = refl
any-append p (x ∷ xs) ys = ground (arith, any-append p xs ys)

module _ {F : Type 0} where
  abbrev pub delivers : Key → Effect F → Bool
  delivers key (deliver f) = key_of f == key
  delivers key (persist f) = false
  delivers key (annotate f) = false
  delivers key (order job) = false

  abbrev pub is_there : Option (Entry F) → Bool
  is_there none = false
  is_there (some e) = true

  -- The finding waits for evidence, or one with its key was sent to the final topic.
  unfoldable pub is_served : Key → Service F → Bool
  unfolding find
  is_served key s = is_there (find key s.waiting) || any (delivers key) s.effects

  pub emit-delivers :
      (cfg : Config F) (d : Bool) (done : Finding F)
      → any (delivers (key_of done)) (emit_finalized cfg d done) ≡ true
  unfolding emit_finalized persisted
  emit-delivers cfg d done = go d cfg.stores
    where
      go :
          (d b : Bool)
          → any (delivers (key_of done)) (
              (if d then [] else annotate done ∷ [])
              ++ (if b then persist done ∷ [] else [])
              ++ deliver done ∷ [])
            ≡ true
      go true true = ground (arith, key_eq.same_iff (key_of done) (key_of done))
      go true false = ground (arith, key_eq.same_iff (key_of done) (key_of done))
      go false true = ground (arith, key_eq.same_iff (key_of done) (key_of done))
      go false false = ground (arith, key_eq.same_iff (key_of done) (key_of done))

  unfoldable pub Safe : Service F → Service F → Type 0
  Safe s t =
      Keyed s.waiting
      → Keyed t.waiting × ((key : Key) → is_served key s ≡ true → is_served key t ≡ true)

  Safe-refl : (s : Service F) → Safe s s
  unfolding Safe
  Safe-refl s h = (h, λ key p. p)

  Safe-trans : (s t u : Service F) → Safe s t → Safe t u → Safe s u
  unfolding Safe
  Safe-trans s t u f g h = let (k, p) = f h in let (l, q) = g k in (l, λ key r. q key (p key r))

  -- More effects, the same entries.
  does-Safe :
      (s : Service F) (c : Dict Key (Closed F)) (es : List (Effect F))
      → Safe s (does es (record s { closed = c }))
  unfolding Safe is_served
  does-Safe s c es h = (h, λ key p. ground (arith, any-append (delivers key) s.effects es))

  put-Safe :
      (s : Service F) (e : Entry F) (es : List (Effect F))
      → Safe s
          (record s { waiting = put (key_of e.finding) e s.waiting; effects = s.effects ++ es })
  unfolding Safe is_served
  put-Safe s e es h = (
    put-Keyed s.waiting e h,
    λ key p. ground (
      arith,
      any-append (delivers key) s.effects es,
      find-put (key_of e.finding) key e s.waiting,
    ),
  )

  -- An entry is taken out and a finding with its key sent.
  take-Safe :
      (cfg : Config F) (s : Service F) (key : Key) (e : Entry F) (done : Finding F)
      (c : Dict Key (Closed F))
      → find key s.waiting ≡ some e
      → key_of done ≡ key_of e.finding
      → Safe s (record s {
        waiting = drop_key key s.waiting;
        closed = c;
        effects = s.effects ++ emit_finalized cfg e.delivered done;
      })
  unfolding Safe is_served Keyed
  take-Safe cfg s key e done c p q h =
      let here : key_of done ≡ key = q ∙ h key e p in
      (
        drop_key-Keyed s.waiting key h,
        λ other r. elim (Bool-cases (key == other)) [
          | inl same ↦
              let at : key_of done ≡ other = here ∙ (key_eq.same_iff key other).0 same in
              let sent =
                subst (λ k. any (delivers k) (emit_finalized cfg e.delivered done) ≡ true) at
                  (emit-delivers cfg e.delivered done) in
              ground
                (arith, any-append (delivers other) s.effects (emit_finalized cfg e.delivered done))
          | inr apart ↦ ground (
            arith,
            any-append (delivers other) s.effects (emit_finalized cfg e.delivered done),
            find-drop_key key other s.waiting,
          )
        ],
      )

  handle_late-Safe :
      (cfg : Config F) (r : EnrichmentResult) (o : Option (Closed F)) (s : Service F)
      → Safe s (handle_late cfg r o s)
  unfolding handle_late
  handle_late-Safe cfg r none s = Safe-refl s
  handle_late-Safe cfg r (some prev) s = does-Safe s _ _

  pub handle_result-Safe :
      (cfg : Config F) (r : EnrichmentResult) (s : Service F) → Safe s (handle_result cfg r s)
  unfolding handle_result
  handle_result-Safe cfg r s = elim (pop_pending-cases s.waiting r.tenant_id r.finding_id) [
    | inl p ↦ rw p (unfold result_for in handle_late-Safe cfg r _ s)
    | inr (key, p) ↦ rw p (go key (find key s.waiting) refl)
  ]
    where
      go :
          (key : Key) (o : Option (Entry F))
          → find key s.waiting ≡ o
          → Safe s (result_for cfg r (o, drop_key key s.waiting) s)
      go key none q = unfold result_for in handle_late-Safe cfg r _ s
      go key (some e) q =
          unfold result_for in
          take-Safe cfg s key e (apply_enrichment_result cfg.settings e.finding r) s.closed q
            (apply_enrichment_result-key cfg.settings e.finding r)

  pub status_for-Safe :
      (cfg : Config F) (s : Service F) (key : Key) (o : Option (Entry F))
      → find key s.waiting ≡ o
      → Safe s (status_for cfg (o, drop_key key s.waiting) s)
  unfolding status_for
  status_for-Safe cfg s key none q = Safe-refl s
  status_for-Safe cfg s key (some e) q =
      unfold time_out in
      unfold remember_finalized in
      take-Safe cfg s key e (finalize_timeout cfg.settings e.finding) _ q
        (finalize_timeout-key cfg.settings e.finding)

  pub handle_status-Safe :
      (cfg : Config F) (st : CaptureStatus) (s : Service F) → Safe s (handle_status cfg st s)
  unfolding handle_status
  handle_status-Safe cfg st s = elim (Bool-cases (is_terminal st)) [
    | inr h ↦ rw h (Safe-refl s)
    | inl h ↦ rw h (elim (pop_pending-cases s.waiting st.tenant_id st.finding_id) [
      | inl p ↦ rw p (unfold status_for in Safe-refl s)
      | inr (key, p) ↦ rw p (status_for-Safe cfg s key (find key s.waiting) refl)
    ])
  ]

  pub sweep_keys-Safe :
      (cfg : Config F) (keys : List Key) (s : Service F) → Safe s (sweep_keys cfg keys s)
  unfolding sweep_keys
  sweep_keys-Safe cfg [] s = Safe-refl s
  sweep_keys-Safe cfg (key ∷ keys) s =
      Safe-trans s _ _ (status_for-Safe cfg s key (find key s.waiting) refl)
        (sweep_keys-Safe cfg keys (status_for cfg (find key s.waiting, drop_key key s.waiting) s))

  take_route-Safe :
      (cfg : Config F) (now : ℕ) (f : Finding F) (route : Route) (s : Service F)
      → Safe s (take_route cfg now f route s)
  unfolding take_route
  take_route-Safe cfg now f Route.final s = does-Safe s s.closed _
  take_route-Safe cfg now f capture s =
      put-Safe s (record { finding = f; delivered = false; deadline = now + cfg.deadline_secs })
        (persisted cfg f ++ order (capture_job f) ∷ [])
  take_route-Safe cfg now f final_and_capture s =
      put-Safe s (record { finding = f; delivered = true; deadline = now + cfg.deadline_secs })
        (persisted cfg f ++ deliver_now f ++ order (capture_job f) ∷ [])

  react-Safe :
      (cfg : Config F) (event : Event F) (s : Service F) → OnOk (Safe s) (react cfg event s)
  unfolding react handle_candidate sweep_timeouts
  react-Safe cfg (candidate quality now cand) s =
      elim (build_finding cfg.floats cfg.factors cfg.settings (some quality) cand)
        as (λ r. OnOk (Safe s) (r >>= λ fr. ok (take_route cfg now fr.0 fr.1 s))) [
          | ok (f, route) ↦ take_route-Safe cfg now f route s
          | err x ↦ tt
        ]
  react-Safe cfg (result r) s = handle_result-Safe cfg r s
  react-Safe cfg (status st) s = handle_status-Safe cfg st s
  react-Safe cfg (sweep now) s = sweep_keys-Safe cfg (due_keys now s.waiting) s

  bind-Safe :
      (s : Service F) (r : Result FindingError (Service F))
      (f : Service F → Result FindingError (Service F))
      → OnOk (Safe s) r
      → ((t : Service F) → OnOk (Safe t) (f t))
      → OnOk (Safe s) (r >>= f)
  bind-Safe s (err x) f h k = tt
  bind-Safe s (ok t) f h k = weaken (f t) (k t)
    where
      weaken : (r : Result FindingError (Service F)) → OnOk (Safe t) r → OnOk (Safe s) r
      weaken (err x) l = tt
      weaken (ok u) l = Safe-trans s t u h l

  loop-Safe :
      (cfg : Config F) (events : List (Event F)) (s : Service F) → OnOk (Safe s) (loop cfg events s)
  unfolding loop
  loop-Safe cfg [] s = Safe-refl s
  loop-Safe cfg (event ∷ events) s =
      bind-Safe s (react cfg event s) (loop cfg events) (react-Safe cfg event s)
        (loop-Safe cfg events)

  -- Through any messages and sweeps that the loop takes without an exception, a finding that waits
  -- for evidence under a key of its own either still waits or a finding with its tenant and id was
  -- sent to the final topic: results, statuses, timeouts and further candidates lose none.
  pub loop_lossless :
      (cfg : Config F) (events : List (Event F)) (s t : Service F)
      → Keyed s.waiting
      → loop cfg events s ≡ ok t
      → (key : Key) → is_there (find key s.waiting) ≡ true
      → (is_there (find key t.waiting) || any (delivers key) t.effects) ≡ true
  unfolding is_served Safe
  loop_lossless cfg events s t h p key q =
      (OnOk-at (Safe s) (loop cfg events s) (loop-Safe cfg events s) p h).1 key (ground arith)
