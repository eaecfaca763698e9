-- ===== src/Pipeline/Recall.antt =====
-- services/finding-service/app.py: a result that comes after the end of its finding.
use cernityndr.Base.{
  ℕ, suc, ◌+◌, String, ◌≡◌, refl, sym, ap, ◌∙◌, subst, inl, inr, true, false, Option, none, some,
  List, [], ◌∷◌, ◌++◌, ok, ltb, ◌==◌, same_refl, arith, length, Bool-cases, Option-cases, find,
  drop_key, find-drop_key,
}
use cernityndr.Finding.{EnrichmentResult, apply_enrichment_result, finalize_timeout}
use cernityndr.Pipeline.{
  Key, key_eq, pk, Entry, Closed, Service, Config, CaptureStatus, Event, result, status, candidate,
  sweep, key_of, emit_finalized, remember_finalized, handle_late, result_for, handle_result,
  is_terminal, time_out, status_for, handle_status, react, loop,
}
use cernityndr.Pipeline.Keys.{
  Keyed, none-some, drop_key-Keyed, pop_pending-cases, finalize_timeout-key,
}
use cernityndr.Pipeline.Recency.{IsRecent, put_last-IsRecent, IsRecent-drop_key, IsRecent-put_last}
use cernityndr.Pipeline.Late.{handle_status-time_out, handle_result-closed, time_out-effects}

module _ {F : Type 0} (key : Key) where
  -- A capture status, or an enrichment result for another finding.
  abbrev pub IsOther : Event F → Type 0
  IsOther (candidate quality now f) = ⊥
  IsOther (result r) = (pk r.tenant_id r.finding_id == key) ≡ false
  IsOther (status st) = Unit {0}
  IsOther (sweep now) = ⊥

  abbrev pub AllOther : List (Event F) → Type 0
  AllOther [] = Unit {0}
  AllOther (ev ∷ evs) = IsOther ev × AllOther evs

module _ {F : Type 0} (cfg : Config F) (key : Key) (c : Closed F) where
  -- The finding of `key` is closed as `c` and waits no more; `n` findings at most were closed after.
  record Kept (n : ℕ) (s : Service F) : Type 0 where
    keyed : Keyed s.waiting
    gone : find key s.waiting ≡ none
    recent : IsRecent key c n s.closed

  weaken : (n : ℕ) (s : Service F) → Kept n s → Kept (suc n) s
  weaken n s k = record {
    keyed = k.keyed;
    gone = k.gone;
    recent = (k.recent.0, ground (arith, k.recent.1));
  }

  Kept-pop :
      (n : ℕ) (other : Key) (s : Service F)
      → Kept n s
      → Kept n (record s { waiting = drop_key other s.waiting })
  Kept-pop n other s k = record {
    keyed = drop_key-Keyed s.waiting other k.keyed;
    gone = elim (Bool-cases (other == key)) [
      | inl q ↦ find-drop_key other key s.waiting ∙ rw q refl
      | inr q ↦ find-drop_key other key s.waiting ∙ rw q k.gone
    ];
    recent = k.recent;
  }

  other_key :
      (n : ℕ) (other : Key) (s : Service F) (e : Entry F)
      → Kept n s
      → find other s.waiting ≡ some e
      → (other == key) ≡ false
  other_key n other s e k p = elim (Bool-cases (other == key)) [
    | inl q ↦ absurd (
        none-some
          (sym k.gone ∙ subst (λ x. find x s.waiting ≡ some e) ((key_eq.same_iff other key).0 q) p))
    | inr q ↦ q
  ]

  Kept-time_out :
      (n : ℕ) (e : Entry F) (s : Service F)
      → (key_of e.finding == key) ≡ false
      → ltb (suc n) cfg.max_finalized ≡ true
      → Kept n s
      → Kept (suc n) (time_out cfg e s)
  unfolding time_out remember_finalized
  Kept-time_out n e s h room k = record {
    keyed = k.keyed;
    gone = k.gone;
    recent =
        IsRecent-put_last cfg.max_finalized n (key_of (finalize_timeout cfg.settings e.finding)) key
          c _ s.closed (ap (λ x. x == key) (finalize_timeout-key cfg.settings e.finding) ∙ h) room
          k.recent;
  }

  Kept-status :
      (n : ℕ) (st : CaptureStatus) (s : Service F)
      → ltb (suc n) cfg.max_finalized ≡ true
      → Kept n s
      → Kept (suc n) (handle_status cfg st s)
  unfolding handle_status status_for Keyed
  Kept-status n st s room k = elim (Bool-cases (is_terminal st)) [
    | inr h ↦ rw h (weaken n s k)
    | inl h ↦ rw h (elim (pop_pending-cases s.waiting st.tenant_id st.finding_id) [
      | inl p ↦ rw p (weaken n s k)
      | inr (other, p) ↦ rw p (elim (Option-cases (find other s.waiting)) [
        | inl q ↦ rw q (weaken n s k)
        | inr (e, q) ↦ rw q (
            Kept-time_out n e (record s { waiting = drop_key other s.waiting })
              (ap (λ x. x == key) (k.keyed other e q) ∙ other_key n other s e k q) room
              (Kept-pop n other s k))
      ])
    ])
  ]

  Kept-late :
      (n : ℕ) (r : EnrichmentResult) (o : Option (Closed F)) (s : Service F)
      → (pk r.tenant_id r.finding_id == key) ≡ false
      → Kept n s
      → Kept n (handle_late cfg r o s)
  unfolding handle_late
  Kept-late n r none s h k = k
  Kept-late n r (some prev) s h k = record {
    keyed = k.keyed;
    gone = k.gone;
    recent = IsRecent-drop_key (pk r.tenant_id r.finding_id) key c n s.closed h k.recent;
  }

  Kept-result :
      (n : ℕ) (r : EnrichmentResult) (s : Service F)
      → (pk r.tenant_id r.finding_id == key) ≡ false
      → Kept n s
      → Kept n (handle_result cfg r s)
  unfolding handle_result result_for
  Kept-result n r s h k = elim (pop_pending-cases s.waiting r.tenant_id r.finding_id) [
    | inl p ↦ rw p (Kept-late n r _ s h k)
    | inr (other, p) ↦ rw p (elim (Option-cases (find other s.waiting)) [
      | inl q ↦ rw q (Kept-late n r _ s h k)
      | inr (e, q) ↦ rw q (
          let popped = Kept-pop n other s k in
          record { keyed = popped.keyed; gone = popped.gone; recent = popped.recent })
    ])
  ]

  loop-Kept :
      (n : ℕ) (evs : List (Event F)) (s : Service F)
      → AllOther key evs
      → ltb (n + length evs) cfg.max_finalized ≡ true
      → Kept n s
      → (v : Service F) × (loop cfg evs s ≡ ok v) × Kept (n + length evs) v
  unfolding loop react
  loop-Kept n [] s h room k = (s, refl, subst (λ m. Kept m s) (omega arith) k)
  loop-Kept n (result r ∷ evs) s h room k =
      let s' = handle_result cfg r s in
      let (v, p, kept) =
        loop-Kept (suc n) evs s' h.1 (ground (arith, room))
          (weaken n s' (Kept-result n r s h.0 k)) in
      (v, p, subst (λ m. Kept m v) (omega arith) kept)
  loop-Kept n (status st ∷ evs) s h room k =
      let s' = handle_status cfg st s in
      let (v, p, kept) =
        loop-Kept (suc n) evs s' h.1 (ground (arith, room))
          (Kept-status n st s (ground (arith, room)) k) in
      (v, p, subst (λ m. Kept m v) (omega arith) kept)
  loop-Kept n (candidate quality now f ∷ evs) s h room k = absurd h.0
  loop-Kept n (sweep now ∷ evs) s h room k = absurd h.0

module _ {F : Type 0} where
  Kept-closed :
      (cfg : Config F) (key : Key) (e : Entry F) (s : Service F)
      → ltb 0 cfg.max_finalized ≡ true
      → Keyed s.waiting
      → key_of e.finding ≡ key
      → Kept cfg key
          (record { finding = finalize_timeout cfg.settings e.finding; delivered = e.delivered })
          0
          (time_out cfg e (record s { waiting = drop_key key s.waiting }))
  unfolding time_out remember_finalized
  Kept-closed cfg key e s m keyed k =
      let at = finalize_timeout-key cfg.settings e.finding ∙ k in
      record {
        keyed = drop_key-Keyed s.waiting key keyed;
        gone = find-drop_key key key s.waiting ∙ rw (same_refl key) refl;
        recent = rw at (put_last-IsRecent cfg.max_finalized key _ s.closed m);
      }

  -- A finding waits, and a terminal status of its tenant and id closes it. Any capture statuses and
  -- any enrichment results for other findings may follow, fewer than the cache of closed findings
  -- holds, and only then its own enrichment result comes. The messages between are handled, none
  -- fails, and the result is merged into the finding as it was closed, as a further revision that
  -- is stored and sent and not annotated again; the same result once more changes nothing. What
  -- waits stands under the key of its finding, and no candidate and no sweep comes between.
  pub late_result :
      (cfg : Config F) (st : CaptureStatus) (evs : List (Event F)) (r : EnrichmentResult)
      (s : Service F) (tenant : String) (e : Entry F)
      → Keyed s.waiting
      → find (pk (some tenant) st.finding_id) s.waiting ≡ some e
      → is_terminal st ≡ true
      → st.tenant_id ≡ some tenant
      → AllOther (pk (some tenant) st.finding_id) evs
      → ltb (length evs) cfg.max_finalized ≡ true
      → r.tenant_id ≡ some tenant
      → r.finding_id ≡ st.finding_id
      → let t = handle_status cfg st s in
        let closed = finalize_timeout cfg.settings e.finding in
        (t.effects ≡ s.effects ++ emit_finalized cfg e.delivered closed)
        × ((v : Service F) × (loop cfg evs t ≡ ok v)
            × ((handle_result cfg r v).effects
                ≡ v.effects
                  ++ emit_finalized cfg true (apply_enrichment_result cfg.settings closed r))
            × (handle_result cfg r (handle_result cfg r v) ≡ handle_result cfg r v))
  unfolding Keyed
  late_result cfg st evs r s tenant e keyed w h p others room q i =
      let key = pk (some tenant) st.finding_id in
      let c : Closed F = record {
        finding = finalize_timeout cfg.settings e.finding;
        delivered = e.delivered;
      } in
      let t' = time_out cfg e (record s { waiting = drop_key key s.waiting }) in
      let (v, run, kept) =
        loop-Kept cfg key c 0 evs t' others (ground (arith, room))
          (Kept-closed cfg key e s (ground (arith, room)) keyed (keyed key e w)) in
      let same : pk (some tenant) r.finding_id ≡ key = ap (pk (some tenant)) i in
      let (sent, again) =
        handle_result-closed cfg r v tenant c q (ap (λ x. find x v.waiting) same ∙ kept.gone)
          (ap (λ x. find x v.closed) same ∙ kept.recent.0) in
      rw (handle_status-time_out cfg st s tenant e h p w) (
        time_out-effects cfg e (record s { waiting = drop_key key s.waiting }),
        (v, run, sent, again),
      )
