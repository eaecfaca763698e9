-- ===== src/Pipeline/Late.antt =====
-- services/finding-service/app.py: whom a message reaches.
use cernityndr.Base.{
  String, ◌≡◌, refl, sym, ap, ◌∙◌, subst, ◌⊎◌, inl, inr, true, Option, none, some, List, [], ◌∷◌,
  ◌++◌, if◌then◌else◌, ◌==◌, same_refl, Bool-cases, Dict, find, drop_key, find-drop_key,
}
use cernityndr.Finding.{EnrichmentResult, apply_enrichment_result, finalize_timeout}
use cernityndr.Pipeline.{
  Key, key_eq, pk, Entry, Closed, Service, Config, CaptureStatus, emit_finalized, pop_pending,
  pop_only, matches, remember_finalized, handle_late, result_for, handle_result, is_terminal,
  time_out, status_for, handle_status,
}

module _ {F : Type 0} where
  -- The message names the tenant and id of `key`, or names no tenant and `key` is the only one
  -- that waits with the id.
  pub Names : Option String → String → Dict Key (Entry F) → Key → Type 0
  Names (some tenant) fid d key = key ≡ pk (some tenant) fid
  Names none fid d key = matches fid d ≡ key ∷ []

  pop_pending-Names :
      (d : Dict Key (Entry F)) (tenant : Option String) (fid : String)
      → (pop_pending d tenant fid ≡ (none, d))
        ⊎ ((key : Key) × (pop_pending d tenant fid ≡ (find key d, drop_key key d))
            × Names tenant fid d key)
  unfolding pop_pending pop_only Names
  pop_pending-Names d (some tenant) fid = inr (pk (some tenant) fid, refl, refl)
  pop_pending-Names d none fid = go (matches fid d) refl
    where
      go :
          (keys : List Key)
          → matches fid d ≡ keys
          → (pop_only keys d ≡ (none, d))
            ⊎ ((key : Key) × (pop_only keys d ≡ (find key d, drop_key key d))
                × (matches fid d ≡ key ∷ []))
      go [] p = inl refl
      go (key ∷ []) p = inr (key, refl, p)
      go (key ∷ other ∷ more) p = inl refl

  -- `key` stands as before, or the message names it.
  abbrev pub Reached :
      Option String → String → Dict Key (Entry F) → Dict Key (Entry F) → Key → Type 0
  Reached tenant fid d d' key = (find key d' ≡ find key d) ⊎ Names tenant fid d key

  reach :
      (tenant : Option String) (fid : String) (d d' : Dict Key (Entry F)) (gone key : Key)
      → Names tenant fid d gone
      → find key d' ≡ (if gone == key then none else find key d)
      → Reached tenant fid d d' key
  reach tenant fid d d' gone key n p = elim (Bool-cases (gone == key)) [
    | inl q ↦ inr (subst (Names tenant fid d) ((key_eq.same_iff gone key).0 q) n)
    | inr q ↦ inl (p ∙ rw q refl)
  ]

  late-waiting :
      (cfg : Config F) (r : EnrichmentResult) (o : Option (Closed F)) (s : Service F)
      → (handle_late cfg r o s).waiting ≡ s.waiting
  unfolding handle_late
  late-waiting cfg r none s = refl
  late-waiting cfg r (some c) s = refl

  result-Reached :
      (cfg : Config F) (r : EnrichmentResult) (s : Service F) (key : Key)
      → Reached r.tenant_id r.finding_id s.waiting (handle_result cfg r s).waiting key
  unfolding handle_result result_for
  result-Reached cfg r s key = elim (pop_pending-Names s.waiting r.tenant_id r.finding_id) [
    | inl p ↦ rw p (inl (ap (find key) (late-waiting cfg r _ s)))
    | inr (gone, p, n) ↦ rw p (go gone n (find gone s.waiting))
  ]
    where
      go :
          (gone : Key)
          → Names r.tenant_id r.finding_id s.waiting gone
          → (o : Option (Entry F))
          → Reached r.tenant_id r.finding_id s.waiting
              (result_for cfg r (o, drop_key gone s.waiting) s).waiting
              key
      go gone n none = inl (ap (find key) (late-waiting cfg r _ s))
      go gone n (some e) =
          reach r.tenant_id r.finding_id s.waiting (drop_key gone s.waiting) gone key n
            (find-drop_key gone key s.waiting)

  status-Reached :
      (cfg : Config F) (st : CaptureStatus) (s : Service F) (key : Key)
      → Reached st.tenant_id st.finding_id s.waiting (handle_status cfg st s).waiting key
  unfolding handle_status status_for time_out remember_finalized
  status-Reached cfg st s key = elim (Bool-cases (is_terminal st)) [
    | inr h ↦ rw h (inl refl)
    | inl h ↦ rw h (elim (pop_pending-Names s.waiting st.tenant_id st.finding_id) [
      | inl p ↦ rw p (inl refl)
      | inr (gone, p, n) ↦ rw p (go gone n (find gone s.waiting))
    ])
  ]
    where
      go :
          (gone : Key)
          → Names st.tenant_id st.finding_id s.waiting gone
          → (o : Option (Entry F))
          → Reached st.tenant_id st.finding_id s.waiting
              (status_for cfg (o, drop_key gone s.waiting) s).waiting
              key
      go gone n none = inl refl
      go gone n (some e) =
          reach st.tenant_id st.finding_id s.waiting (drop_key gone s.waiting) gone key n
            (find-drop_key gone key s.waiting)

  -- An enrichment result and a capture status change what waits under a key only if they name its
  -- tenant and id, or name no tenant and no other tenant has a finding of that id waiting.
  pub handle-Reached :
      (cfg : Config F) (s : Service F) (key : Key)
      → ((r : EnrichmentResult)
          → Reached r.tenant_id r.finding_id s.waiting (handle_result cfg r s).waiting key)
        × ((st : CaptureStatus)
            → Reached st.tenant_id st.finding_id s.waiting (handle_status cfg st s).waiting key)
  handle-Reached cfg s key = (λ r. result-Reached cfg r s key, λ st. status-Reached cfg st s key)

  -- What `handle_status` leaves, for a terminal status that names a waiting finding.
  pub handle_status-time_out :
      (cfg : Config F) (st : CaptureStatus) (s : Service F) (tenant : String) (e : Entry F)
      → is_terminal st ≡ true
      → st.tenant_id ≡ some tenant
      → find (pk (some tenant) st.finding_id) s.waiting ≡ some e
      → handle_status cfg st s
        ≡ time_out cfg e
            (record s { waiting = drop_key (pk (some tenant) st.finding_id) s.waiting })
  unfolding handle_status
  handle_status-time_out cfg st s tenant e h q p =
      rw h (rw q (unfold pop_pending in rw p (unfold status_for in refl)))

  handle_result-late :
      (cfg : Config F) (r : EnrichmentResult) (s : Service F) (tenant : String)
      → r.tenant_id ≡ some tenant
      → find (pk (some tenant) r.finding_id) s.waiting ≡ none
      → handle_result cfg r s ≡ handle_late cfg r (find (pk (some tenant) r.finding_id) s.closed) s
  unfolding handle_result
  handle_result-late cfg r s tenant q p =
      rw q (unfold pop_pending in rw p (unfold result_for in refl))

  -- A result for a closed finding, the first time and again.
  pub handle_result-closed :
      (cfg : Config F) (r : EnrichmentResult) (s : Service F) (tenant : String) (c : Closed F)
      → r.tenant_id ≡ some tenant
      → find (pk (some tenant) r.finding_id) s.waiting ≡ none
      → find (pk (some tenant) r.finding_id) s.closed ≡ some c
      → ((handle_result cfg r s).effects
          ≡ s.effects ++ emit_finalized cfg true (apply_enrichment_result cfg.settings c.finding r))
        × (handle_result cfg r (handle_result cfg r s) ≡ handle_result cfg r s)
  handle_result-closed cfg r s tenant c q p l =
      let key = pk (some tenant) r.finding_id in
      let u : Service F = record s {
        closed = drop_key key s.closed;
        effects =
            s.effects ++ emit_finalized cfg true (apply_enrichment_result cfg.settings c.finding r);
      } in
      let once : handle_result cfg r s ≡ u =
        handle_result-late cfg r s tenant q p
        ∙ ap (λ o. handle_late cfg r o s) l
        ∙ unfold handle_late in rw q refl in
      let gone : find key (drop_key key s.closed) ≡ none =
        find-drop_key key key s.closed ∙ rw (same_refl key) refl in
      let again : handle_result cfg r u ≡ u =
        handle_result-late cfg r u tenant q p
        ∙ ap (λ o. handle_late cfg r o u) gone
        ∙ unfold handle_late in refl in
      (ap (λ (x : Service F). x.effects) once, ap (handle_result cfg r) once ∙ again ∙ sym once)

  pub time_out-effects :
      (cfg : Config F) (e : Entry F) (s : Service F)
      → (time_out cfg e s).effects
        ≡ s.effects ++ emit_finalized cfg e.delivered (finalize_timeout cfg.settings e.finding)
  unfolding time_out remember_finalized
  time_out-effects cfg e s = refl
