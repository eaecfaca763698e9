-- ===== src/Pipeline/Keys.antt =====
-- services/finding-service/app.py: a pending entry stands under the key of its finding.
use cernityndr.Base.{
  String, ◌≡◌, refl, sym, ◌∙◌, subst, ◌⊎◌, inl, inr, Option, none, some, List, [], ◌∷◌, Table, ◌==◌,
  Bool-cases, Dict, find, put, drop_key, find-put, find-drop_key,
}
use cernityndr.Finding.{
  Finding, Settings, EnrichmentResult, is_text, apply_enrichment_result, finalize_timeout,
  merge_result, finalized, with_summary, with_iocs,
}
use cernityndr.Pipeline.{Key, key_eq, pk, Entry, key_of, pop_pending, pop_only, matches}

pub inj_some : {A : Type 0} {x y : A} → some x ≡ some y → x ≡ y
inj_some h = cc

pub none-some : {A : Type 0} {x : A} → none ≡ some x → ⊥
none-some h = cc

module _ {F : Type 0} where
  unfoldable pub Keyed : Dict Key (Entry F) → Type 0
  Keyed d = (key : Key) (e : Entry F) → find key d ≡ some e → key_of e.finding ≡ key

  with_iocs-key :
      (t : Option (Table (List String))) (f : Finding F) → key_of (with_iocs t f) ≡ key_of f
  with_iocs-key none f = refl
  with_iocs-key (some t) f = refl

  with_summary-key : (s : Option String) (f : Finding F) → key_of (with_summary s f) ≡ key_of f
  with_summary-key none f = refl
  with_summary-key (some s) f = refl

  merge_result-key : (f : Finding F) (r : EnrichmentResult) → key_of (merge_result f r) ≡ key_of f
  unfolding merge_result
  merge_result-key f r = elim (Bool-cases (is_text r.status "ok")) [
    | inl h ↦ rw h (with_iocs-key r.iocs _ ∙ with_summary-key r.summary _)
    | inr h ↦ rw h refl
  ]

  -- An enrichment result keeps the key of the finding.
  pub apply_enrichment_result-key :
      (cfg : Settings) (f : Finding F) (r : EnrichmentResult)
      → key_of (apply_enrichment_result cfg f r) ≡ key_of f
  unfolding apply_enrichment_result finalized
  apply_enrichment_result-key cfg f r = merge_result-key f r

  pub finalize_timeout-key :
      (cfg : Settings) (f : Finding F) → key_of (finalize_timeout cfg f) ≡ key_of f
  unfolding finalize_timeout finalized
  finalize_timeout-key cfg f = refl

  pub put-Keyed :
      (d : Dict Key (Entry F)) (e : Entry F) → Keyed d → Keyed (put (key_of e.finding) e d)
  unfolding Keyed
  put-Keyed d new h key e p = elim (Bool-cases (key_of new.finding == key)) [
    | inl q ↦
        let r : some new ≡ some e = sym (find-put (key_of new.finding) key new d ∙ rw q refl) ∙ p in
        subst (λ (x : Entry F). key_of x.finding ≡ key) (inj_some r)
          ((key_eq.same_iff (key_of new.finding) key).0 q)
    | inr q ↦ h key e (sym (find-put (key_of new.finding) key new d ∙ rw q refl) ∙ p)
  ]

  pub drop_key-Keyed : (d : Dict Key (Entry F)) (gone : Key) → Keyed d → Keyed (drop_key gone d)
  unfolding Keyed
  drop_key-Keyed d gone h key e p = elim (Bool-cases (gone == key)) [
    | inl q ↦ absurd (none-some (sym (find-drop_key gone key d ∙ rw q refl) ∙ p))
    | inr q ↦ h key e (sym (find-drop_key gone key d ∙ rw q refl) ∙ p)
  ]

  -- What a message takes out of `pending` is at most one entry, by its key.
  pub pop_pending-cases :
      (d : Dict Key (Entry F)) (tenant : Option String) (fid : String)
      → (pop_pending d tenant fid ≡ (none, d))
        ⊎ ((key : Key) × (pop_pending d tenant fid ≡ (find key d, drop_key key d)))
  unfolding pop_pending pop_only
  pop_pending-cases d (some tenant) fid = inr (pk (some tenant) fid, refl)
  pop_pending-cases d none fid = go (matches fid d)
    where
      go :
          (keys : List Key)
          → (pop_only keys d ≡ (none, d))
            ⊎ ((key : Key) × (pop_only keys d ≡ (find key d, drop_key key d)))
      go [] = inl refl
      go (key ∷ []) = inr (key, refl)
      go (key ∷ other ∷ more) = inl refl
