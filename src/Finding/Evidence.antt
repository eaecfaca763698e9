-- ===== src/Finding/Evidence.antt =====
-- What an enrichment result adds to a finding.
use cernityndr.Base.{
  String, ◌≡◌, ◌∙◌, refl, sym, ap, true, false, ◌||◌, Option, none, some, List, [], ◌∷◌, ◌++◌,
  arith, ◌==◌, string_eq, eq_iff, contains, contains-append, distinct, distinct-append, Bool-cases,
  inl, inr, same_refl, Table,
}
use cernityndr.Finding.{
  Finding, Settings, EnrichmentResult, is_text, union, with_iocs, with_summary, merge_result,
  finalized, apply_enrichment_result, EnrichmentState,
}

contains-snoc :
    (xs : List String) (x a : String) → contains (xs ++ x ∷ []) a ≡ (contains xs a || a == x)
unfolding contains
contains-snoc xs x a = rw contains-append (ground arith)

pub contains-union :
    (xs ys : List String) (a : String) → contains (union xs ys) a ≡ (contains xs a || contains ys a)
unfolding union contains
contains-union xs [] a = ground arith
contains-union xs (y ∷ ys) a = elim (Bool-cases (contains xs y)) [
  | inl old ↦ rw old (contains-union xs ys a ∙ ground (arith, eq_iff a y, old))
  | inr new ↦ rw new (contains-union (xs ++ y ∷ []) ys a ∙ rw contains-snoc (ground arith))
]

pub distinct-union : (xs ys : List String) → distinct xs ≡ true → distinct (union xs ys) ≡ true
unfolding union
distinct-union xs [] h = h
distinct-union xs (y ∷ ys) h = elim (Bool-cases (contains xs y)) [
  | inl old ↦ rw old (distinct-union xs ys h)
  | inr new ↦ rw new (distinct-union (xs ++ y ∷ []) ys (distinct-append xs y h new))
]

abbrev IsWithin : List String → List String → Type 0
IsWithin [] xs = Unit {0}
IsWithin (y ∷ ys) xs = (contains xs y ≡ true) × IsWithin ys xs

union-within : (xs ys : List String) → IsWithin ys xs → union xs ys ≡ xs
unfolding union
union-within xs [] h = refl
union-within xs (y ∷ ys) h = rw h.0 (union-within xs ys h.1)

IsWithin-of_contains :
    (ys zs : List String)
    → ((a : String) → contains ys a ≡ true → contains zs a ≡ true)
    → IsWithin ys zs
unfolding contains
IsWithin-of_contains [] zs h = tt
IsWithin-of_contains (y ∷ ys) zs h =
    (h y (ground (arith, same_refl y)), IsWithin-of_contains ys zs (λ a k. h a (ground (arith, k))))

-- Adding the same references twice is adding them once.
pub union_idem : (xs ys : List String) → union (union xs ys) ys ≡ union xs ys
union_idem xs ys =
    union-within (union xs ys) ys
      (IsWithin-of_contains ys (union xs ys) (λ a h. contains-union xs ys a ∙ ground (arith, h)))

module _ {F : Type 0} where
  evidence-iocs :
      (t : Option (Table (List String))) (f : Finding F)
      → (with_iocs t f).evidence_refs ≡ f.evidence_refs
  evidence-iocs none f = refl
  evidence-iocs (some t) f = refl

  evidence-summary :
      (s : Option String) (f : Finding F) → (with_summary s f).evidence_refs ≡ f.evidence_refs
  evidence-summary none f = refl
  evidence-summary (some s) f = refl

  evidence-merge :
      (f : Finding F) (r : EnrichmentResult)
      → is_text r.status "ok" ≡ true
      → (merge_result f r).evidence_refs ≡ union f.evidence_refs r.evidence_refs
  unfolding merge_result
  evidence-merge f r h = rw h (evidence-iocs r.iocs _ ∙ evidence-summary r.summary _)

  -- A good result adds its references to the finding's: none is lost, none but the two lists' is
  -- there, none is doubled where none was, and the same result a second time adds nothing.
  pub apply_enrichment_result_evidence :
      (cfg : Settings) (f : Finding F) (r : EnrichmentResult)
      → is_text r.status "ok" ≡ true
      → let g = apply_enrichment_result cfg f r in
        ((a : String)
          → contains g.evidence_refs a ≡ (contains f.evidence_refs a || contains r.evidence_refs a))
        × (distinct f.evidence_refs ≡ true → distinct g.evidence_refs ≡ true)
        × ((apply_enrichment_result cfg g r).evidence_refs ≡ g.evidence_refs)
  unfolding apply_enrichment_result finalized
  apply_enrichment_result_evidence cfg f r h =
      let e = evidence-merge f r h in
      (
        λ a. rw e (contains-union f.evidence_refs r.evidence_refs a),
        λ d. rw e (distinct-union f.evidence_refs r.evidence_refs d),
        evidence-merge (finalized cfg f (merge_result f r)) r h
            ∙ ap (λ (x : List String). union x r.evidence_refs) e
            ∙ union_idem f.evidence_refs r.evidence_refs
            ∙ sym e,
      )

  -- A result that is not good keeps all the evidence that the finding had.
  pub apply_enrichment_result_failed :
      (cfg : Settings) (f : Finding F) (r : EnrichmentResult)
      → is_text r.status "ok" ≡ false
      → let g = apply_enrichment_result cfg f r in
        (g.evidence_refs ≡ f.evidence_refs)
        × (g.iocs ≡ f.iocs)
        × (g.summary ≡ f.summary)
        × (g.enrichment_state ≡ some EnrichmentState.enrichment_failed)
  unfolding apply_enrichment_result finalized merge_result
  apply_enrichment_result_failed cfg f r h = rw h (refl, refl, refl, refl)
