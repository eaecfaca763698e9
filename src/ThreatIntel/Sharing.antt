-- ===== src/ThreatIntel/Sharing.antt =====
-- services/threat-intel/lifecycle.py: what was marked red by one source is not shared.
use cernityndr.Base.{
  ℕ, String, ◌≡◌, refl, ap, ◌∙◌, inl, inr, Bool, true, false, ◌||◌, Option, none, some, List, [],
  ◌∷◌, map, arith, eq_iff, ltb, ◌==◌, string_eq, any, subst, Bool-cases,
}
use cernityndr.ThreatIntel.{
  Provenance, Indicator, tlp_rank, rank_or_zero, stricter, strictest_from, most_restrictive_tlp,
  best_provenance, is_exportable, latest, derived, with_winner, derive,
}

unfoldable pub marked_red : Option String → Bool
marked_red none = false
marked_red (some t) = t == "red"

rank_top : (t : String) → ltb 4 (rank_or_zero (tlp_rank t)) ≡ false
unfolding tlp_rank
rank_top t = ground arith

rank_of_red : (t : String) → ltb (rank_or_zero (tlp_rank t)) 4 ≡ false → (t == "red") ≡ true
unfolding tlp_rank
rank_of_red t h = ground arith

-- Once red, always red.
stricter-red_kept :
    (t : String) (o : Option ℕ)
    → ltb 4 (rank_or_zero o) ≡ false
    → stricter (some "red") t o ≡ some "red"
unfolding stricter tlp_rank
stricter-red_kept t none h = refl
stricter-red_kept t (some n) h = rw h refl

stricter-red : (best : Option String) → stricter best "red" (some 4) ≡ some "red"
unfolding stricter
stricter-red none = refl
stricter-red (some b) = elim (Bool-cases (ltb (rank_or_zero (tlp_rank b)) 4)) [
  | inl h ↦ rw h refl
  | inr h ↦ rw h (ap some ((eq_iff b "red").0 (rank_of_red b h)))
]

strictest_from-kept : (tlps : List (Option String)) → strictest_from (some "red") tlps ≡ some "red"
unfolding strictest_from
strictest_from-kept [] = refl
strictest_from-kept (none ∷ tlps) = strictest_from-kept tlps
strictest_from-kept (some t ∷ tlps) =
    ap (λ b. strictest_from b tlps) (stricter-red_kept t (tlp_rank t) (rank_top t))
    ∙ strictest_from-kept tlps

strictest_from-red :
    (best : Option String) (tlps : List (Option String))
    → any marked_red tlps ≡ true
    → strictest_from best tlps ≡ some "red"
unfolding strictest_from marked_red
strictest_from-red best [] h = absurd cc
strictest_from-red best (none ∷ tlps) h = strictest_from-red best tlps h
strictest_from-red best (some t ∷ tlps) h = elim (Bool-cases (t == "red")) [
  | inl q ↦
      let e = (eq_iff t "red").0 q in
      ap (λ x. strictest_from (stricter best x (tlp_rank x)) tlps) e
      ∙ ap (λ b. strictest_from b tlps) (unfold tlp_rank in stricter-red best)
      ∙ strictest_from-kept tlps
  | inr q ↦ strictest_from-red (stricter best t (tlp_rank t)) tlps (rw q at h)
]

inj_some : {A : Type 0} {x y : A} → some x ≡ some y → x ≡ y
inj_some h = cc

module _ {F : Type 0} where
  any-map :
      (ps : List (Provenance F))
      → any marked_red (map (λ (p : Provenance F). p.tlp) ps)
        ≡ any (λ (p : Provenance F). marked_red p.tlp) ps
  any-map [] = refl
  any-map (p ∷ ps) = ap (λ b. marked_red p.tlp || b) (any-map ps)

  derived-red :
      (now : ℕ) (r : Indicator F) (expiry : ℕ) (winner : Provenance F)
      → any (λ (p : Provenance F). marked_red p.tlp) r.provenance ≡ true
      → is_exportable (derived now r expiry winner) ≡ false
  unfolding is_exportable derived most_restrictive_tlp
  derived-red now r expiry winner h =
      rw
        (strictest_from-red none (map (λ (p : Provenance F). p.tlp) r.provenance)
          (any-map r.provenance ∙ h))
        refl

  -- However trusted or recent the other sources of an indicator are, if one of its assertions is
  -- marked red, then the indicator that `derive` gives is not exportable.
  pub derive_red :
      (lt : F → F → Bool) (r d : Indicator F) (now : ℕ)
      → any (λ (p : Provenance F). marked_red p.tlp) r.provenance ≡ true
      → derive lt r now ≡ some d
      → is_exportable d ≡ false
  unfolding derive
  derive_red lt r d now h p =
      go (best_provenance lt r.provenance (latest r.expiry 0 r.provenance) now) p
    where
      go :
          (o : Option (Provenance F))
          → with_winner now r (latest r.expiry 0 r.provenance) o ≡ some d
          → is_exportable d ≡ false
      go none q = absurd cc
      go (some winner) q =
          subst (λ (x : Indicator F). is_exportable x ≡ false) (inj_some q)
            (derived-red now r (latest r.expiry 0 r.provenance) winner h)
