-- ===== src/DetectionRegistry/Promotion.antt =====
-- services/detection-registry/lifecycle.py: what a promotion does, and the trail a run of them leaves.
use cernityndr.Base.{
  String, string_eq, ◌≢◌, ◌≡◌, refl, ap, ◌∙◌, inl, inr, Bool, true, Option, none, some, [], ◌∷◌, ok,
  err, Bool-cases, contains, lookup, insert, take-same_list,
}
use cernityndr.DetectionRegistry.{
  record_eq, Entry, history_rewritten, Registry, Checks, Answer, validate, after, replace, update,
  promote_entry, promote, moved, transitions, is_actor,
}

-- What the promotion of `id` to `to` may answer.
pub Promoted :
    Checks → (String → Bool) → Registry → String → String → String → String → Answer Entry → Type 0
unfolding contains
Promoted k authorize s id to actor ts (ok e, t) =
    (old : Entry) × (lookup id s ≡ some old)
    × (is_actor actor ≡ true)
    × (authorize actor ≡ true)
    × (contains (transitions old.status) to ≡ true)
    × (k.valid e ≡ true)
    × (k.resolves e.manifest_ref ≡ true)
    × (e ≡ moved old to actor ts)
    × (t ≡ insert old.detection_id e s)
Promoted k authorize s id to actor ts (err x, t) = (t ≡ s) × (x ≢ history_rewritten)

-- A history with a record added passes the check of `replace`.
replace-moved :
    (s : Registry) (old : Entry) (to actor ts : String)
    → replace s (moved old to actor ts) (some old)
      ≡ (ok (moved old to actor ts), insert old.detection_id (moved old to actor ts) s)
unfolding replace
replace-moved s old to actor ts =
    rw
      (take-same_list old.change_history
        (record { ts = ts; actor = actor; was = old.status; now = to } ∷ []))
      refl

-- `update` of the moved entry.
update-moved :
    (k : Checks) (s : Registry) (old : Entry) (to actor ts : String)
    → lookup old.detection_id s ≡ some old
    → update k s (moved old to actor ts)
      ≡ after s
          (validate k (moved old to actor ts))
          (ok (moved old to actor ts), insert old.detection_id (moved old to actor ts) s)
unfolding update
update-moved k s old to actor ts p = rw p (rw (replace-moved s old to actor ts) refl)

module _ (k : Checks) (authorize : String → Bool) (s : Registry) (id to actor ts : String) where
  after-Promoted :
      (old : Entry)
      → lookup id s ≡ some old
      → is_actor actor ≡ true
      → authorize actor ≡ true
      → contains (transitions old.status) to ≡ true
      → Promoted k authorize s id to actor ts (
          after s
            (validate k (moved old to actor ts))
            (ok (moved old to actor ts), insert old.detection_id (moved old to actor ts) s))
  unfolding Promoted validate
  after-Promoted old p a b c = elim (Bool-cases (k.valid (moved old to actor ts))) [
    | inr v ↦ rw v (refl, λ h. cc)
    | inl v ↦ rw v (elim (Bool-cases (k.resolves old.manifest_ref)) [
      | inr w ↦ rw w (refl, λ h. cc)
      | inl w ↦ rw w (old, p, a, b, c, v, w, refl, refl)
    ])
  ]

  promote_entry-Promoted :
      ((old : Entry) → lookup id s ≡ some old → old.detection_id ≡ id)
      → is_actor actor ≡ true
      → authorize actor ≡ true
      → (o : Option Entry) → lookup id s ≡ o
      → Promoted k authorize s id to actor ts (promote_entry k s id to actor ts o)
  unfolding promote_entry Promoted
  promote_entry-Promoted keyed a b none p = (refl, λ h. cc)
  promote_entry-Promoted keyed a b (some old) p =
      elim (Bool-cases (contains (transitions old.status) to)) [
        | inr c ↦ rw c (refl, λ h. cc)
        | inl c ↦ rw c (
            rw (update-moved k s old to actor ts (ap (λ i. lookup i s) (keyed old p) ∙ p))
              (after-Promoted old p a b c))
      ]

  -- In a registry whose rows stand under their own ids, a promotion either answers an error and
  -- changes nothing, never because a history was rewritten; or the actor is well-formed and
  -- authorized, the lifecycle lists the transition, the new entry is accepted by the schema, and
  -- the registry holds, under its id, the old entry with the new status and one history record.
  pub promote-Promoted :
      ((old : Entry) → lookup id s ≡ some old → old.detection_id ≡ id)
      → Promoted k authorize s id to actor ts (promote k authorize s id to actor ts)
  unfolding promote Promoted
  promote-Promoted keyed = elim (Bool-cases (is_actor actor)) [
    | inr a ↦ rw a (refl, λ h. cc)
    | inl a ↦ rw a (elim (Bool-cases (authorize actor)) [
      | inr b ↦ rw b (refl, λ h. cc)
      | inl b ↦ rw b (promote_entry-Promoted keyed a b (lookup id s) refl)
    ])
  ]
