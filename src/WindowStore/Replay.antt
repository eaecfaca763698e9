-- ===== src/WindowStore/Replay.antt =====
-- shared/store.py: `field_set` of a batch of writes that is delivered again.
use cernityndr.Base.{
  ℕ, String, ◌≡◌, refl, sym, ap, ◌∙◌, inl, inr, Bool, true, false, not, ◌||◌, Option, none, some,
  List, [], ◌∷◌, ◌+◌, map, keep, all, arith, ltb, ◌==◌, string_eq, eq_iff, same_refl, lookup,
  lookup-insert, insert, lookup-remove, Bool-cases, subst,
}
use cernityndr.WindowStore.Identities.{identities}
use cernityndr.WindowStore.Changes.{all_named, change_all, change_all-replay, lookup-identities}
use cernityndr.WindowStore.Fields.{
  Write, fields_of-field_set, field_set-exp, fresh-alive, fields_get-alive,
}
use cernityndr.WindowStore.{
  Num, Store, or_empty, is_later, refused_field, default_to, alive, fields_of, fresh, set_field,
  field_set, fields_get,
}

-- What the writes give to the fields of `key`, in order.
abbrev pub changes : {F : Type 0} → String → List (Write F) → List (String × F)
changes {F} key ws =
    map (λ (w : Write F). (w.field, w.value)) (keep (λ (w : Write F). w.key == key) ws)

-- The writes to `key` come before `end`.
abbrev pub in_window : {F : Type 0} → String → ℕ → List (Write F) → Bool
in_window {F} key end ws = all (λ (w : Write F). not (w.key == key) || ltb w.now end) ws

module _ {F : Type 0} (n : Num F) (cap : Option ℕ) where
  unfoldable pub write_all : Store F → List (Write F) → Store F
  unfolding field_set
  write_all st [] = st
  write_all st (w ∷ ws) = write_all (field_set n w.key w.field w.value w.ttl cap w.now st) ws

  field_set-within :
      (w : Write F) (end : ℕ) (st : Store F)
      → lookup w.key st.exp ≡ some end
      → ltb w.now end ≡ true
      → (fields_of n w.key (field_set n w.key w.field w.value w.ttl cap w.now st)
          ≡ set_field n cap w.field w.value (fields_of n w.key st))
        × (lookup w.key (field_set n w.key w.field w.value w.ttl cap w.now st).exp ≡ some end)
  unfolding alive
  field_set-within w end st ends soon =
      let same = fresh-alive n w.key w.now st (ap (is_later w.now) ends ∙ soon) in
      (
        fields_of-field_set n w.key w.field w.value w.ttl cap w.now st
            ∙ ap (λ (r : Store F). set_field n cap w.field w.value (fields_of n w.key r)) same,
        ap (lookup w.key) (field_set-exp n w.key w.field w.value w.ttl cap w.now end st same ends)
            ∙ ends,
      )

  field_set-here :
      (w : Write F) (key : String) (end : ℕ) (st : Store F)
      → (w.key == key) ≡ true
      → lookup key st.exp ≡ some end
      → ltb w.now end ≡ true
      → (fields_of n key (field_set n w.key w.field w.value w.ttl cap w.now st)
          ≡ set_field n cap w.field w.value (fields_of n key st))
        × (lookup key (field_set n w.key w.field w.value w.ttl cap w.now st).exp ≡ some end)
  field_set-here w key end st here ends soon =
      let at = (eq_iff w.key key).0 here in
      subst
        (λ k.
          (fields_of n k (field_set n w.key w.field w.value w.ttl cap w.now st)
            ≡ set_field n cap w.field w.value (fields_of n k st))
          × (lookup k (field_set n w.key w.field w.value w.ttl cap w.now st).exp ≡ some end))
        at (field_set-within w end st (ap (λ k. lookup k st.exp) at ∙ ends) soon)

  fresh-elsewhere :
      (other key : String) (now : ℕ) (st : Store F)
      → (other == key) ≡ false
      → (lookup key (fresh n other now st).h ≡ lookup key st.h)
        × (lookup key (fresh n other now st).exp ≡ lookup key st.exp)
  unfolding fresh
  fresh-elsewhere other key now st apart = elim (Bool-cases (alive n other now st)) [
    | inl a ↦ rw a (refl, refl)
    | inr a ↦ rw a (
      lookup-remove other key st.h ∙ rw apart refl,
      lookup-remove other key st.exp ∙ rw apart refl,
    )
  ]

  default_to-elsewhere :
      (o : Option ℕ) (other key : String) (end : ℕ) (exp : List (String × ℕ))
      → (other == key) ≡ false
      → lookup key (default_to o other end exp) ≡ lookup key exp
  unfolding default_to
  default_to-elsewhere none other key end exp apart =
      lookup-insert other key end exp ∙ rw apart refl
  default_to-elsewhere (some e) other key end exp apart = refl

  field_set-elsewhere :
      (w : Write F) (key : String) (st : Store F)
      → (w.key == key) ≡ false
      → (fields_of n key (field_set n w.key w.field w.value w.ttl cap w.now st)
          ≡ fields_of n key st)
        × (lookup key (field_set n w.key w.field w.value w.ttl cap w.now st).exp
            ≡ lookup key st.exp)
  unfolding field_set fields_of
  field_set-elsewhere w key st apart =
      let st1 = fresh n w.key w.now st in
      let (same_h, same_exp) = fresh-elsewhere w.key key w.now st apart in
      let fields = set_field n cap w.field w.value (or_empty (lookup w.key st1.h)) in
      let kept : lookup key (insert w.key fields st1.h) ≡ lookup key st.h =
        lookup-insert w.key key fields st1.h ∙ rw apart same_h in
      (
        ap or_empty kept,
        default_to-elsewhere (lookup w.key st1.exp) w.key key (w.now + w.ttl) st1.exp apart
            ∙ same_exp,
      )

  write_all-within :
      (key : String) (end : ℕ) (st : Store F) (ws : List (Write F))
      → lookup key st.exp ≡ some end
      → in_window key end ws ≡ true
      → (fields_of n key (write_all st ws) ≡ change_all n cap (fields_of n key st) (changes key ws))
        × (lookup key (write_all st ws).exp ≡ some end)
  unfolding write_all change_all
  write_all-within key end st [] ends soon = (refl, ends)
  write_all-within key end st (w ∷ ws) ends soon =
      let next = field_set n w.key w.field w.value w.ttl cap w.now st in
      elim (Bool-cases (w.key == key)) [
        | inr apart ↦
            let (same, still) = field_set-elsewhere w key st apart in
            let (rest, end_same) =
              write_all-within key end next ws (still ∙ ends) (ground (arith, soon)) in
            rw apart (rest ∙ ap (λ t. change_all n cap t (changes key ws)) same, end_same)
        | inl here ↦
            let (one, still) = field_set-here w key end st here ends (ground (arith, soon, here)) in
            let (rest, end_same) = write_all-within key end next ws still (ground (arith, soon)) in
            rw here (rest ∙ ap (λ t. change_all n cap t (changes key ws)) one, end_same)
      ]

  read_by :
      (key field : String) (read : ℕ) (st st' : Store F)
      → lookup key st'.exp ≡ lookup key st.exp
      → lookup field (identities (fields_of n key st'))
        ≡ lookup field (identities (fields_of n key st))
      → lookup field (fields_get n key read st').0 ≡ lookup field (fields_get n key read st).0
  read_by key field read st st' exp fields =
      ap (lookup field) (fields_get-alive n key read st')
      ∙ elim (Bool-cases (is_later read (lookup key st.exp))) [
        | inl h ↦ rw exp (rw h fields)
        | inr h ↦ rw exp (rw h refl)
      ]
      ∙ sym (ap (lookup field) (fields_get-alive n key read st))

  -- The first write of a batch opens a window of its key, or meets one; `end` is when that window
  -- ends. Before `end` the other writes of the batch to the key come, and later the same fields and
  -- values are written to the key once more, in the same order. Writes to other keys may come
  -- anywhere between, all writes have one cap, and none to the key names the field of the refusals.
  -- Then the second delivery changes no field that `fields_get` returns for the key at any time,
  -- whichever of the writes the cap refused and however often the batch writes one field, and it
  -- does not move the end of the window.
  pub fields_get-replay :
      (w : Write F) (ws again : List (Write F)) (field : String) (end read : ℕ) (st : Store F)
      → lookup w.key (field_set n w.key w.field w.value w.ttl cap w.now st).exp ≡ some end
      → in_window w.key end ws ≡ true
      → in_window w.key end again ≡ true
      → changes w.key again ≡ changes w.key (w ∷ ws)
      → all_named (changes w.key (w ∷ ws)) ≡ true
      → let once = write_all st (w ∷ ws) in
        let twice = write_all once again in
        (lookup field (fields_get n w.key read twice).0
          ≡ lookup field (fields_get n w.key read once).0)
        × (lookup w.key twice.exp ≡ lookup w.key once.exp)
  unfolding write_all change_all
  fields_get-replay w ws again field end read st ends soon soon_again same named =
      let first = field_set n w.key w.field w.value w.ttl cap w.now st in
      let once = write_all first ws in
      let twice = write_all once again in
      let start = fields_of n w.key (fresh n w.key w.now st) in
      let whole : changes w.key (w ∷ ws) ≡ (w.field, w.value) ∷ changes w.key ws =
        rw (same_refl w.key) refl in
      let (run, still) = write_all-within w.key end first ws ends soon in
      let (run_again, still_again) = write_all-within w.key end once again still soon_again in
      let exp : lookup w.key twice.exp ≡ lookup w.key once.exp = still_again ∙ sym still in
      let cs = (w.field, w.value) ∷ changes w.key ws in
      let got : fields_of n w.key once ≡ change_all n cap start cs =
        run
        ∙ ap (λ t. change_all n cap t (changes w.key ws))
            (fields_of-field_set n w.key w.field w.value w.ttl cap w.now st) in
      let got_again : fields_of n w.key twice ≡ change_all n cap (change_all n cap start cs) cs =
        run_again
        ∙ ap (change_all n cap (fields_of n w.key once)) (same ∙ whole)
        ∙ ap (λ t. change_all n cap t cs) got in
      (
        read_by w.key field read once twice exp (
            lookup-identities field (fields_of n w.key twice)
            ∙ elim (Bool-cases (field == refused_field)) [
              | inl q ↦ rw q refl
              | inr q ↦ rw q (
                  ap (lookup field) got_again
                  ∙ change_all-replay n cap field start cs q (ap all_named (sym whole) ∙ named)
                  ∙ sym (ap (lookup field) got))
            ]
            ∙ sym (lookup-identities field (fields_of n w.key once))),
        exp,
      )
