-- ===== src/Assets/Exact.antt =====
-- services/asset-service/resolution.py: the interval cache says what `owner_at` says, at every time.
use cernityndr.Base.{
  ℕ, String, ◌≡◌, refl, sym, ap, ◌∙◌, inl, inr, Bool, true, false, ◌&&◌, ◌||◌, Option, none, some,
  List, [], ◌∷◌, ◌++◌, arith, ltb, leb, string_eq, any, all, Bool-cases,
}
use cernityndr.Assets.{
  Lease, Interval, winning_by_start, by_start, is_before, owner_at, starts, expiry_of, expiries,
  boundaries, first_bound, plot, oldest_first, ownership_intervals,
}
use cernityndr.Assets.Extend.{Plotted, Plotted-extend}
use cernityndr.Assets.Plot.{
  holds, is_owner, clear, clear_opt, clear_lease, owner_from-clear, owner_from-early,
  all-winners_from, all-by_start, all-sorted_set, all-append, is_rising, is_rising-sorted_set,
  ltb-all,
}

clear-starts :
    (b t : ℕ) (cs : List Lease)
    → all (clear b t) (starts cs) ≡ true
    → all (λ (c : Lease). clear_opt b t c.expires) cs ≡ true
    → all (clear_lease b t) cs ≡ true
unfolding clear_lease
clear-starts b t [] h k = refl
clear-starts b t (c ∷ cs) h k = ground (arith, clear-starts b t cs)

clear-expiries :
    (b t : ℕ) (cs : List Lease)
    → all (clear b t) (expiries cs) ≡ true
    → all (λ (c : Lease). clear_opt b t c.expires) cs ≡ true
unfolding expiries clear_opt
clear-expiries b t [] h = refl
clear-expiries b t (c ∷ cs) h = go c.expires (clear-expiries b t cs) h
  where
    go :
        (o : Option ℕ)
        → (all (clear b t) (expiries cs) ≡ true
            → all (λ (c : Lease). clear_opt b t c.expires) cs ≡ true)
        → all (clear b t) (expiry_of o (expiries cs)) ≡ true
        → (clear_opt b t o && all (λ (c : Lease). clear_opt b t c.expires) cs) ≡ true
    go none ih k = ih k
    go (some e) ih k = ground (arith, ih (ground arith))

first_bound-later :
    (b : ℕ) (bs : List ℕ) → all (ltb b) bs ≡ true → is_before b (first_bound bs) ≡ true
first_bound-later b [] h = refl
first_bound-later b (x ∷ bs) h = ground arith

all-clear :
    (b t : ℕ) (bs : List ℕ)
    → is_rising bs ≡ true
    → all (ltb b) bs ≡ true
    → is_before t (first_bound bs) ≡ true
    → all (clear b t) bs ≡ true
unfolding is_rising clear
all-clear b t [] r h k = refl
all-clear b t (x ∷ xs) r h k = ground (arith, beyond x xs (ground arith) (ground arith))
  where
    beyond :
        (x : ℕ) (xs : List ℕ) → ltb t x ≡ true → all (ltb x) xs ≡ true → all (clear b t) xs ≡ true
    beyond x [] p q = refl
    beyond x (y ∷ ys) p q = ground (arith, beyond x ys)

module _ (ip : String) (leases : List Lease) where
  -- Every start and expiry is in `bs` or smaller than all of `bs`.
  Left : List ℕ → Type 0
  Left bs =
      (K : ℕ → Bool)
      → ((x : ℕ) → is_before x (first_bound bs) ≡ true → K x ≡ true)
      → all K bs ≡ true
      → all K (starts (winning_by_start leases) ++ expiries leases) ≡ true

  -- From the events to the winners in order.
  events-clear :
      (b t : ℕ)
      → all (clear b t) (starts (winning_by_start leases) ++ expiries leases) ≡ true
      → all (clear_lease b t) (by_start (winning_by_start leases)) ≡ true
  unfolding winning_by_start
  events-clear b t h =
      let win = winning_by_start leases in
      let both = all-append (clear b t) (starts win) (expiries leases) in
      let ends =
        all-winners_from (λ (c : Lease). clear_opt b t c.expires) [] leases refl
          (clear-expiries b t leases (ground arith)) in
      all-by_start (clear_lease b t) win ∙ clear-starts b t win (ground arith) ends

  plot-Plotted :
      (bs : List ℕ) (done : List Interval)
      → is_rising bs ≡ true
      → Left bs
      → Plotted (owner_at leases) done (first_bound bs)
      → Plotted (owner_at leases) (plot ip (winning_by_start leases) leases bs done) none
  unfolding plot is_rising Left
  plot-Plotted [] done r l p = p
  plot-Plotted (b ∷ bs) done r l p =
      let later = first_bound-later b bs (ground arith) in
      plot-Plotted bs _ (ground arith)
        (λ K below rest.
          l K (λ x q. below x (passed x b (first_bound bs) q later))
            (ground (arith, below b later)))
        (Plotted-extend (owner_at leases) ip (winning_by_start leases) b (first_bound bs)
          (owner_at leases b) done later (λ t x y. same t x y) p)
    where
      passed :
          (x b : ℕ) (n : Option ℕ) → ltb x b ≡ true → is_before b n ≡ true → is_before x n ≡ true
      passed x b none h k = refl
      passed x b (some n) h k = ground arith

      same :
          (t : ℕ)
          → leb b t ≡ true
          → is_before t (first_bound bs) ≡ true
          → owner_at leases t ≡ owner_at leases b
      same t x y =
          unfold owner_at in
          owner_from-clear b t (by_start (winning_by_start leases)) x (
            events-clear b t (
              l (clear b t) (λ z q. unfold clear in ground arith)
                (unfold clear in ground (arith, all-clear b t bs (ground arith) (ground arith) y))))

or_false : (b : Bool) → (b || false) ≡ b
or_false true = refl
or_false false = refl

any-oldest_first :
    (p : Interval → Bool) (done out : List Interval)
    → any p (oldest_first done out) ≡ (any p done || any p out)
any-oldest_first p [] out = refl
any-oldest_first p (iv ∷ done) out = any-oldest_first p done (iv ∷ out) ∙ ground arith

all-starts :
    (K : ℕ → Bool) (cs : List Lease) → all K (starts cs) ≡ all (λ (c : Lease). K c.valid_from) cs
all-starts K [] = refl
all-starts K (c ∷ cs) = ap (λ b. K c.valid_from && b) (all-starts K cs)

all-above :
    (t : ℕ) (bs : List ℕ)
    → is_rising bs ≡ true
    → is_before t (first_bound bs) ≡ true
    → all (ltb t) bs ≡ true
unfolding is_rising
all-above t [] r h = refl
all-above t (b ∷ bs) r h = ground (arith, ltb-all t b bs)

module _ (ip : String) (leases : List Lease) where
  boundaries-all :
      (K : ℕ → Bool)
      → all K (boundaries leases) ≡ true
      → all K (starts (winning_by_start leases) ++ expiries leases) ≡ true
  unfolding boundaries
  boundaries-all K h =
      sym (all-sorted_set K (starts (winning_by_start leases) ++ expiries leases)) ∙ h

  boundaries-Left : Left ip leases (boundaries leases)
  unfolding Left
  boundaries-Left K below h = boundaries-all K h

  before_all :
      (t : ℕ) → is_before t (first_bound (boundaries leases)) ≡ true → owner_at leases t ≡ none
  unfolding owner_at
  before_all t h =
      let win = winning_by_start leases in
      let rising : is_rising (boundaries leases) ≡ true =
        unfold boundaries in is_rising-sorted_set (starts win ++ expiries leases) in
      let above = boundaries-all (ltb t) (all-above t (boundaries leases) rising h) in
      let both = all-append (ltb t) (starts win) (expiries leases) in
      owner_from-early t (by_start win) (
        all-starts (ltb t) (by_start win)
        ∙ all-by_start (λ (c : Lease). ltb t c.valid_from) win
        ∙ sym (all-starts (ltb t) win)
        ∙ ground arith)

  nothing-Plotted : Plotted (owner_at leases) [] (first_bound (boundaries leases))
  unfolding Plotted
  nothing-Plotted = (
    λ mac t. elim (Bool-cases (is_before t (first_bound (boundaries leases)))) [
      | inr h ↦ rw h refl
      | inl h ↦ rw h (rw (before_all t h) refl)
    ],
    refl,
  )

  -- The interval cache is exact: whatever leases an address has had, in whatever order they came,
  -- and at whatever time, an interval gives the address to a mac then if and only if `owner_at`,
  -- the oracle of live attribution, does.
  pub ownership_intervals_exact :
      (mac : String) (t : ℕ)
      → any (holds mac t) (ownership_intervals ip leases) ≡ is_owner mac (owner_at leases t)
  unfolding ownership_intervals Plotted
  ownership_intervals_exact mac t =
      let done = plot ip (winning_by_start leases) leases (boundaries leases) [] in
      let rising : is_rising (boundaries leases) ≡ true =
        unfold boundaries in
        is_rising-sorted_set (starts (winning_by_start leases) ++ expiries leases) in
      let plotted =
        plot-Plotted ip leases (boundaries leases) [] rising boundaries-Left nothing-Plotted in
      any-oldest_first (holds mac t) done [] ∙ or_false _ ∙ plotted.0 mac t
