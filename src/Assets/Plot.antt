-- ===== src/Assets/Plot.antt =====
-- services/asset-service/resolution.py: the interval cache of an address against `owner_at`.
use cernityndr.Base.{
  ℕ, String, ◌≡◌, refl, ap, ◌∙◌, Bool, true, false, not, ◌&&◌, Option, none, some, List, [], ◌∷◌,
  ◌++◌, arith, ltb, leb, nat_eq, if◌then◌else◌, ◌==◌, string_eq, all,
}
use cernityndr.Assets.{
  Lease, Interval, put_winner, winners_from, insert_start, by_start, first_start, lease_end,
  is_before, owner_from, insert_bound, sorted_set, starts, earliest,
}

-- The interval says that `mac` owns the address at `t`.
abbrev pub holds : String → ℕ → Interval → Bool
holds mac t iv = iv.mac == mac && leb iv.valid_from t && is_before t iv.valid_to

abbrev pub is_owner : String → Option String → Bool
is_owner mac none = false
is_owner mac (some m) = m == mac

-- No boundary `x` lies after `b` and not after `t`.
unfoldable pub clear : ℕ → ℕ → ℕ → Bool
clear b t x = not (ltb b x && leb x t)

unfoldable pub clear_opt : ℕ → ℕ → Option ℕ → Bool
unfolding clear
clear_opt b t none = true
clear_opt b t (some x) = clear b t x

unfoldable pub clear_lease : ℕ → ℕ → Lease → Bool
unfolding clear clear_opt
clear_lease b t c = clear b t c.valid_from && clear_opt b t c.expires

lease_end-clear :
    (b t : ℕ) (c : Lease) (next : Option ℕ)
    → leb b t ≡ true
    → clear_opt b t c.expires ≡ true
    → clear_opt b t next ≡ true
    → is_before t (lease_end c next) ≡ is_before b (lease_end c next)
unfolding lease_end clear clear_opt
lease_end-clear b t c next h p q = go next c.expires p q
  where
    go :
        (n e : Option ℕ)
        → clear_opt b t e ≡ true
        → clear_opt b t n ≡ true
        → is_before t (earliest n e) ≡ is_before b (earliest n e)
    go none none p q = refl
    go none (some e) p q = ground arith
    go (some n) none p q = ground arith
    go (some n) (some e) p q = ground arith

first_start-clear :
    (b t : ℕ) (cs : List Lease)
    → all (clear_lease b t) cs ≡ true
    → clear_opt b t (first_start cs) ≡ true
unfolding clear_lease clear_opt
first_start-clear b t [] q = refl
first_start-clear b t (d ∷ ds) q = ground arith

-- Between two boundaries the owner is one and the same.
pub owner_from-clear :
    (b t : ℕ) (cs : List Lease)
    → leb b t ≡ true
    → all (clear_lease b t) cs ≡ true
    → owner_from cs t ≡ owner_from cs b
unfolding owner_from clear clear_lease
owner_from-clear b t [] h p = refl
owner_from-clear b t (c ∷ cs) h p =
    let q : all (clear_lease b t) cs ≡ true = ground arith in
    let ends =
      lease_end-clear b t c (first_start cs) h (ground arith) (first_start-clear b t cs q) in
    ground (arith, owner_from-clear b t cs h q)

pub owner_from-early :
    (t : ℕ) (cs : List Lease) → all (ltb t) (starts cs) ≡ true → owner_from cs t ≡ none
unfolding owner_from
owner_from-early t [] h = refl
owner_from-early t (c ∷ cs) h = ground (arith, owner_from-early t cs)

-- What holds of all leases holds of the winners.
module _ (P : Lease → Bool) where
  all-put_winner :
      (c : Lease) (ws : List Lease) → P c ≡ true → all P ws ≡ true → all P (put_winner c ws) ≡ true
  unfolding put_winner
  all-put_winner c [] h k = ground arith
  all-put_winner c (w ∷ ws) h k = ground (arith, all-put_winner c ws)

  pub all-winners_from :
      (won cs : List Lease)
      → all P won ≡ true
      → all P cs ≡ true
      → all P (winners_from won cs) ≡ true
  unfolding winners_from
  all-winners_from won [] h k = h
  all-winners_from won (c ∷ cs) h k =
      all-winners_from (put_winner c won) cs (all-put_winner c won (ground arith) h) (ground arith)

  all-insert_start : (c : Lease) (ws : List Lease) → all P (insert_start c ws) ≡ (P c && all P ws)
  unfolding insert_start
  all-insert_start c [] = refl
  all-insert_start c (w ∷ ws) = ground (arith, all-insert_start c ws)

  pub all-by_start : (ws : List Lease) → all P (by_start ws) ≡ all P ws
  unfolding by_start
  all-by_start [] = refl
  all-by_start (w ∷ ws) = all-insert_start w (by_start ws) ∙ ap (λ b. P w && b) (all-by_start ws)

-- What holds of all boundaries holds of the starts and expiries, and the other way round.
module _ (K : ℕ → Bool) where
  all-insert_bound : (x : ℕ) (ys : List ℕ) → all K (insert_bound x ys) ≡ (K x && all K ys)
  unfolding insert_bound
  all-insert_bound x [] = refl
  all-insert_bound x (y ∷ ys) =
      go (ltb x y) refl (nat_eq x y) (all-insert_bound x ys) (λ q. ap K (nat_eq_path x y q))
    where
      nat_eq_path : (a b : ℕ) → nat_eq a b ≡ true → a ≡ b
      nat_eq_path a b q = ground arith

      go :
          (l : Bool)
          → ltb x y ≡ l
          → (e : Bool) → all K (insert_bound x ys) ≡ (K x && all K ys)
          → (e ≡ true → K x ≡ K y)
          → all K (if l then x ∷ y ∷ ys else if e then y ∷ ys else y ∷ insert_bound x ys)
            ≡ (K x && (K y && all K ys))
      go true p e ih s = refl
      go false p true ih s = let q = s refl in ground arith
      go false p false ih s = ground arith

  pub all-sorted_set : (xs : List ℕ) → all K (sorted_set xs) ≡ all K xs
  unfolding sorted_set
  all-sorted_set [] = refl
  all-sorted_set (x ∷ xs) =
      all-insert_bound x (sorted_set xs) ∙ ap (λ b. K x && b) (all-sorted_set xs)

  pub all-append : (xs ys : List ℕ) → all K (xs ++ ys) ≡ (all K xs && all K ys)
  all-append [] ys = refl
  all-append (x ∷ xs) ys = ground (arith, all-append xs ys)

-- Each boundary is smaller than all that follow.
unfoldable pub is_rising : List ℕ → Bool
is_rising [] = true
is_rising (x ∷ xs) = all (ltb x) xs && is_rising xs

pub ltb-all :
    (x y : ℕ) (zs : List ℕ) → ltb x y ≡ true → all (ltb y) zs ≡ true → all (ltb x) zs ≡ true
ltb-all x y [] h k = refl
ltb-all x y (z ∷ zs) h k = ground (arith, ltb-all x y zs)

is_rising-insert_bound :
    (x : ℕ) (ys : List ℕ) → is_rising ys ≡ true → is_rising (insert_bound x ys) ≡ true
unfolding insert_bound is_rising
is_rising-insert_bound x [] h = refl
is_rising-insert_bound x (y ∷ ys) h =
    ground (arith, is_rising-insert_bound x ys, ltb-all x y ys, all-insert_bound (ltb y) x ys)

pub is_rising-sorted_set : (xs : List ℕ) → is_rising (sorted_set xs) ≡ true
unfolding sorted_set is_rising
is_rising-sorted_set [] = refl
is_rising-sorted_set (x ∷ xs) = is_rising-insert_bound x (sorted_set xs) (is_rising-sorted_set xs)
