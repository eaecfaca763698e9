-- ===== src/Assets.antt =====
-- services/asset-service/resolution.py: who owned an address, at which time. An instant is a number
-- of milliseconds since the epoch, as `_iso` writes it.
pub mod Plot
pub mod Extend
pub mod Exact
pub mod Cache
pub mod Gives
pub mod Rebuild
pub mod Examples
use cernityndr.Base.{
  ℕ, String, Bool, true, false, not, ◌&&◌, ◌||◌, Option, none, some, List, [], ◌∷◌, ◌++◌, map, ltb,
  leb, nat_eq, if◌then◌else◌, ◌==◌, string_eq, text_le, Table, lookup, insert, any,
}

-- A raw lease or ARP record of one address.
pub record Lease : Type 0 where
  pub mac : String
  pub valid_from : ℕ
  pub expires : Option ℕ
  pub obs_id : String
  pub src : String

pub record Interval : Type 0 where
  pub mac : String
  pub value : String
  pub valid_from : ℕ
  pub valid_to : Option ℕ
  pub evidence : Option Lease  -- `win[b]`, from which confidence, source and method are read

abbrev pub Bindings : Type 0
Bindings = Table (List Lease)

-- `_lease_id(c) < _lease_id(prev)`, on pairs
unfoldable pub lease_before : Lease → Lease → Bool
lease_before a b =
    not (text_le b.obs_id a.obs_id) || (a.obs_id == b.obs_id && not (text_le b.mac a.mac))

-- The dict of `_winning_by_start`: the key of a lease in it is its start.
unfoldable pub put_winner : Lease → List Lease → List Lease
unfolding lease_before
put_winner c [] = c ∷ []
put_winner c (w ∷ ws) =
    let more = put_winner c ws in
    if nat_eq w.valid_from c.valid_from then (if lease_before c w then c else w) ∷ ws else w ∷ more

unfoldable pub winners_from : List Lease → List Lease → List Lease
unfolding put_winner
winners_from won [] = won
winners_from won (c ∷ cs) = winners_from (put_winner c won) cs

unfoldable pub winning_by_start : List Lease → List Lease
unfolding winners_from
winning_by_start leases = winners_from [] leases

unfoldable pub insert_start : Lease → List Lease → List Lease
insert_start c [] = c ∷ []
insert_start c (w ∷ ws) =
    if leb c.valid_from w.valid_from then c ∷ w ∷ ws else w ∷ insert_start c ws

-- The winners in the order of `sorted(win)`.
unfoldable pub by_start : List Lease → List Lease
unfolding insert_start
by_start [] = []
by_start (c ∷ cs) = insert_start c (by_start cs)

abbrev pub first_start : List Lease → Option ℕ
first_start [] = none
first_start (c ∷ cs) = some c.valid_from

abbrev pub earliest : Option ℕ → Option ℕ → Option ℕ
earliest none b = b
earliest (some a) none = some a
earliest (some a) (some b) = some (if ltb b a then b else a)

-- `next` is the start that follows.
unfoldable pub lease_end : Lease → Option ℕ → Option ℕ
lease_end c next = earliest next c.expires

-- `end is None or t < end`
abbrev pub is_before : ℕ → Option ℕ → Bool
is_before t none = true
is_before t (some e) = ltb t e

-- The loop of `owner_at`, over the winners in order.
unfoldable pub owner_from : List Lease → ℕ → Option String
unfolding lease_end
owner_from [] t = none
owner_from (c ∷ cs) t =
    let rest = owner_from cs t in
    if leb c.valid_from t && is_before t (lease_end c (first_start cs)) then some c.mac else rest

unfoldable pub owner_at : List Lease → ℕ → Option String
unfolding owner_from by_start winning_by_start
owner_at leases t = owner_from (by_start (winning_by_start leases)) t

-- A sorted set of instants.
unfoldable pub insert_bound : ℕ → List ℕ → List ℕ
insert_bound x [] = x ∷ []
insert_bound x (y ∷ ys) =
    let more = insert_bound x ys in
    if ltb x y then x ∷ y ∷ ys else if nat_eq x y then y ∷ ys else y ∷ more

unfoldable pub sorted_set : List ℕ → List ℕ
unfolding insert_bound
sorted_set [] = []
sorted_set (x ∷ xs) = insert_bound x (sorted_set xs)

abbrev pub starts : List Lease → List ℕ
starts cs = map (λ (c : Lease). c.valid_from) cs

abbrev pub expiry_of : Option ℕ → List ℕ → List ℕ
expiry_of none rest = rest
expiry_of (some e) rest = e ∷ rest

unfoldable pub expiries : List Lease → List ℕ
expiries [] = []
expiries (c ∷ cs) = expiry_of c.expires (expiries cs)

unfoldable pub boundaries : List Lease → List ℕ
unfolding sorted_set winning_by_start expiries
boundaries leases = sorted_set (starts (winning_by_start leases) ++ expiries leases)

-- `win[b]`
unfoldable pub winner_at : ℕ → List Lease → Option Lease
winner_at b [] = none
winner_at b (w ∷ ws) = if nat_eq w.valid_from b then some w else winner_at b ws

abbrev pub ends_at : Option ℕ → ℕ → Bool
ends_at none b = false
ends_at (some e) b = nat_eq e b

-- One boundary `b`, followed by `next`; the newest interval stands first.
unfoldable pub extend :
    String → List Lease → ℕ → Option ℕ → Option String → List Interval → List Interval
unfolding winner_at
extend ip win b next none done = done
extend ip win b next (some mac) [] =
    record { mac = mac; value = ip; valid_from = b; valid_to = next; evidence = winner_at b win }
    ∷ []
extend ip win b next (some mac) (last ∷ done) =
    if last.mac == mac && ends_at last.valid_to b
    then record last { valid_to = next } ∷ done
    else record {
      mac = mac;
      value = ip;
      valid_from = b;
      valid_to = next;
      evidence = winner_at b win;
    }
      ∷ last
      ∷ done

abbrev pub first_bound : List ℕ → Option ℕ
first_bound [] = none
first_bound (b ∷ bs) = some b

-- The loop of `ownership_intervals` over the boundaries that remain.
unfoldable pub plot : String → List Lease → List Lease → List ℕ → List Interval → List Interval
unfolding extend owner_at
plot ip win leases [] done = done
plot ip win leases (b ∷ bs) done =
    plot ip win leases bs (extend ip win b (first_bound bs) (owner_at leases b) done)

abbrev pub oldest_first : List Interval → List Interval → List Interval
oldest_first [] out = out
oldest_first (iv ∷ done) out = oldest_first done (iv ∷ out)

unfoldable pub ownership_intervals : String → List Lease → List Interval
unfolding plot winning_by_start boundaries
ownership_intervals ip leases =
    oldest_first (plot ip (winning_by_start leases) leases (boundaries leases) []) []

abbrev pub or_no_leases : Option (List Lease) → List Lease
or_no_leases none = []
or_no_leases (some leases) = leases

unfoldable pub resolve_mac : Bindings → String → ℕ → Option String
unfolding owner_at lookup
resolve_mac bindings ip t = owner_at (or_no_leases (lookup ip bindings)) t

abbrev pub same_record : Lease → Lease → Bool
same_record a b = a.mac == b.mac && nat_eq a.valid_from b.valid_from && a.obs_id == b.obs_id

-- `b` has its mac in lower case already.
unfoldable pub record_binding : Bindings → String → Lease → Bindings
unfolding lookup insert
record_binding bindings ip b =
    let leases = or_no_leases (lookup ip bindings) in
    if any (λ (x : Lease). same_record x b) leases
    then insert ip leases bindings
    else insert ip (leases ++ b ∷ []) bindings
