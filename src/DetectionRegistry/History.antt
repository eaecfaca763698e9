-- ===== src/DetectionRegistry/History.antt =====
-- services/detection-registry/store.py: what a call answers, and that histories only grow.

use cernityndr.Base.{
  String, ◌≡◌, refl, sym, ap, ◌∙◌, subst, inl, inr, Bool, true, false, Option, none, some, List, [],
  ◌∷◌, ◌++◌, Result, ok, err, arith, eq_iff, if◌then◌else◌, ◌==◌, string_eq, Bool-cases, contains,
  lookup, not, insert, lookup-insert, take, length, same_list, same_list-take,
}
use cernityndr.DetectionRegistry.{
  HistoryRecord, record_eq, Entry, RegistryError, Registry, Checks, Answer, validate, after, create,
  place, unauthorized, replace, update, promote_entry, promote, moved, transitions, is_actor,
}

-- `new` has the history of `old`, with records added at its end.
pub Appends : Entry → Entry → Type 0
Appends old new = (more : List HistoryRecord) × (new.change_history ≡ old.change_history ++ more)

append_nil : {A : Type 0} (xs : List A) → xs ++ [] ≡ xs
append_nil [] = refl
append_nil (x ∷ xs) = ap (◌∷◌ x) (append_nil xs)

append_assoc : {A : Type 0} (xs ys zs : List A) → (xs ++ ys) ++ zs ≡ xs ++ (ys ++ zs)
append_assoc [] ys zs = refl
append_assoc (x ∷ xs) ys zs = ap (◌∷◌ x) (append_assoc xs ys zs)

pub Appends-refl : (e : Entry) → Appends e e
unfolding Appends
Appends-refl e = ([], sym (append_nil e.change_history))

pub Appends-trans : (a b c : Entry) → Appends a b → Appends b c → Appends a c
unfolding Appends
Appends-trans a b c (m, p) (n, q) =
    (m ++ n, q ∙ ap (λ h. h ++ n) p ∙ append_assoc a.change_history m n)

-- Each entry of `s` is in `t`, its history extended at most.
pub HistoryKept : Registry → Registry → Type 0
HistoryKept s t =
    (id : String) (e : Entry)
    → lookup id s ≡ some e
    → (f : Entry) × (lookup id t ≡ some f) × Appends e f

pub HistoryKept-refl : (s : Registry) → HistoryKept s s
unfolding HistoryKept
HistoryKept-refl s id e h = (e, h, Appends-refl e)

pub HistoryKept-trans : (s t u : Registry) → HistoryKept s t → HistoryKept t u → HistoryKept s u
unfolding HistoryKept
HistoryKept-trans s t u h k id e p =
    let (f, q, x) = h id e p in let (g, r, y) = k id f q in (g, r, Appends-trans e f g x y)

-- An insertion that extends what stands under its key.
HistoryKept-insert :
    (s : Registry) (key : String) (new : Entry)
    → ((old : Entry) → lookup key s ≡ some old → Appends old new)
    → HistoryKept s (insert key new s)
unfolding HistoryKept
HistoryKept-insert s key new h id e p = elim (Bool-cases (key == id)) [
  | inl q ↦ (
    new,
    ground (arith, lookup-insert key id new s),
    h e (subst (λ i. lookup i s ≡ some e) (sym ((eq_iff key id).0 q)) p),
  )
  | inr q ↦ (e, ground (arith, lookup-insert key id new s), Appends-refl e)
]

after-HistoryKept :
    (s : Registry) (r : Result RegistryError (Unit {0})) (next : Answer Entry)
    → HistoryKept s next.1
    → HistoryKept s (after s r next).1
after-HistoryKept s (ok u) next h = h
after-HistoryKept s (err e) next h = HistoryKept-refl s

none-some_absurd : {A : Type 0} {x : A} → none ≡ some x → ⊥
none-some_absurd h = cc

some_inj_eq : {A : Type 0} {x y : A} → some x ≡ some y → x ≡ y
some_inj_eq h = cc

place-HistoryKept :
    (s : Registry) (entry : Entry) (prior : Option Entry)
    → lookup entry.detection_id s ≡ prior
    → HistoryKept s (place s entry prior).1
unfolding place
place-HistoryKept s entry (some prior) p = HistoryKept-refl s
place-HistoryKept s entry none p =
    HistoryKept-insert s entry.detection_id entry (λ old q. absurd (none-some_absurd (sym p ∙ q)))

replace-HistoryKept :
    (s : Registry) (entry : Entry) (prior : Option Entry)
    → lookup entry.detection_id s ≡ prior
    → HistoryKept s (replace s entry prior).1
unfolding replace Appends
replace-HistoryKept s entry none p = HistoryKept-refl s
replace-HistoryKept s entry (some prior) p =
    elim (Bool-cases
      (same_list (take (length prior.change_history) entry.change_history) prior.change_history)) [
        | inl h ↦ rw h (
            HistoryKept-insert s entry.detection_id entry (λ old q.
              subst (λ o. Appends o entry) (some_inj_eq (sym p ∙ q))
                (same_list-take entry.change_history prior.change_history h)))
        | inr h ↦ rw h (HistoryKept-refl s)
      ]

create-HistoryKept :
    (k : Checks) (s : Registry) (entry : Entry) → HistoryKept s (create k s entry).1
unfolding create
create-HistoryKept k s entry =
    after-HistoryKept s (validate k entry) (place s entry (lookup entry.detection_id s))
      (place-HistoryKept s entry (lookup entry.detection_id s) refl)

update-HistoryKept :
    (k : Checks) (s : Registry) (entry : Entry) → HistoryKept s (update k s entry).1
unfolding update
update-HistoryKept k s entry =
    after-HistoryKept s (validate k entry) (replace s entry (lookup entry.detection_id s))
      (replace-HistoryKept s entry (lookup entry.detection_id s) refl)

promote_entry-HistoryKept :
    (k : Checks) (s : Registry) (id to actor ts : String) (o : Option Entry)
    → HistoryKept s (promote_entry k s id to actor ts o).1
unfolding promote_entry
promote_entry-HistoryKept k s id to actor ts none = HistoryKept-refl s
promote_entry-HistoryKept k s id to actor ts (some entry) =
    elim (Bool-cases (contains (transitions entry.status) to)) [
      | inl h ↦ rw h (update-HistoryKept k s (moved entry to actor ts))
      | inr h ↦ rw h (HistoryKept-refl s)
    ]

guard-HistoryKept :
    (b : Bool) (s : Registry) (x : RegistryError) (next : Answer Entry)
    → HistoryKept s next.1
    → HistoryKept s (if b then (err x, s) else next).1
guard-HistoryKept true s x next h = HistoryKept-refl s
guard-HistoryKept false s x next h = h

promote-HistoryKept :
    (k : Checks) (authorize : String → Bool) (s : Registry) (id to actor ts : String)
    → HistoryKept s (promote k authorize s id to actor ts).1
unfolding promote
promote-HistoryKept k authorize s id to actor ts =
    let next = promote_entry k s id to actor ts (lookup id s) in
    guard-HistoryKept (not (is_actor actor)) s unauthorized _ (
      guard-HistoryKept (not (authorize actor)) s unauthorized next
        (promote_entry-HistoryKept k s id to actor ts (lookup id s)))

-- A call that writes, short of `delete`.
pub data Call : Type 0 where
  creation : Entry → Call
  change : Entry → Call
  promotion : (id to actor ts : String) → Call

abbrev pub execute : Checks → (String → Bool) → Registry → Call → Registry
execute k authorize s (creation entry) = (create k s entry).1
execute k authorize s (change entry) = (update k s entry).1
execute k authorize s (promotion id to actor ts) = (promote k authorize s id to actor ts).1

abbrev pub execute_all : Checks → (String → Bool) → Registry → List Call → Registry
execute_all k authorize s [] = s
execute_all k authorize s (call ∷ calls) =
    execute_all k authorize (execute k authorize s call) calls

execute-HistoryKept :
    (k : Checks) (authorize : String → Bool) (s : Registry) (call : Call)
    → HistoryKept s (execute k authorize s call)
execute-HistoryKept k authorize s (creation entry) = create-HistoryKept k s entry
execute-HistoryKept k authorize s (change entry) = update-HistoryKept k s entry
execute-HistoryKept k authorize s (promotion id to actor ts) =
    promote-HistoryKept k authorize s id to actor ts

-- Whatever creations, updates and promotions follow, each accepted or refused, an entry stays in
-- the registry and its change history is the one it had, with records added at its end.
pub execute_all-HistoryKept :
    (k : Checks) (authorize : String → Bool) (s : Registry) (calls : List Call)
    → HistoryKept s (execute_all k authorize s calls)
execute_all-HistoryKept k authorize s [] = HistoryKept-refl s
execute_all-HistoryKept k authorize s (call ∷ calls) =
    HistoryKept-trans s (execute k authorize s call) (execute_all k authorize s (call ∷ calls))
      (execute-HistoryKept k authorize s call)
      (execute_all-HistoryKept k authorize (execute k authorize s call) calls)
