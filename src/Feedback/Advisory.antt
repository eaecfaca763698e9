-- ===== src/Feedback/Advisory.antt =====
-- services/feedback-service/router.py: a verdict alone suppresses nothing.
use cernityndr.Base.{
  ℕ, String, ◌≡◌, refl, inl, inr, Bool, false, Option, List, [], ◌∷◌, ◌++◌, Result, ok, err, arith,
  string_eq, any, Bool-cases,
}
use cernityndr.Feedback.{
  RouterError, Identity, Disposition, Suggestion, Router, Ids, ignore_entry_suppresses, suggestion,
  accept, consume, authenticate,
}

-- Some entry of the table suppresses.
abbrev pub suppressing : String → String → ℕ → List Suggestion → Bool
suppressing tenant entity now entries =
    any (λ (x : Suggestion). ignore_entry_suppresses x tenant entity now) entries

suggestion-suppresses :
    (ttl : ℕ) (ids : Ids) (at : ℕ) (d : Disposition) (who : Identity) (tenant entity : String)
    (now : ℕ)
    → ignore_entry_suppresses (suggestion ttl ids at d who) tenant entity now ≡ false
unfolding ignore_entry_suppresses suggestion
suggestion-suppresses ttl ids at d who tenant entity now = ground arith

any-append_last :
    {A : Type 0} (p : A → Bool) (xs : List A) (x : A)
    → p x ≡ false
    → any p (xs ++ x ∷ []) ≡ any p xs
any-append_last p [] x h = ground arith
any-append_last p (y ∷ ys) x h = ground (arith, any-append_last p ys x)

accept_advisory :
    (valid : Disposition → Bool) (s : Router) (ids : Ids) (at : ℕ) (ip : String) (d : Disposition)
    (r : Result RouterError Identity) (tenant entity : String) (now : ℕ)
    → suppressing tenant entity now (accept valid s ids at ip d r).1.feedback
      ≡ suppressing tenant entity now s.feedback
unfolding accept
accept_advisory valid s ids at ip d (err x) tenant entity now = refl
accept_advisory valid s ids at ip d (ok who) tenant entity now = elim (Bool-cases (valid d)) [
  | inr h ↦ rw h refl
  | inl h ↦ rw h (
      any-append_last (λ (x : Suggestion). ignore_entry_suppresses x tenant entity now) s.feedback
        (suggestion s.ttl ids at d who)
        (suggestion-suppresses s.ttl ids at d who tenant entity now))
]

-- Whatever verdict a caller sends, an allowlist verdict too, the entries that the router then holds
-- suppress at any time the tenants and entities that they suppressed before, and no other.
pub consume_advisory :
    (valid : Disposition → Bool) (s : Router) (ids : Ids) (at : ℕ) (ip : String)
    (token : Option String) (d : Disposition) (tenant entity : String) (now : ℕ)
    → suppressing tenant entity now (consume valid s ids at ip token d).1.feedback
      ≡ suppressing tenant entity now s.feedback
unfolding consume
consume_advisory valid s ids at ip token d tenant entity now =
    accept_advisory valid s ids at ip d (authenticate s.tokens token at) tenant entity now
