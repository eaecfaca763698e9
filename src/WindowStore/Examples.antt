-- ===== src/WindowStore/Examples.antt =====
-- A store over numbers: two flows under a cap of one, a counter, a key with a value, emit-once keys.
use cernityndr.Base.{
  ℕ, ◌+◌, ◌≡◌, refl, inr, true, false, none, some, List, [], ◌∷◌, ltb, leb, length, if◌then◌else◌,
  lookup,
}
use cernityndr.WindowStore.{Num, Store, field_set, fields_get, counter_get, set_add, set_len}
use cernityndr.WindowStore.Windows.{
  kv_get, kv_set_once, keys_matching, pipeline_ops, Op, window_range,
}
use cernityndr.WindowStore.Fields.{Write, set_all, fields_get-bounded}
use cernityndr.WindowStore.Replay.{write_all, fields_get-replay}
use cernityndr.WindowStore.Counters.{Add, add_all, total, IsClosed, counter_get-add_all}
use cernityndr.WindowStore.Once.{
  Seen, answers, expected, answers-expected_new, Put, put_all, kv_get-put_all,
}

abbrev numbers : Num ℕ
numbers = record { zero = 0; one = 1; add = λ a b. a + b; lt = ltb }

abbrev no_state : Store ℕ
no_state = record { z = []; zs = []; h = []; s = []; kv = []; exp = []; dedup = [] }

abbrev flow : Write ℕ
flow = record { key = "exfil:h1"; field = "flow-1"; value = 700; ttl = 60; now = 10 }

abbrev writes : List (Write ℕ)
writes = flow ∷ record flow { field = "flow-2"; value = 5 } ∷ record flow { value = 900 } ∷ []

one_refused :
    fields_get numbers "exfil:h1" 20 (set_all numbers 1 no_state writes) ≡ (("flow-1", 900) ∷ [], 1)
unfolding fields_get set_all
one_refused = refl

-- A set under a cap of one holds two members.
one_over :
    (set_len numbers "k" 1
      (set_add numbers "k" "b" 9 (some 1) 1 (set_add numbers "k" "a" 9 (some 1) 1 no_state))).0
    ≡ 2
unfolding set_len set_add
one_over = refl

batched :
    (window_range numbers "w" 0 5 (
      pipeline_ops numbers 1 no_state
        (Op.win "w" (some "idx") 3 "b" 60 ∷ Op.win "w" none 2 "a" 60 ∷ []))).0
    ≡ (2, "a") ∷ (3, "b") ∷ []
unfolding window_range pipeline_ops
batched = refl

matching :
    keys_matching numbers "w" 5
      (pipeline_ops numbers 1 no_state (Op.znx "w2" "m" 3 60 none ∷ Op.win "w1" none 2 "a" 60 ∷ []))
    ≡ "w1" ∷ "w2" ∷ []
unfolding keys_matching pipeline_ops
matching = refl

fields_get-bounded_example :
    leb (length (fields_get numbers "exfil:h1" 20 (set_all numbers 1 no_state writes)).0) 1 ≡ true
fields_get-bounded_example = fields_get-bounded numbers 1 no_state writes "exfil:h1" 20 refl refl

-- The batch of `writes`, a second apart, and a write to another key between.
abbrev rest_of : List (Write ℕ)
rest_of =
    record flow { field = "flow-2"; value = 5; now = 11 }
    ∷ record flow { value = 900; now = 12 }
    ∷ []

abbrev redelivered : List (Write ℕ)
redelivered =
    record flow { now = 30 }
    ∷ record flow { key = "exfil:h2"; now = 99 }
    ∷ record flow { field = "flow-2"; value = 5; now = 31 }
    ∷ record flow { value = 900; now = 32 }
    ∷ []

fields_get-replay_example :
    let once = write_all numbers (some 1) no_state (flow ∷ rest_of) in
    let twice = write_all numbers (some 1) once redelivered in
    (lookup "flow-1" (fields_get numbers "exfil:h1" 40 twice).0
      ≡ lookup "flow-1" (fields_get numbers "exfil:h1" 40 once).0)
    × (lookup "exfil:h1" twice.exp ≡ lookup "exfil:h1" once.exp)
fields_get-replay_example =
    fields_get-replay numbers (some 1) flow rest_of redelivered "flow-1" 70 40 no_state
      (unfold field_set in refl) refl refl refl refl

-- The one that was taken keeps its last value.
replay_reads :
    lookup "flow-1"
      (fields_get numbers "exfil:h1" 40 (
        write_all numbers
          (some 1)
          (write_all numbers (some 1) no_state (flow ∷ rest_of))
          redelivered)).0
    ≡ some 900
unfolding fields_get write_all lookup
replay_reads = refl

abbrev failed_login : Add ℕ
failed_login = record { field = "22"; delta = 1; ttl = 60; now = 10 }

not_open : IsClosed numbers "ssh:h1" 10 no_state
unfolding IsClosed lookup
not_open = inr (refl, refl)

counter_get-add_all_example :
    counter_get numbers "ssh:h1" "22" 50
      (add_all numbers "ssh:h1" no_state (failed_login ∷ record failed_login { now = 40 } ∷ []))
    ≡ (if ltb 50 (10 + 60)
        then total numbers "22" 0 (failed_login ∷ record failed_login { now = 40 } ∷ [])
        else 0)
counter_get-add_all_example =
    counter_get-add_all numbers "ssh:h1" "22" failed_login (record failed_login { now = 40 } ∷ [])
      no_state 50 not_open refl

abbrev alert : Seen
alert = record { key = "beacon:h1"; ttl = 100; now = 5 }

abbrev alerts : List Seen
alerts =
    alert
    ∷ record alert { now = 60 }
    ∷ record alert { key = "beacon:h2"; now = 70 }
    ∷ record alert { now = 105 }
    ∷ []

once_each : answers numbers no_state alerts ≡ true ∷ false ∷ true ∷ true ∷ []
unfolding answers
once_each = refl

answers-expected_new_example : answers numbers no_state alerts ≡ expected [] alerts
answers-expected_new_example = answers-expected_new numbers no_state alerts refl

abbrev learned : Put
learned = record { key = "ob:v1:h1"; value = "first"; ttl = 50; now = 10 }

kv_get-put_all_example :
    (kv_get numbers "ob:v1:h1" 40 (
      put_all numbers
        (kv_set_once numbers "ob:v1:h1" "first" 50 10 no_state).1
        (record learned { value = "second"; now = 30 } ∷ []))).0
    ≡ (if ltb 40 (10 + 50) then some "first" else none)
kv_get-put_all_example =
    kv_get-put_all numbers learned (record learned { value = "second"; now = 30 } ∷ []) no_state 40
      (unfold kv_set_once in refl) refl
