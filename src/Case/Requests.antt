-- ===== src/Case/Requests.antt =====
-- A case under a list of requests, one after another. A refused request raises, and leaves the
-- document as it was.
use cernityndr.Base.{String, List, [], ◌∷◌, Result, ok, err, OnOk}
use cernityndr.Case.{CaseDoc, CaseError, Change, change}

abbrev pub Request : Type 0
Request = Change × String × String

abbrev pub settle : CaseDoc → Result CaseError CaseDoc → CaseDoc
settle c (ok c') = c'
settle c (err e) = c

unfoldable pub serve : CaseDoc → List Request → CaseDoc
serve c [] = c
serve c ((ch, actor, ts) ∷ rest) = serve (settle c (change c ch actor ts)) rest

settle-at :
    (P : CaseDoc → Type 0) (c : CaseDoc) (r : Result CaseError CaseDoc)
    → P c
    → OnOk P r
    → P (settle c r)
settle-at P c (ok c') h k = k
settle-at P c (err e) h k = h

-- What every accepted change keeps holds after any requests.
module _ (P : CaseDoc → Type 0)
    (step : (c : CaseDoc) (ch : Change) (actor ts : String)
      → P c
      → OnOk P (change c ch actor ts)) where
  pub serve_induction : (c : CaseDoc) (reqs : List Request) → P c → P (serve c reqs)
  unfolding serve
  serve_induction c [] h = h
  serve_induction c ((ch, actor, ts) ∷ rest) h =
      serve_induction (settle c (change c ch actor ts)) rest
        (settle-at P c (change c ch actor ts) h (step c ch actor ts h))
