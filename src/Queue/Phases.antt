-- ===== src/Queue/Phases.antt =====
-- What holds at every phase of Start but that it has returned an error.
use juicemud.Base.{ok, err}
use juicemud.Queue.Serving.{
  Phase, opening, peeked, assigned, turning, resting, waiting, woken, returned, broadcast,
}

-- Something, unless Start has returned an error.
abbrev pub UnlessFailed : Type 0 → Phase → Type 0
UnlessFailed A (returned (err x)) = Unit
UnlessFailed A (returned (ok u)) = A
UnlessFailed A opening = A
UnlessFailed A (peeked r) = A
UnlessFailed A assigned = A
UnlessFailed A turning = A
UnlessFailed A resting = A
UnlessFailed A waiting = A
UnlessFailed A woken = A

pub UnlessFailed-map :
    {A B : Type 0} → (A → B) → (ph : Phase) → UnlessFailed A ph → UnlessFailed B ph
UnlessFailed-map f (returned (err x)) h = tt
UnlessFailed-map f (returned (ok u)) h = f h
UnlessFailed-map f opening h = f h
UnlessFailed-map f (peeked r) h = f h
UnlessFailed-map f assigned h = f h
UnlessFailed-map f turning h = f h
UnlessFailed-map f resting h = f h
UnlessFailed-map f waiting h = f h
UnlessFailed-map f woken h = f h

pub UnlessFailed-start : {A : Type 0} (ph : Phase) → A → UnlessFailed A ph
UnlessFailed-start (returned (err x)) h = tt
UnlessFailed-start (returned (ok u)) h = h
UnlessFailed-start opening h = h
UnlessFailed-start (peeked r) h = h
UnlessFailed-start assigned h = h
UnlessFailed-start turning h = h
UnlessFailed-start resting h = h
UnlessFailed-start waiting h = h
UnlessFailed-start woken h = h

pub UnlessFailed-broadcast :
    (A : Type 0) (ph : Phase) → UnlessFailed A ph → UnlessFailed A (broadcast ph)
UnlessFailed-broadcast A (returned (err x)) h = h
UnlessFailed-broadcast A (returned (ok u)) h = h
UnlessFailed-broadcast A opening h = h
UnlessFailed-broadcast A (peeked r) h = h
UnlessFailed-broadcast A assigned h = h
UnlessFailed-broadcast A turning h = h
UnlessFailed-broadcast A resting h = h
UnlessFailed-broadcast A waiting h = h
UnlessFailed-broadcast A woken h = h
