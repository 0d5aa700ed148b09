-- ===== src/GeeRpc/Server/Handling/Once.antt =====
-- How often handleRequest of gee-rpc/day7-registry/server.go answers, and which goroutine ends.
use days_golang_master.Base.{ℕ, ◌≡◌, ◌≢◌, refl, ap, ◌⊎◌, inl, inr, Text, Option, [], ◌∷◌}
use days_golang_master.GeeRpc.Server.Handling.{
  Worker, calling, called, answering, answered, finished, waiting, timed_out, awaiting_sent,
  returned, result, timeout_error, State, start, Step, method_returns, on_called, worker_answers,
  on_sent, time_is_over, waiter_answers, Steps, here, then,
}

-- The states that are reached, by who has the request: nobody answered yet, the worker answers, it
-- has answered, both are done, or the time was over.
abbrev IsEarly : Worker → Type 0
IsEarly w = (w ≡ calling) ⊎ ((err : Option Text) × (w ≡ called err))

data Phase (s : State) : Type 0 where
  unanswered : IsEarly s.worker → s.waiter ≡ waiting → s.responses ≡ [] → Phase s
  handed_over :
      (err : Option Text)
      → s.worker ≡ answering err
      → s.waiter ≡ awaiting_sent
      → s.responses ≡ []
      → Phase s
  written :
      (err : Option Text)
      → s.worker ≡ answered
      → s.waiter ≡ awaiting_sent
      → s.responses ≡ result err ∷ []
      → Phase s
  both_done :
      (err : Option Text)
      → s.worker ≡ finished
      → s.waiter ≡ returned
      → s.responses ≡ result err ∷ []
      → Phase s
  late : IsEarly s.worker → s.waiter ≡ timed_out → s.responses ≡ [] → Phase s
  given_up : IsEarly s.worker → s.waiter ≡ returned → s.responses ≡ timeout_error ∷ [] → Phase s

-- A worker that is still early is in no later state.
not_early :
    (w : Worker)
    → IsEarly w
    → (w ≢ answered) × (w ≢ finished) × ((err : Option Text) → w ≢ answering err)
not_early w (inl e) = (λ k. cc, λ k. cc, λ err k. cc)
not_early w (inr (x, e)) = (λ k. cc, λ k. cc, λ err k. cc)

Step-Phase : {timeout : ℕ} {s t : State} → Step timeout s t → Phase s → Phase t
Step-Phase (method_returns err e) (unanswered w q r) = unanswered (inr (err, refl)) q r
Step-Phase (method_returns err e) (handed_over x w q r) = cc
Step-Phase (method_returns err e) (written x w q r) = cc
Step-Phase (method_returns err e) (both_done x w q r) = cc
Step-Phase (method_returns err e) (late w q r) = late (inr (err, refl)) q r
Step-Phase (method_returns err e) (given_up w q r) = given_up (inr (err, refl)) q r
Step-Phase (on_called err e k) (unanswered w q r) = handed_over err refl refl r
Step-Phase (on_called err e k) (handed_over x w q r) = cc
Step-Phase (on_called err e k) (written x w q r) = cc
Step-Phase (on_called err e k) (both_done x w q r) = cc
Step-Phase (on_called err e k) (late w q r) = cc
Step-Phase (on_called err e k) (given_up w q r) = cc
Step-Phase {s = s} (worker_answers err e) (unanswered w q r) =
    absurd ((not_early s.worker w).2 err e)
Step-Phase (worker_answers err e) (handed_over x w q r) =
    written err refl q (ap (◌∷◌ (result err)) r)
Step-Phase (worker_answers err e) (written x w q r) = cc
Step-Phase (worker_answers err e) (both_done x w q r) = cc
Step-Phase {s = s} (worker_answers err e) (late w q r) = absurd ((not_early s.worker w).2 err e)
Step-Phase {s = s} (worker_answers err e) (given_up w q r) = absurd ((not_early s.worker w).2 err e)
Step-Phase (on_sent e k) (unanswered w q r) = cc
Step-Phase (on_sent e k) (handed_over x w q r) = cc
Step-Phase (on_sent e k) (written x w q r) = both_done x refl refl r
Step-Phase (on_sent e k) (both_done x w q r) = cc
Step-Phase (on_sent e k) (late w q r) = cc
Step-Phase (on_sent e k) (given_up w q r) = cc
Step-Phase (time_is_over n k) (unanswered w q r) = late w refl r
Step-Phase (time_is_over n k) (handed_over x w q r) = cc
Step-Phase (time_is_over n k) (written x w q r) = cc
Step-Phase (time_is_over n k) (both_done x w q r) = cc
Step-Phase (time_is_over n k) (late w q r) = cc
Step-Phase (time_is_over n k) (given_up w q r) = cc
Step-Phase (waiter_answers k) (unanswered w q r) = cc
Step-Phase (waiter_answers k) (handed_over x w q r) = cc
Step-Phase (waiter_answers k) (written x w q r) = cc
Step-Phase (waiter_answers k) (both_done x w q r) = cc
Step-Phase (waiter_answers k) (late w q r) = given_up w refl (ap (◌∷◌ timeout_error) r)
Step-Phase (waiter_answers k) (given_up w q r) = cc

Steps-Phase : {timeout : ℕ} {s t : State} → Steps timeout s t → Phase s → Phase t
Steps-Phase here h = h
Steps-Phase (then r st) h = Step-Phase st (Steps-Phase r h)

start-Phase : Phase start
start-Phase = unanswered (inl refl) refl refl

-- The waiter is gone, and the worker has not handed over.
abbrev IsAbandoned : State → Type 0
IsAbandoned s = IsEarly s.worker × (s.waiter ≡ returned)

IsAbandoned-of_Phase : (s : State) → Phase s → s.responses ≡ timeout_error ∷ [] → IsAbandoned s
IsAbandoned-of_Phase s (unanswered w q e) h = cc
IsAbandoned-of_Phase s (handed_over x w q e) h = cc
IsAbandoned-of_Phase s (written x w q e) h = cc
IsAbandoned-of_Phase s (both_done x w q e) h = cc
IsAbandoned-of_Phase s (late w q e) h = cc
IsAbandoned-of_Phase s (given_up w q e) h = (w, q)

Step-IsAbandoned : {timeout : ℕ} {s t : State} → Step timeout s t → IsAbandoned s → IsAbandoned t
Step-IsAbandoned (method_returns err e) (w, q) = (inr (err, refl), q)
Step-IsAbandoned (on_called err e k) (w, q) = cc
Step-IsAbandoned {s = s} (worker_answers err e) (w, q) = absurd ((not_early s.worker w).2 err e)
Step-IsAbandoned (on_sent e k) (w, q) = cc
Step-IsAbandoned (time_is_over n k) (w, q) = cc
Step-IsAbandoned (waiter_answers k) (w, q) = cc

stays : {timeout : ℕ} {s t : State} → IsAbandoned s → Steps timeout s t → IsAbandoned t
stays h here = h
stays h (then r st) = Step-IsAbandoned st (stays h r)

-- Once the error of the timeout was written, no step lets the worker end: nobody receives from its
-- channel.
handle-leaks :
    (timeout : ℕ) (s t : State)
    → Steps timeout start s
    → s.responses ≡ timeout_error ∷ []
    → Steps timeout s t
    → t.worker ≢ finished
handle-leaks timeout s t r late_answer more =
    (not_early t.worker
      (stays (IsAbandoned-of_Phase s (Steps-Phase r start-Phase) late_answer) more).0).1

-- However the two goroutines of a request interleave, when handleRequest has returned exactly one
-- response was written: the one of the method, by a worker that has ended; or the error of the
-- timeout, and then the worker never ends, since nobody receives from its channel any more.
pub handle-answers_once :
    (timeout : ℕ) (s : State)
    → Steps timeout start s
    → s.waiter ≡ returned
    → (((err : Option Text) × (s.responses ≡ result err ∷ [])) × (s.worker ≡ finished))
      ⊎ ((s.responses ≡ timeout_error ∷ [])
          × ((t : State) → Steps timeout s t → t.worker ≢ finished))
handle-answers_once timeout s r done = elim (Steps-Phase r start-Phase) [
  | unanswered w q e ↦ cc
  | handed_over x w q e ↦ cc
  | written x w q e ↦ cc
  | both_done x w q e ↦ inl ((x, e), w)
  | late w q e ↦ cc
  | given_up w q e ↦ inr (e, λ t more. handle-leaks timeout s t r e more)
]
