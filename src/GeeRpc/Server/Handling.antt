-- ===== src/GeeRpc/Server/Handling.antt =====
-- The two goroutines of handleRequest in gee-rpc/day7-registry/server.go: the worker calls the method
-- and answers, the other one waits for it, or answers itself when the time is over. The channels
-- `called` and `sent` have no buffer, so a send and its receive are one step.
pub mod Once
use days_golang_master.Base.{ℕ, ◌≡◌, ◌≢◌, Text, Option, List, [], ◌∷◌}

-- The worker: it runs the method, offers to `called`, writes the response, and offers to `sent`.
pub data Worker : Type 0 where
  calling : Worker
  called answering : Option Text → Worker
  answered finished : Worker

pub data Waiter : Type 0 where
  waiting timed_out awaiting_sent returned : Waiter

-- A response with the reply or the error of the method, or with the error of the timeout.
pub data Answer : Type 0 where
  result : Option Text → Answer
  timeout_error : Answer

pub record State : Type 0 where
  pub worker : Worker
  pub waiter : Waiter
  -- the responses that were written, the latest first
  pub responses : List Answer

abbrev pub start : State
start = record { worker = calling; waiter = waiting; responses = [] }

-- A step, with the timeout of the request; zero means none.
pub data Step (timeout : ℕ) (s : State) : State → Type 0 where
  method_returns :
      (err : Option Text) → s.worker ≡ calling → Step timeout s (record s { worker = called err })
  on_called :
      (err : Option Text)
      → s.worker ≡ called err
      → s.waiter ≡ waiting
      → Step timeout s (record s { worker = answering err; waiter = awaiting_sent })
  worker_answers :
      (err : Option Text)
      → s.worker ≡ answering err
      → Step timeout s (record s { worker = answered; responses = result err ∷ s.responses })
  on_sent :
      s.worker ≡ answered
      → s.waiter ≡ awaiting_sent
      → Step timeout s (record s { worker = finished; waiter = returned })
  time_is_over : timeout ≢ 0 → s.waiter ≡ waiting → Step timeout s (record s { waiter = timed_out })
  waiter_answers :
      s.waiter ≡ timed_out
      → Step timeout s (record s { waiter = returned; responses = timeout_error ∷ s.responses })

pub data Steps (timeout : ℕ) (s : State) : State → Type 0 where
  here : Steps timeout s s
  then : {t u : State} → Steps timeout s t → Step timeout t u → Steps timeout s u
