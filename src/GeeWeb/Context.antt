-- ===== src/GeeWeb/Context.antt =====
-- gee-web/day7-panic-recover/gee/context.go, recovery.go and logger.go: the chain of handlers of a
-- request. All handlers share one context, whose `index` says which handler runs; Next runs the
-- later ones, and Fail ends the chain by moving the index behind the last.
--
-- A handler is what it does to the context, a list of commands: it writes to the response (`say`),
-- calls c.Next(), calls c.Fail(code, …), or panics. `guarded` stands for the deferred recover of
-- Recovery, whose body is c.Next().
pub mod Chain
mod Tests
use days_golang_master.Base.{
  ℕ, zero, suc, ◌+◌, ◌<◌, Option, none, some, List, [], ◌∷◌, ◌++◌, length, get_elem?, Bool, true,
  false, dec_lt,
}

-- What is seen of a run: what the handlers write, and the answers of Fail.
pub data Event : Type 0 where
  said failed : ℕ → Event

pub data Command : Type 0 where
  say fail : ℕ → Command
  next crash guarded : Command

abbrev pub Handler : Type 0
Handler = List Command

pub record Context : Type 0 where
  -- c.index + 1, since the source starts at -1
  pub position : ℕ
  pub trace : List Event

-- A part of a run ends, or a panic passes through it; either way the context is as it was left.
pub data Ended : Type 0 where
  returned panicked : Context → Ended
  out_of_rounds : Ended

abbrev pub emit : Event → Context → Context
emit e c = record c { trace = c.trace ++ e ∷ [] }

-- http.StatusInternalServerError
abbrev pub internal_error : ℕ
internal_error = 500

-- The commands of a handler; `run_next` is what c.Next() does, and `s` is len(c.handlers).
unfoldable pub run_commands : (Context → Ended) → ℕ → Handler → Context → Ended
run_commands run_next s [] c = returned c
run_commands run_next s (say n ∷ cs) c = run_commands run_next s cs (emit (said n) c)
run_commands run_next s (fail n ∷ cs) c =
    run_commands run_next s cs (emit (failed n) (record c { position = suc s }))
run_commands run_next s (crash ∷ cs) c = panicked c
run_commands run_next s (next ∷ cs) c =
    let rest = run_commands run_next s cs in
    elim (run_next (record c { position = suc c.position })) [
      | returned c' ↦ rest c'
      | panicked c' ↦ panicked c'
      | out_of_rounds ↦ out_of_rounds
    ]
run_commands run_next s (guarded ∷ cs) c =
    let rest = run_commands run_next s cs in
    elim (run_next (record c { position = suc c.position })) [
      | returned c' ↦ rest c'
      | panicked c' ↦ rest (emit (failed internal_error) (record c' { position = suc s }))
      | out_of_rounds ↦ out_of_rounds
    ]

-- c.handlers[c.index], if the index is less than s
unfoldable pub handler_at : List Handler → ℕ → Option Handler
handler_at hs zero = none
handler_at hs (suc i) = get_elem? hs i

-- The loop of Next, after its c.index++, with a bound on the nesting of rounds: a handler runs, the
-- index goes up, and the test follows.
unfoldable pub run_loop : ℕ → List Handler → Context → Ended
run_loop zero hs c = out_of_rounds
run_loop (suc rounds) hs c =
    let again = run_loop rounds hs in
    elim (handler_at hs c.position) [
      | none ↦ returned c
      | some h ↦ elim (run_commands again (length hs) h c) [
        | returned c' ↦ again (record c' { position = suc c'.position })
        | panicked c' ↦ panicked c'
        | out_of_rounds ↦ out_of_rounds
      ]
    ]

-- newContext, and the call of Next by the router: the index goes from -1 to 0.
unfoldable pub run_chain : ℕ → List Handler → Ended
run_chain rounds hs = run_loop rounds hs (record { position = 1; trace = [] })
