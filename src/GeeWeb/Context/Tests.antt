-- ===== src/GeeWeb/Context/Tests.antt =====
-- Chains of handlers, and inputs for the theorems.
use days_golang_master.Base.{◌≡◌, refl, List, [], ◌∷◌, ◌++◌, length, arith, if◌then◌else◌}
use days_golang_master.GeeWeb.Context.{
  said, failed, say, next, crash, guarded, Handler, Context, returned, internal_error, run_commands,
  handler_at, run_loop, run_chain,
}
use days_golang_master.GeeWeb.Context.Chain.{
  chain_commands, chain, Meets, run_chain-Meets, run_chain-recovers,
}

program : Unit {0}
unfolding run_commands handler_at run_loop run_chain chain chain_commands
program = tt

-- part1; c.Next(); part2, twice, and a handler that never calls Next.
abbrev nested : List Handler
nested =
    (say 1 ∷ next ∷ say 2 ∷ []) ∷ (say 3 ∷ next ∷ say 4 ∷ []) ∷ (say 5 ∷ []) ∷ (say 6 ∷ []) ∷ []

nested_run :
    run_chain 9 nested
    ≡ returned
        (record { position = 7; trace = said 1 ∷ said 3 ∷ said 5 ∷ said 6 ∷ said 4 ∷ said 2 ∷ [] })
unfolding program
nested_run = refl

-- Fail ends the chain, and Recovery answers a panic.
abbrev broken : List Handler
broken = (say 1 ∷ next ∷ say 2 ∷ []) ∷ (say 3 ∷ crash ∷ say 4 ∷ []) ∷ (say 5 ∷ []) ∷ []

broken_run :
    run_chain 9 ((guarded ∷ []) ∷ broken)
    ≡ returned (record { position = 6; trace = said 1 ∷ said 3 ∷ failed 500 ∷ [] })
unfolding program
broken_run = refl

run_chain-Meets_example : Meets (length nested) [] (chain nested) (run_chain 9 nested)
run_chain-Meets_example = run_chain-Meets 9 nested (omega arith)

run_chain-recovers_example :
    (c : Context) × (run_chain 9 ((guarded ∷ []) ∷ broken) ≡ returned c)
    × (c.trace ≡ (
        if (chain broken).panics
        then (chain broken).events ++ failed internal_error ∷ []
        else (chain broken).events))
run_chain-recovers_example = run_chain-recovers 9 broken (omega arith)
