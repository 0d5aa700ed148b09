-- ===== src/GeeRpc/Client/Tests.antt =====
-- Runs of the client on concrete calls, and inputs for the theorems.
use days_golang_master.Base.{
  ◌≡◌, refl, codes, some, none, List, [], ◌∷◌, arith, ℕ_discrete, text_discrete, add64, true, false,
}
use days_golang_master.Base.Table
use days_golang_master.GeeRpc.Client.{
  Client, Event, sends, writes, receives, header_fails, gives_up, terminates, new, register_call,
  remove_call, finish, terminate_calls, begin_send, end_send, read_body, receive, give_up, step,
  run, issued, replied, terminated, shut_down, stopped,
}
use days_golang_master.GeeRpc.Client.Pending.{Accounts}
use days_golang_master.GeeRpc.Client.Runs.{run-Accounts}

-- Call 70 gets its reply before its write returns, 71 is given up, 72 is pending when the connection
-- ends, and 73 comes too late.
abbrev events : List Event
events =
    sends 73
    ∷ terminates
    ∷ header_fails 9
    ∷ writes none
    ∷ sends 72
    ∷ gives_up 2
    ∷ writes none
    ∷ sends 71
    ∷ writes none
    ∷ receives 1 [] (codes "ok") none
    ∷ sends 70
    ∷ []

abbrev at_end : Client
at_end = record {
  seq = 4;
  pending = (3, 72) ∷ [];
  closing = false;
  shutdown = true;
  sending = none;
  receiver = stopped;
  finished = (73, shut_down) ∷ (72, terminated 9) ∷ (70, replied (codes "ok")) ∷ [];
  dropped = 71 ∷ [];
}

runs_to_end : run events ≡ some at_end
unfolding run step begin_send end_send receive give_up terminate_calls register_call remove_call
    finish read_body new Table.get Table.put Table.delete ℕ_discrete text_discrete add64
runs_to_end = refl

run-Accounts_example : Accounts (issued events) at_end
run-Accounts_example = run-Accounts events at_end (omega arith) runs_to_end
