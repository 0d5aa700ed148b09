-- ===== src/GeeRpc/XClient/Tests.antt =====
-- A client of three servers, and inputs for the theorems.
use days_golang_master.Base.{
  ℕ, ◌≡◌, refl, Text, codes, some, [], ◌∷◌, Bool, true, false, text_discrete, ℕ_discrete, ite,
}
use days_golang_master.Base.Table
use days_golang_master.GeeRpc.Discovery.{round_robin_select, get_all}
use days_golang_master.GeeRpc.XClient.{
  XClient, Dialled, client_of, forget, dial, close_all, close, replied, failed, gather, gather_all,
  broadcast,
}
use days_golang_master.GeeRpc.XClient.Clients.{DialResult, dial_lem}

-- Client 1 is kept for the first server, client 2 for the second.
abbrev two_clients : XClient
two_clients = record {
  d = record { servers = codes "a" ∷ codes "b" ∷ codes "c" ∷ []; index = 0 };
  mode = round_robin_select;
  clients = (codes "a", 1) ∷ (codes "b", 2) ∷ [];
  closed = [];
}

abbrev only_second : ℕ → Bool
only_second n = ite (ℕ_discrete n 2) true false

abbrev makes_seven : Text → Dialled
makes_seven _ = client_of 7

-- Client 1 is not available any more: it is closed, and client 7 takes its place.
dials_again : dial only_second makes_seven (codes "a") two_clients ≡ (
  record two_clients { clients = (codes "b", 2) ∷ (codes "a", 7) ∷ []; closed = 1 ∷ [] },
  client_of 7,
)
unfolding dial forget Table.get Table.put Table.delete text_discrete ℕ_discrete
dials_again = refl

closes_both : (close two_clients).closed ≡ 2 ∷ 1 ∷ []
unfolding close close_all
closes_both = refl

-- The second server fails; the reply is that of the first which succeeds.
gathers :
    (broadcast
      (λ s. ite (text_discrete s (codes "b")) (failed 5) (replied s))
      (λ l. l)
      true
      two_clients).reply
    ≡ some (codes "a")
unfolding broadcast gather_all gather get_all text_discrete ℕ_discrete
gathers = refl

dial_lem_example :
    DialResult only_second makes_seven
      (codes "a")
      two_clients
      (dial only_second makes_seven (codes "a") two_clients).0
      (dial only_second makes_seven (codes "a") two_clients).1
dial_lem_example = dial_lem only_second makes_seven (codes "a") two_clients
