-- ===== src/GeeRpc/Registry/Tests.antt =====
-- The registry on concrete requests, and inputs for the theorems.
use days_golang_master.Base.{
  ◌≡◌, ◌↔◌, refl, codes, text_discrete, [], ◌∷◌, Has, ℕ_discrete, dec_lt, arith,
}
use days_golang_master.Base.Table
use days_golang_master.Base.Compare.{sort_strings}
use days_golang_master.GeeRpc.Registry.{
  post_method, new, put_server, is_alive, scan, alive_servers, serve_http,
}
use days_golang_master.GeeRpc.Registry.Heartbeats.{
  History, run, last_beat, IsRecent, alive_servers-IsRecent,
}

-- Two servers, of which the first sends its heartbeat again.
abbrev beats : History
beats =
    (40, record { method = post_method; server = codes "tcp@b" })
    ∷ (35, record { method = post_method; server = codes "tcp@a" })
    ∷ (20, record { method = post_method; server = codes "tcp@c" })
    ∷ (10, record { method = post_method; server = codes "tcp@a" })
    ∷ []

-- At 50, with a timeout of 20, the list has the two that are alive, in order.
lists_alive : (alive_servers 50 (run 20 beats)).1 ≡ codes "tcp@a" ∷ codes "tcp@b" ∷ []
unfolding alive_servers scan is_alive serve_http put_server new Table.get Table.put Table.delete
    text_discrete sort_strings ℕ_discrete dec_lt
lists_alive = refl

alive_servers-IsRecent_example :
    Has (codes "tcp@c") (alive_servers 50 (run 20 beats)).1
    ↔ IsRecent 20 50 (last_beat (codes "tcp@c") beats)
alive_servers-IsRecent_example =
    alive_servers-IsRecent 20 50 beats (codes "tcp@c")
      (omega arith, (omega arith, (omega arith, (omega arith, tt))))
