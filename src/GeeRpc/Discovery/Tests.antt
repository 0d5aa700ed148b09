-- ===== src/GeeRpc/Discovery/Tests.antt =====
-- The discovery on concrete servers, and inputs for the theorems.
use days_golang_master.Base.{
  ◌≡◌, ◌↔◌, refl, inl, Text, codes, List, [], ◌∷◌, arith, Has, length, done, text_discrete,
  ℕ_discrete, dec_lt, split,
}
use days_golang_master.Base.Table
use days_golang_master.Base.Compare.{sort_strings}
use days_golang_master.GeeRpc.Registry.{
  post_method, new, put_server, is_alive, scan, alive_servers, serve_http,
}
use days_golang_master.GeeRpc.Registry.Heartbeats.{History, run, last_beat, IsRecent}
use days_golang_master.GeeRpc.Discovery.{
  Servers, Answer, answered, get, new_multi, new_gee, refresh, trim_space, trim_left, reverse,
  keep_servers, update,
}
use days_golang_master.GeeRpc.Discovery.Fair.{Answers, get_many, get_many-Answers, get_many-visits}
use days_golang_master.GeeRpc.Discovery.Refreshed.{registry_answer, refresh-IsRecent}

abbrev three : List Text
three = codes "a" ∷ codes "b" ∷ codes "c" ∷ []

-- From the random index 7 the round starts at the second server.
goes_round :
    get_many 4 (new_multi 7 three)
    ≡ done (
      record { servers = three; index = 2 },
      answered (codes "b")
          ∷ answered (codes "c")
          ∷ answered (codes "a")
          ∷ answered (codes "b")
          ∷ [],
    )
unfolding get new_multi
goes_round = refl

-- Spaces and empty parts of the header go.
trims :
    (refresh 10000000000 (answered (codes " tcp@a, ,tcp@b ,")) (new_gee 0 0)).0.multi.servers
    ≡ codes "tcp@a" ∷ codes "tcp@b" ∷ []
unfolding refresh new_gee keep_servers split trim_space trim_left reverse update text_discrete
    ℕ_discrete dec_lt
trims = refl

get_many-Answers_example :
    (d' : Servers) × (answers : List (Answer Text)) × (get_many 4
        (record { servers = three; index = 7 })
      ≡ done (d', answers))
    × Answers 4 (record { servers = three; index = 7 }) d' answers
get_many-Answers_example = get_many-Answers three (omega arith) 4 7

get_many-visits_example :
    (d' : Servers) × (answers : List (Answer Text)) × (get_many
        (length three)
        (record { servers = three; index = 7 })
      ≡ done (d', answers))
    × (length answers ≡ length three)
    × Has (answered (codes "a")) answers
get_many-visits_example = get_many-visits three (omega arith) 7 (codes "a") (inl refl)

abbrev beats : History
beats =
    (40, record { method = post_method; server = codes "b" })
    ∷ (10, record { method = post_method; server = codes "a" })
    ∷ []

refresh-IsRecent_example :
    Has
      (codes "b")
      (refresh 10000000000 (registry_answer 50 (run 20 beats)) (new_gee 0 0)).0.multi.servers
    ↔ IsRecent 20 50 (last_beat (codes "b") beats)
unfolding alive_servers scan is_alive serve_http put_server new Table.get Table.put Table.delete
    text_discrete sort_strings ℕ_discrete dec_lt new_gee
refresh-IsRecent_example =
    refresh-IsRecent 20 50 10000000000 beats (new_gee 0 0) (codes "b")
      (omega arith, (omega arith, tt)) ((λ e. cc, ((omega arith, omega arith), tt)), tt)
      (omega arith)
