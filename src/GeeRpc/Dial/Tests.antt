-- ===== src/GeeRpc/Dial/Tests.antt =====
-- Addresses and attempts with concrete results, and inputs for the theorems.
use days_golang_master.Base.{
  ◌≡◌, refl, codes, none, some, [], true, false, split, text_discrete, ℕ_discrete,
}
use days_golang_master.GeeRpc.Dial.{
  timed_out, Made, connection, new_client, dial_timeout, parse_options, x_dial, dial_http, dial,
  by_dial_http, by_dial, status, bad_status, new_http_client, malformed,
}
use days_golang_master.GeeRpc.Dial.Closing.{Closes, dial-Closes}

dials_http : x_dial (codes "http@:7001") ≡ by_dial_http (codes "tcp") (codes ":7001")
unfolding x_dial split text_discrete ℕ_discrete
dials_http = refl

dials_unix :
    x_dial (codes "unix@/tmp/geerpc.sock") ≡ by_dial (codes "unix") (codes "/tmp/geerpc.sock")
unfolding x_dial split text_discrete ℕ_discrete
dials_unix = refl

dials_nothing : x_dial (codes ":7001") ≡ malformed (codes ":7001")
unfolding x_dial split text_discrete ℕ_discrete
dials_nothing = refl

-- The default options have a timeout of ten seconds, which this attempt exceeds.
abbrev late : Made
late = record { error = some timed_out; closed = true }

dials_late : dial_timeout (new_client (λ _. true) none) none false [] ≡ connection late
unfolding dial_timeout new_client parse_options ℕ_discrete
dials_late = refl

-- The server answers the handshake over HTTP with another status: the connection is closed.
dials_refused :
    dial_http (status (codes "404 Not Found")) (λ _. true) none none true []
    ≡ connection (record { error = some bad_status; closed = true })
unfolding dial_http dial_timeout new_http_client parse_options ℕ_discrete text_discrete
dials_refused = refl

dial-Closes_example :
    Closes [] none (dial (λ _. true) none none false [])
    × Closes [] none (dial_http (status (codes "404 Not Found")) (λ _. true) none none false [])
dial-Closes_example = dial-Closes (status (codes "404 Not Found")) (λ _. true) none none false []
