-- ===== src/GeeRpc/Registry.antt =====
-- gee-rpc/day7-registry/registry/registry.go: the map of the servers that sent a heartbeat, and the
-- handler that records a heartbeat (POST) and lists the servers that are alive (GET).
--
-- Times are instants of one clock in nanoseconds, `now` is what time.Now() returns during the
-- request, and the timeout is not negative. A request is its method and its header
-- X-Geerpc-Server, which is empty if it is missing.
pub mod Alive
pub mod Heartbeats
mod Tests
use days_golang_master.Base.{
  ℕ, ◌+◌, Text, codes, text_discrete, Option, none, some, List, [], ◌∷◌, ◌++◌, join, ite, Bool,
  true, false, ℕ_discrete, dec_lt,
}
use days_golang_master.Base.Table
use days_golang_master.Base.Table.{Table}
use days_golang_master.Base.Compare.{sort_strings}

pub record ServerItem : Type 0 where
  pub addr : Text
  pub start : ℕ

pub record Registry : Type 0 where
  pub timeout : ℕ
  pub servers : Table Text ServerItem

unfoldable pub new : ℕ → Registry
new timeout = record { timeout = timeout; servers = [] }

unfoldable pub put_server : ℕ → Text → Registry → Registry
put_server now addr r = elim (Table.get text_discrete addr r.servers) [
  | none ↦ record r {
    servers = Table.put text_discrete addr (record { addr = addr; start = now }) r.servers;
  }
  | some s ↦ record r {
    servers = Table.put text_discrete addr (record s { start = now }) r.servers;
  }
]

-- r.timeout == 0 || s.start.Add(r.timeout).After(time.Now())
unfoldable pub is_alive : ℕ → ℕ → ServerItem → Bool
is_alive timeout now s =
    ite (ℕ_discrete timeout 0) true (ite (dec_lt now (s.start + timeout)) true false)

-- The loop over the map, with the addresses that it appends and the map that it deletes from.
unfoldable pub scan :
    ℕ
    → ℕ
    → Table Text ServerItem
    → List Text
    → Table Text ServerItem
    → List Text × Table Text ServerItem
scan timeout now [] alive servers = (alive, servers)
scan timeout now ((addr, s) ∷ m) alive servers =
    let keep = scan timeout now m (alive ++ addr ∷ []) servers in
    let drop = scan timeout now m alive (Table.delete text_discrete addr servers) in
    elim (is_alive timeout now s) [ true ↦ keep | false ↦ drop ]

unfoldable pub alive_servers : ℕ → Registry → Registry × List Text
alive_servers now r =
    let (alive, servers) = scan r.timeout now r.servers [] r.servers in
    (record r { servers = servers }, sort_strings alive)

pub data Method : Type 0 where
  get_method post_method : Method
  other_method : Text → Method

pub record Request : Type 0 where
  pub method : Method
  pub server : Text

-- What the handler answers: the header X-Geerpc-Servers or none, and the status.
pub record Response : Type 0 where
  pub header : Option Text
  pub status : ℕ

unfoldable pub serve_http : ℕ → Request → Registry → Registry × Response
serve_http now req r = elim req.method [
  | get_method ↦
      let (r', alive) = alive_servers now r in
      (r', record { header = some (join (codes ",") alive); status = 200 })
  | post_method ↦
      ite (text_discrete req.server []) (r, record { header = none; status = 500 })
        (put_server now req.server r, record { header = none; status = 200 })
  | other_method _ ↦ (r, record { header = none; status = 405 })
]
