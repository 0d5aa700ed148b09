-- ===== src/GeeRpc/XClient.antt =====
-- gee-rpc/day7-registry/xclient/xclient.go: the clients that are kept for the servers of a discovery,
-- one call, and a call to all servers.
--
-- A client is a pointer, here a number. Whether it is available, what XDial returns and how a call on
-- it ends are parameters; the calls of Broadcast take their lock in some order, which is the order of
-- their results.
pub mod Clients
pub mod Broadcasts
mod Tests
use days_golang_master.Base.{
  ℕ, Text, text_discrete, Option, none, some, List, [], ◌∷◌, ◌++◌, Bool, true, false, not, map, Run,
  done, ◌>>=◌,
}
use days_golang_master.Base.Table
use days_golang_master.Base.Table.{Table}
use days_golang_master.GeeRpc.Discovery.{
  Servers, Answer, answered, refused, SelectMode, get, get_all,
}

pub record XClient : Type 0 where
  pub d : Servers
  pub mode : SelectMode
  pub clients : Table Text ℕ
  -- the clients that were closed, the latest first
  pub closed : List ℕ

unfoldable pub new : Servers → SelectMode → XClient
new d mode = record { d = d; mode = mode; clients = []; closed = [] }

-- Close, in the order in which the map is iterated.
unfoldable pub close_all : Table Text ℕ → XClient → XClient
close_all [] xc = xc
close_all ((key, client) ∷ m) xc =
    close_all m (record xc {
      closed = client ∷ xc.closed;
      clients = Table.delete text_discrete key xc.clients;
    })

unfoldable pub close : XClient → XClient
close xc = close_all xc.clients xc

-- A client, or an error.
pub data Dialled : Type 0 where
  client_of : ℕ → Dialled
  dial_failed : ℕ → Dialled

-- dial, its first `if`: a client that is not available is closed and forgotten.
unfoldable pub forget : (ℕ → Bool) → Text → XClient → XClient × Option ℕ
forget is_available rpc_addr xc = elim (Table.get text_discrete rpc_addr xc.clients) [
  | none ↦ (xc, none)
  | some client ↦ elim (is_available client) [
    | true ↦ (xc, some client)
    | false ↦ (
      record xc {
        closed = client ∷ xc.closed;
        clients = Table.delete text_discrete rpc_addr xc.clients;
      },
      none,
    )
  ]
]

unfoldable pub dial : (ℕ → Bool) → (Text → Dialled) → Text → XClient → XClient × Dialled
dial is_available x_dial rpc_addr xc =
    let (xc', client) = forget is_available rpc_addr xc in
    elim client [
      | some c ↦ (xc', client_of c)
      | none ↦ elim (x_dial rpc_addr) [
        | dial_failed e ↦ (xc', dial_failed e)
        | client_of c ↦
            (record xc' { clients = Table.put text_discrete rpc_addr c xc'.clients }, client_of c)
      ]
    ]

-- How a call ends: with a reply, or with an error.
pub data Ended : Type 0 where
  replied : Text → Ended
  failed : ℕ → Ended
  no_server : Ended

-- call; `run` is client.Call of the request.
unfoldable pub call_at :
    (ℕ → Bool) → (Text → Dialled) → (ℕ → Ended) → Text → XClient → XClient × Ended
call_at is_available x_dial run rpc_addr xc =
    let (xc', client) = dial is_available x_dial rpc_addr xc in
    (xc', elim client [ client_of c ↦ run c | dial_failed e ↦ failed e ])

-- Call; `random` is the random number of the discovery.
unfoldable pub call :
    (ℕ → Bool) → (Text → Dialled) → (ℕ → Ended) → ℕ → XClient → Run (XClient × Ended)
call is_available x_dial run random xc = do
  (d', answer) ← get random xc.mode xc.d
  done (elim answer [
    | refused _ ↦ (record xc { d = d' }, no_server)
    | answered rpc_addr ↦ call_at is_available x_dial run rpc_addr (record xc { d = d' })
  ])

-- The variables of Broadcast that its goroutines share, and whether the context was cancelled.
pub record Gathered : Type 0 where
  pub error : Option Ended
  pub reply_done : Bool
  pub reply : Option Text
  pub cancelled : Bool

-- The part of a goroutine under the lock, after its call has ended.
unfoldable pub gather : Ended → Gathered → Gathered
gather (replied r) g = elim g.reply_done [
  | true ↦ g
  | false ↦ record g { reply = some r; reply_done = true }
]
gather e g = elim g.error [ none ↦ record g { error = some e; cancelled = true } | some _ ↦ g ]

unfoldable pub gather_all : List Ended → Gathered → Gathered
gather_all [] g = g
gather_all (e ∷ es) g = gather_all es (gather e g)

-- Broadcast; `wants_reply` is reply != nil, and `order` puts the results of the calls in the order in
-- which they take the lock.
unfoldable pub broadcast : (Text → Ended) → (List Ended → List Ended) → Bool → XClient → Gathered
broadcast run order wants_reply xc =
    gather_all (order (map run (get_all xc.d)))
      (record { error = none; reply_done = not wants_reply; reply = none; cancelled = false })
