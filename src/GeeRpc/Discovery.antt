-- ===== src/GeeRpc/Discovery.antt =====
-- gee-rpc/day7-registry/xclient/discovery.go and discovery_gee.go: the list of servers from which
-- a client chooses one, and its refresh from the registry.
--
-- d.r.Intn(n) is a parameter of a random Get, a number below n; `now` is what time.Now() returns,
-- and the answer of the registry is its header X-Geerpc-Servers or an error. The index does not
-- reach the limit of an int, since NewMultiServerDiscovery starts it below the limit of an int32 and
-- each Get leaves it below the number of servers.

pub mod Fair
pub mod Refreshed
mod Tests
use days_golang_master.Base.{
  ℕ, zero, suc, ◌+◌, ◌%◌, Text, codes, Option, none, some, List, [], ◌∷◌, ◌++◌, Run, done, panic,
  spin, ◌>>=◌, deref, length, get_elem?, split, ite, dec_lt, ℕ_discrete, text_discrete,
}

pub data SelectMode : Type 0 where
  random_select round_robin_select : SelectMode
  other_mode : ℕ → SelectMode

pub data DiscoveryError : Type 0 where
  no_servers not_supported : DiscoveryError
  registry_failed : ℕ → DiscoveryError

-- The pair (string, error): one of the two.
pub data Answer (A : Type 0) : Type 0 where
  answered : A → Answer A
  refused : DiscoveryError → Answer A

pub record Servers : Type 0 where
  pub servers : List Text
  pub index : ℕ

unfoldable pub update : List Text → Servers → Servers
update servers d = record d { servers = servers }

-- MultiServersDiscovery.Get; `random` is d.r.Intn(n).
unfoldable pub get : ℕ → SelectMode → Servers → Run (Servers × Answer Text)
get random mode d = elim (length d.servers) [
  | zero ↦ done (d, refused no_servers)
  | suc n ↦ elim mode [
    | random_select ↦ do s ← deref (get_elem? d.servers random); done (d, answered s)
    | round_robin_select ↦ do
      s ← deref (get_elem? d.servers (d.index % suc n))
      done (record d { index = (d.index + 1) % suc n }, answered s)
    | other_mode _ ↦ done (d, refused not_supported)
  ]
]

-- A copy of the servers.
unfoldable pub get_all : Servers → List Text
get_all d = d.servers

-- NewMultiServerDiscovery; `random` is r.Intn(math.MaxInt32 - 1).
unfoldable pub new_multi : ℕ → List Text → Servers
new_multi random servers = record { servers = servers; index = random }

pub record GeeDiscovery : Type 0 where
  pub multi : Servers
  pub timeout : ℕ
  pub last_update : ℕ

-- strings.TrimSpace on ASCII: the bytes of white space at both ends go.
unfoldable pub trim_left : Text → Text
trim_left [] = []
trim_left (b ∷ s) =
    let rest = trim_left s in
    ite (ℕ_discrete b 32) rest (ite (dec_lt 8 b) (ite (dec_lt b 14) rest (b ∷ s)) (b ∷ s))

unfoldable pub reverse : Text → Text → Text
reverse [] acc = acc
reverse (b ∷ s) acc = reverse s (b ∷ acc)

unfoldable pub trim_space : Text → Text
trim_space s = reverse (trim_left (reverse (trim_left s) [])) []

-- The loop of Refresh.
unfoldable pub keep_servers : List Text → List Text → List Text
keep_servers [] acc = acc
keep_servers (server ∷ servers) acc =
    let skip = keep_servers servers acc in
    let keep = keep_servers servers (acc ++ trim_space server ∷ []) in
    ite (text_discrete (trim_space server) []) skip keep

unfoldable pub gee_update : ℕ → List Text → GeeDiscovery → GeeDiscovery
gee_update now servers d = record d { multi = update servers d.multi; last_update = now }

-- `registry` is what http.Get answers.
unfoldable pub refresh : ℕ → Answer Text → GeeDiscovery → GeeDiscovery × Option DiscoveryError
refresh now registry d =
    ite (dec_lt now (d.last_update + d.timeout)) (d, none)
      (elim registry [
        | refused e ↦ (d, some e)
        | answered header ↦ (
          record d {
            multi = update (keep_servers (split 44 header) []) d.multi;
            last_update = now;
          },
          none,
        )
      ])

unfoldable pub gee_get :
    ℕ → Answer Text → ℕ → SelectMode → GeeDiscovery → Run (GeeDiscovery × Answer Text)
gee_get now registry random mode d =
    let (d', err) = refresh now registry d in
    elim err [
      | some e ↦ done (d', refused e)
      | none ↦ do (m, answer) ← get random mode d'.multi; done (record d' { multi = m }, answer)
    ]

unfoldable pub gee_get_all : ℕ → Answer Text → GeeDiscovery → GeeDiscovery × Answer (List Text)
gee_get_all now registry d =
    let (d', err) = refresh now registry d in
    elim err [ some e ↦ (d', refused e) | none ↦ (d', answered (get_all d'.multi)) ]

-- defaultUpdateTimeout, ten seconds in nanoseconds
abbrev pub default_update_timeout : ℕ
default_update_timeout = 10000000000

-- The zero time of lastUpdate is the instant 0.
unfoldable pub new_gee : ℕ → ℕ → GeeDiscovery
new_gee random timeout = record {
  multi = new_multi random [];
  timeout = ite (ℕ_discrete timeout 0) default_update_timeout timeout;
  last_update = 0;
}
