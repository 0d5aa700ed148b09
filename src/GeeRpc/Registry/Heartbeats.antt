-- ===== src/GeeRpc/Registry/Heartbeats.antt =====
-- The registry seen from outside: after any history of requests it lists exactly the servers whose
-- last heartbeat is recent enough.
use days_golang_master.Base.{
  ℕ, ◌+◌, ◌≤◌, ◌<◌, ◌≡◌, ◌↔◌, refl, ◌⊎◌, inl, inr, Text, text_discrete, Option, none, some, List,
  [], ◌∷◌, arith, Has, true, ite, none-ne-some, eq_of_some, Bool-cases, Option-cases, ℕ_discrete,
  dec_lt, if_pos, if_neg,
}
use days_golang_master.Base.Table
use days_golang_master.Base.Table.{Table, get-put}
use days_golang_master.Base.Compare.{Has-sort_strings, Has-of_sort_strings}
use days_golang_master.GeeRpc.Registry.{
  ServerItem, Registry, Request, Method, get_method, post_method, other_method, new, put_server,
  is_alive, alive_servers, serve_http,
}
use days_golang_master.GeeRpc.Registry.Alive.{swept, get-scan, scan-IsUnique, Has-scan, Has-of_scan}

-- The requests with their times, the latest first.
abbrev pub History : Type 0
History = List (ℕ × Request)

-- No request is later than `now`, nor earlier than the one before it.
abbrev pub IsOrdered : ℕ → History → Type 0
IsOrdered now [] = Unit
IsOrdered now ((t, req) ∷ h) = (t ≤ now) × IsOrdered t h

abbrev pub run : ℕ → History → Registry
run timeout [] = new timeout
run timeout ((t, req) ∷ h) = (serve_http t req (run timeout h)).0

-- The heartbeat that a request brings for an address: a POST that names it, unless it is empty.
abbrev pub heard : Text → ℕ → Request → Option ℕ → Option ℕ
heard a t req before = elim req.method [
  | get_method ↦ before
  | post_method ↦
      ite (text_discrete req.server []) before (ite (text_discrete req.server a) (some t) before)
  | other_method _ ↦ before
]

-- The time of the last heartbeat of an address.
abbrev pub last_beat : Text → History → Option ℕ
last_beat a [] = none
last_beat a ((t, req) ∷ h) = heard a t req (last_beat a h)

-- A heartbeat at `t` counts at `now`.
abbrev pub IsRecent : ℕ → ℕ → Option ℕ → Type 0
IsRecent timeout now none = ⊥
IsRecent timeout now (some t) = (timeout ≡ 0) ⊎ (now < t + timeout)

-- What the map holds for an address, beside its last heartbeat: the same time, or nothing once it
-- is too old.
abbrev Agrees : ℕ → ℕ → Option ServerItem → Option ℕ → Type 0
Agrees timeout now (some s) b = b ≡ some s.start
Agrees timeout now none b = ¬ IsRecent timeout now b

is_alive-of_IsRecent :
    (timeout now : ℕ) (s : ServerItem)
    → IsRecent timeout now (some s.start)
    → is_alive timeout now s ≡ true
unfolding is_alive
is_alive-of_IsRecent timeout now s h = ground arith

IsRecent-of_is_alive :
    (timeout now : ℕ) (s : ServerItem)
    → is_alive timeout now s ≡ true
    → IsRecent timeout now (some s.start)
unfolding is_alive
IsRecent-of_is_alive timeout now s h = elim (ℕ_discrete timeout 0) [
  | yes e ↦ inl e
  | no e ↦ elim (dec_lt now (s.start + timeout)) [ yes l ↦ inr l | no l ↦ absurd (ground arith) ]
]

IsRecent-earlier :
    (timeout t now : ℕ) (b : Option ℕ) → t ≤ now → IsRecent timeout now b → IsRecent timeout t b
IsRecent-earlier timeout t now none le h = h
IsRecent-earlier timeout t now (some u) le (inl e) = inl e
IsRecent-earlier timeout t now (some u) le (inr l) = inr (omega arith)

Agrees-later :
    (timeout t now : ℕ) (o : Option ServerItem) (b : Option ℕ)
    → t ≤ now
    → Agrees timeout t o b
    → Agrees timeout now o b
Agrees-later timeout t now none b le h = λ r. h (IsRecent-earlier timeout t now b le r)
Agrees-later timeout t now (some s) b le h = h

-- A scan keeps the agreement.
swept-Agrees :
    (timeout now : ℕ) (o : Option ServerItem) (b : Option ℕ)
    → Agrees timeout now o b
    → Agrees timeout now (swept timeout now o o) b
swept-Agrees timeout now none b h = h
swept-Agrees timeout now (some s) b h = elim (Bool-cases (is_alive timeout now s)) [
  | inl e ↦ rw (e, Agrees, swept) h
  | inr e ↦ rw (e, Agrees, swept) (λ r. cc (is_alive-of_IsRecent timeout now s (rw h at r)))
]

abbrev Tracks : ℕ → ℕ → Registry → (Text → Option ℕ) → Type 0
Tracks timeout now r beat =
    (r.timeout ≡ timeout)
    × Table.IsUnique text_discrete r.servers
    × ((a : Text) → Agrees timeout now (Table.get text_discrete a r.servers) (beat a))

put_server-item :
    (now : ℕ) (addr : Text) (r : Registry)
    → (item : ServerItem) × (item.start ≡ now)
      × (put_server now addr r ≡ record r { servers = Table.put text_discrete addr item r.servers })
unfolding put_server
put_server-item now addr r = elim (Option-cases (Table.get text_discrete addr r.servers)) [
  | inl e ↦ (record { addr = addr; start = now }, refl, ground arith)
  | inr (s, e) ↦ (record s { start = now }, refl, ground arith)
]

put_server-Tracks :
    (timeout now : ℕ) (addr : Text) (r : Registry) (beat : Text → Option ℕ)
    → Tracks timeout now r beat
    → Tracks timeout now
        (put_server now addr r)
        (λ a. ite (text_discrete addr a) (some now) (beat a))
put_server-Tracks timeout now addr r beat (t, u, h) =
    let (item, s, e) = put_server-item now addr r in
    rw e (
      t,
      Table.put-IsUnique text_discrete addr item r.servers u,
      λ a. rw (get-put text_discrete a addr item r.servers) (elim (text_discrete addr a) [
        | yes q ↦ rw (if_pos _ q) (rw (if_pos _ q) (rw s refl))
        | no q ↦ rw (if_neg _ q) (rw (if_neg _ q) (h a))
      ]),
    )

alive_servers-Tracks :
    (timeout now : ℕ) (r : Registry) (beat : Text → Option ℕ)
    → Tracks timeout now r beat
    → Tracks timeout now (alive_servers now r).0 beat
unfolding alive_servers
alive_servers-Tracks timeout now r beat (t, u, h) = (
  t,
  scan-IsUnique r.timeout now r.servers [] r.servers u,
  λ a.
      rw (get-scan r.timeout now a r.servers [] r.servers u)
        (rw t (swept-Agrees timeout now (Table.get text_discrete a r.servers) (beat a) (h a))),
)

Tracks-ext :
    (timeout now : ℕ) (r : Registry) (beat beat' : Text → Option ℕ)
    → ((a : Text) → beat' a ≡ beat a)
    → Tracks timeout now r beat
    → Tracks timeout now r beat'
Tracks-ext timeout now r beat beat' e (t, u, h) = (t, u, λ a. rw (e a) (h a))

-- The registry, and what was heard, after a POST.
module _ (now : ℕ) (w : Text) (r : Registry) where
  post_ignored : w ≡ [] → (serve_http now (record { method = post_method; server = w }) r).0 ≡ r
  unfolding serve_http
  post_ignored e = ground arith

  post_recorded :
      ¬ (w ≡ [])
      → (serve_http now (record { method = post_method; server = w }) r).0 ≡ put_server now w r
  unfolding serve_http
  post_recorded e = ground arith

serve_http-Tracks :
    (timeout now : ℕ) (m : Method) (w : Text) (r : Registry) (beat : Text → Option ℕ)
    → Tracks timeout now r beat
    → Tracks timeout now
        (serve_http now (record { method = m; server = w }) r).0
        (λ a. heard a now (record { method = m; server = w }) (beat a))
unfolding serve_http
serve_http-Tracks timeout now get_method w r beat h = alive_servers-Tracks timeout now r beat h
serve_http-Tracks timeout now post_method w r beat h = elim (text_discrete w []) [
  | yes e ↦ rw (post_ignored now w r e) (
      Tracks-ext timeout now r beat _
        (λ a. if_pos (text_discrete w []) e (beat a) (ite (text_discrete w a) (some now) (beat a)))
        h)
  | no e ↦ rw (post_recorded now w r e) (
      Tracks-ext timeout now (put_server now w r) (λ a. ite (text_discrete w a) (some now) (beat a))
        _
        (λ a. if_neg (text_discrete w []) e (beat a) (ite (text_discrete w a) (some now) (beat a)))
        (put_server-Tracks timeout now w r beat h))
]
serve_http-Tracks timeout now (other_method o) w r beat h = h

run-Tracks :
    (timeout now : ℕ) (h : History)
    → IsOrdered now h
    → Tracks timeout now (run timeout h) (λ a. last_beat a h)
unfolding new Table.get
run-Tracks timeout now [] o = (refl, tt, λ a r. r)
run-Tracks timeout now ((t, req) ∷ h) (le, o) =
    let (e, u, k) =
      serve_http-Tracks timeout t req.method req.server (run timeout h) (λ a. last_beat a h)
        (run-Tracks timeout t h o) in
    (
      e,
      u,
      λ a.
          Agrees-later timeout t now
            (Table.get text_discrete a (run timeout ((t, req) ∷ h)).servers)
            (last_beat a ((t, req) ∷ h)) le (k a),
    )

Agrees-some :
    (timeout now : ℕ) (o : Option ServerItem) (s : ServerItem) (b : Option ℕ)
    → o ≡ some s
    → Agrees timeout now o b
    → b ≡ some s.start
Agrees-some timeout now none s b e h = absurd (none-ne-some e)
Agrees-some timeout now (some u) s b e h = cc (eq_of_some e)

Agrees-alive :
    (timeout now : ℕ) {limit : ℕ} (o : Option ServerItem) (b : Option ℕ)
    → limit ≡ timeout
    → Agrees timeout now o b
    → IsRecent timeout now b
    → (s : ServerItem) × (o ≡ some s) × (is_alive limit now s ≡ true)
Agrees-alive timeout now none b e h q = absurd (h q)
Agrees-alive timeout now (some s) b e h q =
    (s, refl, rw e (is_alive-of_IsRecent timeout now s (rw h at q)))

-- After a history of requests in the order of their times, aliveServers lists an address exactly if
-- its last heartbeat is recent: the timeout is zero, or has not passed since.
pub alive_servers-IsRecent :
    (timeout now : ℕ) (h : History) (a : Text)
    → IsOrdered now h
    → Has a (alive_servers now (run timeout h)).1 ↔ IsRecent timeout now (last_beat a h)
unfolding alive_servers
alive_servers-IsRecent timeout now h a o =
    let (e, u, k) = run-Tracks timeout now h o in
    (
      λ m.
          elim (Has-of_scan (run timeout h).timeout now a (run timeout h).servers []
            (run timeout h).servers u (Has-of_sort_strings a _ m)) [
              | inl p ↦ elim p [ ]
              | inr (s, g, l) ↦
                  rw (Agrees-some timeout now _ s (last_beat a h) g (k a))
                    (IsRecent-of_is_alive timeout now s (rw e at l))
            ],
      λ q. Has-sort_strings a _ (
          Has-scan (run timeout h).timeout now a (run timeout h).servers [] (run timeout h).servers
            (inr (Agrees-alive timeout now _ (last_beat a h) e (k a) q))),
    )
