-- ===== src/GeeRpc/Discovery/Refreshed.antt =====
-- What gee-rpc/day7-registry/xclient/discovery_gee.go reads from the header that
-- gee-rpc/day7-registry/registry/registry.go writes.
use days_golang_master.Base.{
  ℕ, ◌+◌, ◌≤◌, ◌<◌, ◌≡◌, ◌≢◌, ◌↔◌, refl, sym, ap, ◌∙◌, Text, codes, text_discrete, some, none, List,
  [], ◌∷◌, ◌++◌, arith, All, Has, split, join, append-nil, append_assoc,
}
use days_golang_master.Base.Splitting.{split-join}
use days_golang_master.GeeRpc.Discovery.{
  trim_left, reverse, trim_space, keep_servers, GeeDiscovery, refresh, update, Answer, answered,
}
use days_golang_master.GeeRpc.Registry.{Registry, get_method, serve_http, alive_servers}
use days_golang_master.GeeRpc.Registry.Heartbeats.{
  History, IsOrdered, run, last_beat, IsRecent, alive_servers-IsRecent,
}

-- What http.Get of the registry answers at `t`: the header of the response, empty if it is missing.
abbrev pub registry_answer : ℕ → Registry → Answer Text
registry_answer t r = elim (serve_http t (record { method = get_method; server = [] }) r).1.header [
  | none ↦ answered []
  | some header ↦ answered header
]

-- An address that survives the header: it is not empty and has no white space and no comma.
abbrev pub IsAddress : Text → Type 0
IsAddress t = (t ≢ []) × All (λ b. (32 < b) × (b ≢ 44)) t

-- No white space, nothing to trim.
trim_left-same : (t : Text) → All (λ b. 32 < b) t → trim_left t ≡ t
unfolding trim_left
trim_left-same [] h = refl
trim_left-same (b ∷ t) (n, h) = ground arith

reverse-append : (t a b : Text) → reverse t (a ++ b) ≡ reverse t a ++ b
unfolding reverse
reverse-append [] a b = refl
reverse-append (x ∷ t) a b = reverse-append t (x ∷ a) b

reverse-reverse : (t a : Text) → reverse (reverse t a) [] ≡ reverse a t
unfolding reverse
reverse-reverse [] a = refl
reverse-reverse (x ∷ t) a = reverse-reverse t (x ∷ a)

reverse-All {ℓ} : (P : ℕ → Type ℓ) (t a : Text) → All P t → All P a → All P (reverse t a)
unfolding reverse
reverse-All P [] a h k = k
reverse-All P (x ∷ t) a (p, h) k = reverse-All P t (x ∷ a) h (p, k)

trim_space-same : (t : Text) → All (λ b. 32 < b) t → trim_space t ≡ t
unfolding trim_space reverse
trim_space-same t h = rw (trim_left-same t h) (
    rw (trim_left-same (reverse t []) (reverse-All (λ b. 32 < b) t [] h tt)) (reverse-reverse t []))

All-weaken {ℓ κ} :
    {P : ℕ → Type ℓ} {Q : ℕ → Type κ} → ((b : ℕ) → P b → Q b) → (t : Text) → All P t → All Q t
All-weaken f [] h = tt
All-weaken f (b ∷ t) (p, h) = (f b p, All-weaken f t h)

keep_servers-kept :
    (t : Text) (ts acc : List Text)
    → t ≢ []
    → trim_space t ≡ t
    → keep_servers (t ∷ ts) acc ≡ keep_servers ts (acc ++ t ∷ [])
unfolding keep_servers
keep_servers-kept t ts acc n e = ground arith

keep_servers-same : (ts acc : List Text) → All IsAddress ts → keep_servers ts acc ≡ acc ++ ts
unfolding keep_servers
keep_servers-same [] acc h = sym (append-nil acc)
keep_servers-same (t ∷ ts) acc ((n, w), h) =
    keep_servers-kept t ts acc n (trim_space-same t (All-weaken (λ b p. p.0) t w))
    ∙ (keep_servers-same ts (acc ++ t ∷ []) h ∙ append_assoc acc (t ∷ []) ts)

no_commas : (ts : List Text) → All IsAddress ts → All (λ u. All (λ b. b ≢ 44) u) ts
no_commas [] h = tt
no_commas (t ∷ ts) ((n, w), h) = (All-weaken (λ b p. p.1) t w, no_commas ts h)

-- The list that was joined with commas is what the loop of Refresh keeps, if it has addresses only;
-- also where it is empty.
pub keep_servers-join :
    (ts : List Text) → All IsAddress ts → keep_servers (split 44 (join (codes ",") ts)) [] ≡ ts
unfolding join split keep_servers trim_space trim_left reverse text_discrete
keep_servers-join [] h = refl
keep_servers-join (t ∷ ts) h =
    ap (λ l. keep_servers l []) (split-join 44 t ts (no_commas (t ∷ ts) h))
    ∙ keep_servers-same (t ∷ ts) [] h

registry_answer_lem :
    (t : ℕ) (r : Registry) → registry_answer t r ≡ answered (join (codes ",") (alive_servers t r).1)
unfolding serve_http
registry_answer_lem t r = refl

refresh-servers :
    (now : ℕ) (header : Text) (d : GeeDiscovery)
    → d.last_update + d.timeout ≤ now
    → (refresh now (answered header) d).0.multi.servers ≡ keep_servers (split 44 header) []
unfolding refresh update
refresh-servers now header d stale = ground arith

-- A Refresh that asks the registry, after a history of requests that leaves only addresses alive,
-- has exactly the servers whose last heartbeat is recent.
pub refresh-IsRecent :
    (timeout t now : ℕ) (h : History) (d : GeeDiscovery) (a : Text)
    → IsOrdered t h
    → All IsAddress (alive_servers t (run timeout h)).1
    → d.last_update + d.timeout ≤ now
    → Has a (refresh now (registry_answer t (run timeout h)) d).0.multi.servers
      ↔ IsRecent timeout t (last_beat a h)
refresh-IsRecent timeout t now h d a o w stale = rw (registry_answer_lem t (run timeout h)) (
    rw (refresh-servers now (join (codes ",") (alive_servers t (run timeout h)).1) d stale) (
      rw (keep_servers-join (alive_servers t (run timeout h)).1 w)
        (alive_servers-IsRecent timeout t h a o)))
