-- ===== src/GeeCache/Group.antt =====
-- gee-cache/day7-proto-buf/geecache/geecache.go, cache.go, byteview.go and peers.go: a group of the
-- cache, which answers from its memory, from the peer that owns the key, or from its getter.
--
-- The getter, the choice of a peer and what a peer answers are parameters. A view is its bytes; it is
-- never changed, so that the copies of cloneBytes are the bytes themselves. The steps are those of
-- one caller; what the single flight does for several is in SingleFlight.
pub mod Transparent
mod Tests
use days_golang_master.Base.{
  ℕ, suc, Text, text_discrete, Option, none, some, List, [], ◌∷◌, Run, done, panic, spin, ◌>>=◌,
  length, ite, false,
}
use days_golang_master.Base.Table
use days_golang_master.Base.Table.{Table}
use days_golang_master.GeeCache.Lru
use days_golang_master.GeeCache.Lru.{Cache}

abbrev pub ByteView : Type 0
ByteView = Text

unfoldable pub len : ByteView → ℕ
len v = length v

-- The pair (ByteView, error): one of the two.
pub data Got : Type 0 where
  got : ByteView → Got
  key_required : Got
  failed : ℕ → Got

-- cache: the lru is made by the first add.
pub record MainCache : Type 0 where
  pub lru : Option (Cache ByteView)
  pub cache_bytes : ℕ

-- The lru that add uses.
abbrev pub lru_of : MainCache → Cache ByteView
lru_of c = elim c.lru [ none ↦ Lru.new c.cache_bytes false | some l ↦ l ]

-- add, with enough rounds for the loop of the lru
unfoldable pub add : Text → ByteView → MainCache → Run MainCache
add key value c = do
  l ← Lru.add len (suc (suc (suc (length (lru_of c).ll)))) key value (lru_of c)
  done (record c { lru = some l })

unfoldable pub get : Text → MainCache → Run (MainCache × Option ByteView)
get key c = elim c.lru [
  | none ↦ done (c, none)
  | some l ↦ do (l', v) ← Lru.get key l; done (record c { lru = some l' }, v)
]

-- PeerPicker and PeerGetter: the peer of a key, if it is another, and its answer for a group and a
-- key.
pub record Peers : Type 1 where
  pub Peer : Type 0
  pub pick_peer : Text → Option Peer
  pub peer_get : Peer → Text → Text → Got

pub record Group : Type 1 where
  pub name : Text
  pub getter : Text → Got
  pub main_cache : MainCache
  pub peers : Option Peers

-- NewGroup: a nil getter panics.
unfoldable pub new_group : Text → ℕ → Option (Text → Got) → Run Group
new_group name cache_bytes none = panic
new_group name cache_bytes (some getter) = done (record {
  name = name;
  getter = getter;
  main_cache = record { lru = none; cache_bytes = cache_bytes };
  peers = none;
})

-- RegisterPeers panics when it is called again.
unfoldable pub register_peers : Peers → Group → Run Group
register_peers p g = elim g.peers [ none ↦ done (record g { peers = some p }) | some _ ↦ panic ]

unfoldable pub populate_cache : Text → ByteView → Group → Run Group
populate_cache key value g = do c ← add key value g.main_cache; done (record g { main_cache = c })

unfoldable pub get_locally : Text → Group → Run (Group × Got)
get_locally key g = elim (g.getter key) [
  | got bytes ↦ do g' ← populate_cache key bytes g; done (g', got bytes)
  | key_required ↦ done (g, key_required)
  | failed e ↦ done (g, failed e)
]

unfoldable pub get_from_peer : (p : Peers) → p.Peer → Text → Group → Got
get_from_peer p peer key g = p.peer_get peer g.name key

-- The function that load passes to the single flight: the peer first, then the getter.
unfoldable pub load : Text → Group → Run (Group × Got)
load key g = elim g.peers [
  | none ↦ get_locally key g
  | some p ↦ elim (p.pick_peer key) [
    | none ↦ get_locally key g
    | some peer ↦ elim (get_from_peer p peer key g) [
      | got value ↦ done (g, got value)
      | key_required ↦ get_locally key g
      | failed _ ↦ get_locally key g
    ]
  ]
]

-- Get
unfoldable pub get_view : Text → Group → Run (Group × Got)
get_view key g = ite (text_discrete key []) (done (g, key_required)) (do
  (c, v) ← get key g.main_cache
  let g' = record g { main_cache = c } in
      elim v [ some view ↦ done (g', got view) | none ↦ load key g' ])
