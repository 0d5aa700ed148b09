-- ===== src/GeeCache/ConsistentHash.antt =====
-- gee-cache/day7-proto-buf/geecache/consistenthash/consistenthash.go: the hash ring that assigns keys
-- to nodes. `keys` is the sorted ring of virtual nodes and `hash_map` gives the node of a point.
-- The hash function is the one that the caller of New passes, or `checksum`, the CRC of the
-- standard library, which stays a parameter; its values are non-negative, since a uint32 fits an int.
pub mod Successor
pub mod Moves
mod Tests
use days_golang_master.Base.{
  ℕ, zero, suc, ◌+◌, ◌/◌, ◌%◌, Text, Option, none, some, List, [], ◌∷◌, ◌++◌, Run, done, panic,
  deref, ◌>>=◌, length, get_elem?, ite, Bool, true, false, dec_lt, dec_le, ℕ_discrete,
}
use days_golang_master.Base.Search
use days_golang_master.Base.Table
use days_golang_master.Base.Table.{Table}

pub record Ring : Type 0 where
  pub hash : Text → ℕ
  pub replicas : ℕ
  pub keys : List ℕ
  pub hash_map : Table ℕ Text

-- New: a nil hash function means the checksum
unfoldable pub new : (Text → ℕ) → ℕ → Option (Text → ℕ) → Ring
new checksum replicas fn = record {
  hash = elim fn [ none ↦ checksum | some f ↦ f ];
  replicas = replicas;
  keys = [];
  hash_map = [];
}

-- strconv.Itoa for numbers that are not negative: decimal digits, with as many rounds as digits
-- can need.
itoa_from : ℕ → ℕ → Text → Text
itoa_from zero n acc = acc
itoa_from (suc rounds) n acc = elim (dec_lt n 10) [
  | yes _ ↦ (b'0' + n) ∷ acc
  | no _ ↦ itoa_from rounds (n / 10) ((b'0' + n % 10) ∷ acc)
]

unfoldable pub itoa : ℕ → Text
unfolding itoa_from dec_lt
itoa n = itoa_from (suc n) n []

-- hash([]byte(strconv.Itoa(i) + key))
unfoldable pub point : Ring → Text → ℕ → ℕ
point m key i = m.hash (itoa i ++ key)

-- the inner loop of Add, with `left` replicas to go: i = replicas - left
unfoldable pub add_replicas : ℕ → ℕ → Text → Ring → Ring
add_replicas zero i key m = m
add_replicas (suc left) i key m = add_replicas left (suc i) key (record m {
  keys = m.keys ++ point m key i ∷ [];
  hash_map = Table.put ℕ_discrete (point m key i) key m.hash_map;
})

-- the outer loop of Add
unfoldable pub add_nodes : List Text → Ring → Ring
add_nodes [] m = m
add_nodes (key ∷ rest) m = add_nodes rest (add_replicas m.replicas 0 key m)

unfoldable pub add : List Text → Ring → Ring
add nodes m = let m' = add_nodes nodes m in record m' { keys = Search.sort_ints m'.keys }

-- m.keys[i] >= hash
unfoldable pub at_or_after : List ℕ → ℕ → ℕ → Bool
at_or_after keys hash i = elim (get_elem? keys i) [
  | none ↦ false
  | some k ↦ ite (dec_le hash k) true false
]

-- m.hashMap[k], which is "" for a missing point
abbrev pub owner : Table ℕ Text → ℕ → Text
owner t k = elim (Table.get ℕ_discrete k t) [ none ↦ [] | some node ↦ node ]

unfoldable pub get : Text → Ring → Run Text
get key m = ite (ℕ_discrete (length m.keys) 0) (done []) (do
  let i = Search.search (length m.keys) (at_or_after m.keys (m.hash key))
  p ← deref (get_elem? m.keys (i % length m.keys))
  done (owner m.hash_map p))
