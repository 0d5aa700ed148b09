-- ===== src/GeeBolt/Node.antt =====
-- gee-bolt/day3-tree/node.go: a node of the B+tree, whose pairs `kvs` are sorted by key.
pub mod Ordered
pub mod Refine
mod Tests
use Prim.Native.Nat.{Ordering}
use days_golang_master.Base.{
  ℕ, zero, suc, ◌+◌, ◌<◌, Text, text_discrete, Option, none, some, List, [], ◌∷◌, ◌++◌, length,
  get_elem?, take, drop, ite, Bool, true, false, dec_lt, ◌&&◌, if◌then◌else◌,
}
use days_golang_master.Base.Search
use days_golang_master.Base.Compare.{compare_bytes}

pub record Kv : Type 0 where
  pub key : Text
  pub value : Text

-- The children and the parent are pointers that the methods below leave alone.
pub record Node : Type 0 where
  pub is_leaf : Bool
  pub key : Text
  pub kvs : List Kv

-- bytes.Compare(kvs[i].key, key) != -1
unfoldable pub not_before : List Kv → Text → ℕ → Bool
not_before kvs key i = elim (get_elem? kvs i) [
  | none ↦ false
  | some e ↦ elim (compare_bytes e.key key) [ Ordering.lt ↦ false | _ ↦ true ]
]

-- index < len(n.kvs) && bytes.Equal(n.kvs[index].key, key)
unfoldable pub is_exact : List Kv → Text → ℕ → Bool
is_exact kvs key i = elim (get_elem? kvs i) [
  | none ↦ false
  | some e ↦ ite (text_discrete e.key key) true false
]

unfoldable pub index : Node → Text → ℕ × Bool
index n key =
    let i = Search.search (length n.kvs) (not_before n.kvs key) in (i, is_exact n.kvs key i)

-- A slot is opened at the index, unless the key is there, and written.
unfoldable pub write_at : List Kv → ℕ → Bool → Kv → List Kv
write_at kvs i exact e = take i kvs ++ (e ∷ (if exact then drop (suc i) kvs else drop i kvs))

unfoldable pub put : Text → Text → Text → Node → Node
put old_key new_key value n =
    let (i, exact) = index n old_key in
    record n { kvs = write_at n.kvs i exact (record { key = new_key; value = value }) }

unfoldable pub del : Text → Node → Node
del key n =
    let (i, exact) = index n key in
    if exact then record n { kvs = take i n.kvs ++ drop (suc i) n.kvs } else n
