-- ===== src/GeeCache/ConsistentHash/Tests.antt =====
-- The ring of consistenthash_test.go: the hash of a key is the number that it spells.
use days_golang_master.Base.{
  ℕ, ◌+◌, ◌-◌, ◌*◌, ◌<◌, ◌≡◌, refl, ◌⊎◌, Text, codes, none, List, [], ◌∷◌, ◌++◌, arith, length,
  done, Has, ℕ_discrete, dec_lt, dec_le,
}
use days_golang_master.Base.Search
use days_golang_master.Base.Table
use days_golang_master.GeeCache.ConsistentHash.{
  Ring, new, itoa, point, add_replicas, add_nodes, add, at_or_after, owner, get,
}
use days_golang_master.GeeCache.ConsistentHash.Successor.{IsSuccessor, get-IsSuccessor}
use days_golang_master.GeeCache.ConsistentHash.Moves.{
  IsValid, new-IsValid, add-IsValid, get-Has, get-add_moves, length-add,
}

atoi_from : ℕ → Text → ℕ
atoi_from acc [] = acc
atoi_from acc (c ∷ s) = atoi_from (acc * 10 + (c - b'0')) s

abbrev atoi : Text → ℕ
atoi s = atoi_from 0 s

abbrev empty : Ring
empty = new atoi 3 none

abbrev nodes : List Text
nodes = codes "6" ∷ codes "4" ∷ codes "2" ∷ []

abbrev ring : Ring
ring = add nodes empty

program : Unit {0}
unfolding atoi_from new itoa point add_replicas add_nodes add at_or_after get Search.search
    Search.sort_ints Table.get Table.put ℕ_discrete dec_lt dec_le
program = tt

ring_points : ring.keys ≡ 2 ∷ 4 ∷ 6 ∷ 12 ∷ 14 ∷ 16 ∷ 22 ∷ 24 ∷ 26 ∷ []
unfolding program
ring_points = refl

ring_gets :
    (get (codes "2") ring ≡ done (codes "2"))
    × (get (codes "11") ring ≡ done (codes "2"))
    × (get (codes "23") ring ≡ done (codes "4"))
    × (get (codes "27") ring ≡ done (codes "2"))
    × (get (codes "27") (add (codes "8" ∷ []) ring) ≡ done (codes "8"))
unfolding program
ring_gets = (refl, refl, refl, refl, refl)

get-empty : get (codes "2") empty ≡ done []
unfolding program
get-empty = refl

some_point : 0 < length ring.keys
unfolding program
some_point = omega arith

ring-IsValid : IsValid (nodes ++ []) ring
ring-IsValid = add-IsValid [] nodes empty (new-IsValid atoi 3 none)

get-IsSuccessor_example :
    (p : ℕ) × IsSuccessor (ring.hash (codes "11")) ring.keys p
    × (get (codes "11") ring ≡ done (owner ring.hash_map p))
get-IsSuccessor_example = get-IsSuccessor (codes "11") ring ring-IsValid.sorted some_point

get-Has_example : (node : Text) × (get (codes "27") ring ≡ done node) × Has node (nodes ++ [])
get-Has_example = get-Has (nodes ++ []) (codes "27") ring ring-IsValid some_point

get-add_moves_example :
    (before after : Text) × (get (codes "27") ring ≡ done before)
    × (get (codes "27") (add (codes "8" ∷ []) ring) ≡ done after)
    × ((after ≡ before) ⊎ Has after (codes "8" ∷ []))
get-add_moves_example =
    get-add_moves (nodes ++ []) (codes "8" ∷ []) (codes "27") ring ring-IsValid some_point

length-add_example : length ring.keys ≡ length empty.keys + empty.replicas * length nodes
length-add_example = length-add nodes empty
