-- ===== src/GeeBolt/Node/Tests.antt =====
-- A node with three pairs, and inputs for the theorems.
use days_golang_master.Base.{
  ◌≡◌, refl, Text, codes, text_discrete, none, some, [], ◌∷◌, ite, true, ℕ_discrete, dec_le,
}
use days_golang_master.Base.Search
use days_golang_master.GeeBolt.Node.{Kv, Node, not_before, is_exact, index, write_at, put, del}
use days_golang_master.Base.Compare.{compare_bytes}
use days_golang_master.GeeBolt.Node.Ordered.{IsOrdered, find}
use days_golang_master.GeeBolt.Node.Refine.{put-find, del-find}

abbrev pair : Text → Text → Kv
pair k v = record { key = k; value = v }

abbrev three : Node
three = record {
  is_leaf = true;
  key = codes "a";
  kvs =
      pair (codes "a") (codes "1")
      ∷ pair (codes "c") (codes "3")
      ∷ pair (codes "ca") (codes "4")
      ∷ [];
}

program : Unit {0}
unfolding put del index write_at is_exact not_before compare_bytes find Search.search text_discrete
    ℕ_discrete dec_le
program = tt

put_new :
    (put (codes "b") (codes "b") (codes "2") three).kvs
    ≡ pair (codes "a") (codes "1")
      ∷ pair (codes "b") (codes "2")
      ∷ pair (codes "c") (codes "3")
      ∷ pair (codes "ca") (codes "4")
      ∷ []
unfolding program
put_new = refl

del_old :
    (del (codes "c") three).kvs ≡ pair (codes "a") (codes "1") ∷ pair (codes "ca") (codes "4") ∷ []
unfolding program
del_old = refl

three-IsOrdered : IsOrdered three.kvs
unfolding program
three-IsOrdered = ((refl, (refl, tt)), ((refl, tt), (tt, tt)))

put-find_example :
    IsOrdered (put (codes "b") (codes "b") (codes "2") three).kvs
    × (find (codes "c") (put (codes "b") (codes "b") (codes "2") three).kvs
        ≡ ite
            (text_discrete (codes "b") (codes "c"))
            (some (codes "2"))
            (find (codes "c") three.kvs))
put-find_example = put-find three three-IsOrdered (codes "b") (codes "2") (codes "c")

del-find_example :
    IsOrdered (del (codes "c") three).kvs
    × (find (codes "c") (del (codes "c") three).kvs
        ≡ ite (text_discrete (codes "c") (codes "c")) none (find (codes "c") three.kvs))
del-find_example = del-find three three-IsOrdered (codes "c") (codes "c")
