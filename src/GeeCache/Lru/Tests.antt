-- ===== src/GeeCache/Lru/Tests.antt =====
-- The cache of lru.go on concrete keys and values: a run of lru_test.go, and inputs for the theorems.
use days_golang_master.Base.{
  ℕ, ◌^◌, ◌-◌, ◌≡◌, refl, inr, Text, codes, text_discrete, Option, some, List, [], ◌∷◌, arith,
  length, done, spin, true, ℕ_discrete, add64, sub64, dec_lt,
}
use days_golang_master.Base.Table
use days_golang_master.GeeCache.Lru.{
  Entry, Cache, take_out, take_back, new, remove_oldest, is_over, evict, store, add, get,
}
use days_golang_master.GeeCache.Lru.Elements.{address_of, without}
use days_golang_master.GeeCache.Lru.Valid.{IsValid, get_lem, GetResult}
use days_golang_master.GeeCache.Lru.Adding.{Added, add-Added, get-add, add-spin}

abbrev size : Text → ℕ
size v = length v

-- One entry of five bytes in a cache of eight.
abbrev one : Cache Text
one = record {
  max_bytes = 8;
  nbytes = 5;
  ll = record { addr = 0; item = record { key = codes "k1"; value = codes "abc" } } ∷ [];
  cache = (codes "k1", 0) ∷ [];
  fresh = 1;
  on_evicted = true;
  purged = [];
}

program : Unit {0}
unfolding add store evict is_over remove_oldest take_back take_out get new Table.get Table.put
    Table.delete text_discrete ℕ_discrete dec_lt add64 sub64
program = tt

-- The second entry pushes the first one out, and the callback sees it.
add_evicts :
    add size 3 (codes "k2") (codes "xyz") one
    ≡ done (record one {
      ll = record { addr = 1; item = record { key = codes "k2"; value = codes "xyz" } } ∷ [];
      cache = (codes "k2", 1) ∷ [];
      fresh = 2;
      purged = record { key = codes "k1"; value = codes "abc" } ∷ [];
    })
unfolding program
add_evicts = refl

one-IsValid : IsValid size one
unfolding address_of Table.get
one-IsValid = record {
  index = λ k. refl;
  unique = (refl, tt, tt);
  below = (omega arith, tt);
  bytes = refl;
}

add-Added_example :
    (c' : Cache Text) × (dropped : List (Entry Text)) × (add size 3 (codes "k2") (codes "xyz") one
      ≡ done c')
    × Added size (codes "k2") (codes "xyz") one c' dropped
unfolding without text_discrete
add-Added_example =
    add-Added size 3 (codes "k2") (codes "xyz") one one-IsValid (omega arith) (omega arith)
      (omega arith)

get-add_example :
    (c' c'' : Cache Text) × (add size 3 (codes "k2") (codes "xyz") one ≡ done c')
    × (get (codes "k2") c' ≡ done (c'', some (codes "xyz")))
unfolding without text_discrete
get-add_example =
    get-add size 3 (codes "k2") (codes "xyz") one one-IsValid (omega arith) (omega arith)
      (omega arith) (inr (omega arith))

get_lem_example :
    (c' : Cache Text) × (r : Option Text) × (get (codes "k1") one ≡ done (c', r))
    × GetResult size (codes "k1") one c' r
get_lem_example = get_lem size (codes "k1") one one-IsValid

-- max_bytes = -1
abbrev negative : Cache Text
negative = record one { max_bytes = 2 ^ 64 - 1 }

add-spin_example : add size 1000 (codes "k2") (codes "xyz") negative ≡ spin
unfolding without text_discrete address_of Table.get
add-spin_example =
    add-spin size 1000 (codes "k2") (codes "xyz") negative
      (record {
        index = λ k. refl;
        unique = (refl, tt, tt);
        below = (omega arith, tt);
        bytes = refl;
      })
      (omega arith) (omega arith) (omega arith)
