-- ===== src/GeeCache/Lru.antt =====
-- gee-cache/day7-proto-buf/geecache/lru/lru.go: the least-recently-used cache, as a list of elements
-- (`ll`, the most recent at the front) and a map from a key to the element that holds it.
--
-- An element of `container/list` is a pointer: `addr` stands for its address, the map holds the
-- address, and `MoveToFront` finds the element by it. Both byte counts are int64 words.
pub mod Elements
pub mod Valid
pub mod Evict
pub mod Adding
mod Tests
use days_golang_master.Base.{
  ℕ, zero, suc, ◌+◌, Text, text_discrete, Option, none, some, List, [], ◌∷◌, ◌++◌, Run, done, panic,
  spin, ◌>>=◌, deref, length, word, add64, sub64, lt64, ite, Bool, true, false, ℕ_discrete,
}
use days_golang_master.Base.Table
use days_golang_master.Base.Table.{Table}

pub record Entry (V : Type 0) : Type 0 where
  pub key : Text
  pub value : V

-- *list.Element
pub record Element (V : Type 0) : Type 0 where
  pub addr : ℕ
  pub item : Entry V

pub record Cache (V : Type 0) : Type 0 where
  pub max_bytes : ℕ
  pub nbytes : ℕ
  pub ll : List (Element V)
  pub cache : Table Text ℕ
  -- the address of the next allocation
  pub fresh : ℕ
  -- OnEvicted != nil
  pub on_evicted : Bool
  -- the calls of OnEvicted, the latest first
  pub purged : List (Entry V)

-- The element at an address, and the list without it.
unfoldable pub take_out :
    {V : Type 0} → ℕ → List (Element V) → Option (Element V × List (Element V))
take_out a [] = none
take_out a (e ∷ l) =
    let rest = take_out a l in
    ite (ℕ_discrete e.addr a) (some (e, l))
      (elim rest [ none ↦ none | some (x, r) ↦ some (x, e ∷ r) ])

-- ll.Back() and ll.Remove of it: the last element, and the list without it.
unfoldable pub take_back {ℓ} : {A : Type ℓ} → List A → Option (A × List A)
take_back [] = none
take_back (e ∷ l) = elim (take_back l) [ none ↦ some (e, []) | some (x, r) ↦ some (x, e ∷ r) ]

unfoldable pub new : {V : Type 0} → ℕ → Bool → Cache V
new max_bytes on_evicted = record {
  max_bytes = max_bytes;
  nbytes = 0;
  ll = [];
  cache = [];
  fresh = 0;
  on_evicted = on_evicted;
  purged = [];
}

-- `size` is Value.Len()
module _ {V : Type 0} (size : V → ℕ) where
  -- int64(len(key)) + int64(value.Len())
  abbrev pub cost : Entry V → ℕ
  cost e = word (length e.key) + word (size e.value)

  unfoldable pub remove_oldest : Cache V → Cache V
  remove_oldest c = elim (take_back c.ll) [
    | none ↦ c
    | some (ele, rest) ↦ record c {
      ll = rest;
      cache = Table.delete text_discrete ele.item.key c.cache;
      nbytes = sub64 c.nbytes (cost ele.item);
      purged = elim c.on_evicted [ true ↦ ele.item ∷ c.purged | false ↦ c.purged ];
    }
  ]

  -- c.maxBytes != 0 && c.maxBytes < c.nbytes
  unfoldable pub is_over : Cache V → Bool
  is_over c = ite (ℕ_discrete c.max_bytes 0) false (ite (lt64 c.max_bytes c.nbytes) true false)

  -- the loop of Add, with the rounds that it is given
  unfoldable pub evict : ℕ → Cache V → Run (Cache V)
  evict zero c = spin
  evict (suc rounds) c = elim (is_over c) [ true ↦ evict rounds (remove_oldest c) | false ↦ done c ]

  -- the `if` of Add: the entry is moved to the front and rewritten, or pushed
  unfoldable pub store : Text → V → Cache V → Run (Cache V)
  store key value c = elim (Table.get text_discrete key c.cache) [
    | some a ↦ do
      (ele, rest) ← deref (take_out a c.ll)
      done (record c {
        ll = record ele { item = record { key = ele.item.key; value = value } } ∷ rest;
        nbytes = add64 c.nbytes (sub64 (word (size value)) (size ele.item.value));
      })
    | none ↦ done (record c {
      ll = record { addr = c.fresh; item = record { key = key; value = value } } ∷ c.ll;
      cache = Table.put text_discrete key c.fresh c.cache;
      nbytes = add64 c.nbytes (cost (record { key = key; value = value }));
      fresh = suc c.fresh;
    })
  ]

  unfoldable pub add : ℕ → Text → V → Cache V → Run (Cache V)
  add rounds key value c = do c' ← store key value c; evict rounds c'

-- a hit moves the element to the front
unfoldable pub get : {V : Type 0} → Text → Cache V → Run (Cache V × Option V)
get key c = elim (Table.get text_discrete key c.cache) [
  | some a ↦ do
    (ele, rest) ← deref (take_out a c.ll)
    done (record c { ll = ele ∷ rest }, some ele.item.value)
  | none ↦ done (c, none)
]

unfoldable pub len : {V : Type 0} → Cache V → ℕ
len c = length c.ll
