-- ===== src/Base/Search.antt =====
-- `sort.Search` and `sort.Ints` of Go's standard library, which the consistent hash ring and the
-- B+tree node call: the binary search for the first index at which a monotone test holds, and the
-- sorted rearrangement of a slice.
use Prim.Native.Nat.{ℕ, zero, suc, ◌+◌, ◌/◌, ◌≤◌, ◌<◌}
use mathlib.Core.Path.{◌≡◌, refl, subst, sym}
use mathlib.Core.Bool.{Bool, true, false}
use mathlib.Core.Logic.{ite, if_pos, if_neg, inl, inr}
use mathlib.Core.List.{List, [], ◌∷◌}
use mathlib.Core.Option.{some}
use native.Mathlib.Omega.{arith}
use native.Mathlib.Decide.{dec_le}
use days_golang_master.Base.Outcome.{Bool-cases, eq_of_some, none-ne-some}
use days_golang_master.Base.Lists.{All, length, Has, All-Has, get_elem?, get_elem?-Has}

-- for i < j { h := (i + j) / 2; if !f(h) { i = h + 1 } else { j = h } }; the rounds are at most
-- the width of the interval.
search_from : ℕ → (ℕ → Bool) → ℕ → ℕ → ℕ
search_from zero f i j = i
search_from (suc rounds) f i j = elim (dec_le j i) [
  | yes _ ↦ i
  | no _ ↦ elim (f ((i + j) / 2)) [
    | true ↦ search_from rounds f i ((i + j) / 2)
    | false ↦ search_from rounds f ((i + j) / 2 + 1) j
  ]
]

unfoldable pub search : ℕ → (ℕ → Bool) → ℕ
unfolding search_from dec_le
search n f = search_from n f 0 n

-- The test stays true once it is true.
abbrev pub IsMonotone : ℕ → (ℕ → Bool) → Type 0
IsMonotone n f = (a b : ℕ) → a ≤ b → b < n → f a ≡ true → f b ≡ true

-- `r` is the least index below `n` at which the test holds, and `n` if there is none.
abbrev pub IsFirst : ℕ → (ℕ → Bool) → ℕ → Type 0
IsFirst n f r = (r ≤ n) × ((m : ℕ) → m < r → f m ≡ false) × ((m : ℕ) → r ≤ m → m < n → f m ≡ true)

module _ (rounds : ℕ) (f : ℕ → Bool) (i j : ℕ) where
  search_from_stop : j ≤ i → search_from (suc rounds) f i j ≡ i
  unfolding search_from
  search_from_stop h = ground arith

  search_from_left :
      ¬ (j ≤ i)
      → f ((i + j) / 2) ≡ true
      → search_from (suc rounds) f i j ≡ search_from rounds f i ((i + j) / 2)
  unfolding search_from
  search_from_left h e = ground arith

  search_from_right :
      ¬ (j ≤ i)
      → f ((i + j) / 2) ≡ false
      → search_from (suc rounds) f i j ≡ search_from rounds f ((i + j) / 2 + 1) j
  unfolding search_from
  search_from_right h e = ground arith

true-ne-false : {b : Bool} → b ≡ true → b ≡ false → ⊥
true-ne-false p q = cc

search_from-IsFirst :
    (rounds : ℕ) (f : ℕ → Bool) (n i j : ℕ)
    → IsMonotone n f
    → j ≤ i + rounds
    → i ≤ j
    → j ≤ n
    → ((m : ℕ) → m < i → f m ≡ false)
    → ((m : ℕ) → j ≤ m → m < n → f m ≡ true)
    → IsFirst n f (search_from rounds f i j)
unfolding search_from
search_from-IsFirst zero f n i j mono w le top below above =
    (omega arith, below, λ m h k. above m (omega arith) k)
search_from-IsFirst (suc rounds) f n i j mono w le top below above = elim (dec_le j i) [
  | yes p ↦
      subst (IsFirst n f) (sym (search_from_stop rounds f i j p))
        (omega arith, below, λ m h k. above m (omega arith) k)
  | no p ↦
      let mid : ℕ = (i + j) / 2 in
      elim (Bool-cases (f mid)) [
        | inl e ↦ subst (IsFirst n f) (sym (search_from_left rounds f i j p e)) (
            search_from-IsFirst rounds f n i mid mono (omega arith) (omega arith) (omega arith)
              below (λ m h k. mono mid m h k e))
        | inr e ↦ subst (IsFirst n f) (sym (search_from_right rounds f i j p e)) (
            search_from-IsFirst rounds f n (mid + 1) j mono (omega arith) (omega arith) top
              (λ m h. elim (Bool-cases (f m)) [
                | inl t ↦ absurd (true-ne-false (mono m mid (omega arith) (omega arith) t) e)
                | inr t ↦ t
              ])
              above)
      ]
]

-- On a monotone test the binary search finds the first index at which it holds.
pub search-IsFirst : (n : ℕ) (f : ℕ → Bool) → IsMonotone n f → IsFirst n f (search n f)
unfolding search
search-IsFirst n f mono =
    search_from-IsFirst n f n 0 n mono (omega arith) (omega arith) (omega arith)
      (λ m h. absurd (omega arith)) (λ m h k. absurd (omega arith))

-- sort.Ints: the result is determined by the contents, so any sort will do.
insert_sorted : ℕ → List ℕ → List ℕ
insert_sorted x [] = x ∷ []
insert_sorted x (y ∷ ys) = let rest = insert_sorted x ys in ite (dec_le x y) (x ∷ y ∷ ys) (y ∷ rest)

unfoldable pub sort_ints : List ℕ → List ℕ
unfolding insert_sorted dec_le
sort_ints [] = []
sort_ints (x ∷ xs) = insert_sorted x (sort_ints xs)

abbrev pub IsSorted : List ℕ → Type 0
IsSorted [] = Unit
IsSorted (x ∷ xs) = All (λ y. x ≤ y) xs × IsSorted xs

All-le_trans : {x y : ℕ} (zs : List ℕ) → x ≤ y → All (λ z. y ≤ z) zs → All (λ z. x ≤ z) zs
All-le_trans [] h k = tt
All-le_trans (z ∷ zs) h (p, k) = (omega arith, All-le_trans zs h k)

All-insert_sorted {ℓ} :
    (P : ℕ → Type ℓ) (x : ℕ) (ys : List ℕ) → P x → All P ys → All P (insert_sorted x ys)
unfolding insert_sorted
All-insert_sorted P x [] p h = (p, tt)
All-insert_sorted P x (y ∷ ys) p (q, h) = elim (dec_le x y) [
  | yes le ↦ rw (if_pos _ le) (p, (q, h))
  | no gt ↦ rw (if_neg _ gt) (q, All-insert_sorted P x ys p h)
]

insert_sorted-IsSorted : (x : ℕ) (ys : List ℕ) → IsSorted ys → IsSorted (insert_sorted x ys)
unfolding insert_sorted
insert_sorted-IsSorted x [] h = (tt, tt)
insert_sorted-IsSorted x (y ∷ ys) (le, h) = elim (dec_le x y) [
  | yes p ↦ rw (if_pos _ p) ((p, All-le_trans ys p le), (le, h))
  | no p ↦
      rw (if_neg _ p)
        (All-insert_sorted (λ z. y ≤ z) x ys (omega arith) le, insert_sorted-IsSorted x ys h)
]

pub sort_ints-IsSorted : (xs : List ℕ) → IsSorted (sort_ints xs)
unfolding sort_ints
sort_ints-IsSorted [] = tt
sort_ints-IsSorted (x ∷ xs) = insert_sorted-IsSorted x (sort_ints xs) (sort_ints-IsSorted xs)

-- Sorting keeps what holds of every element.
pub All-sort_ints {ℓ} : (P : ℕ → Type ℓ) (xs : List ℕ) → All P xs → All P (sort_ints xs)
unfolding sort_ints
All-sort_ints P [] h = tt
All-sort_ints P (x ∷ xs) (p, h) = All-insert_sorted P x (sort_ints xs) p (All-sort_ints P xs h)

length-insert_sorted : (x : ℕ) (ys : List ℕ) → length (insert_sorted x ys) ≡ suc (length ys)
unfolding insert_sorted
length-insert_sorted x [] = refl
length-insert_sorted x (y ∷ ys) = ground (arith, length-insert_sorted x ys)

pub length-sort_ints : (xs : List ℕ) → length (sort_ints xs) ≡ length xs
unfolding sort_ints
length-sort_ints [] = refl
length-sort_ints (x ∷ xs) =
    omega (arith, length-insert_sorted x (sort_ints xs), length-sort_ints xs)

-- A slice and its sorted rearrangement have the same members.
Has-of_insert_sorted : (z x : ℕ) (ys : List ℕ) → Has z (insert_sorted x ys) → Has z (x ∷ ys)
unfolding insert_sorted
Has-of_insert_sorted z x [] h = h
Has-of_insert_sorted z x (y ∷ ys) h = elim (dec_le x y) [
  | yes p ↦ rw (if_pos _ p) at h
  | no p ↦ elim (rw (if_neg _ p) at h) [
    | inl e ↦ inr (inl e)
    | inr m ↦ elim (Has-of_insert_sorted z x ys m) [ inl e ↦ inl e | inr q ↦ inr (inr q) ]
  ]
]

Has-insert_sorted : (z x : ℕ) (ys : List ℕ) → Has z (x ∷ ys) → Has z (insert_sorted x ys)
unfolding insert_sorted
Has-insert_sorted z x [] h = h
Has-insert_sorted z x (y ∷ ys) h = elim (dec_le x y) [
  | yes p ↦ rw (if_pos _ p) h
  | no p ↦ rw (if_neg _ p) (elim h [
    | inl e ↦ inr (Has-insert_sorted z x ys (inl e))
    | inr (inl e) ↦ inl e
    | inr (inr m) ↦ inr (Has-insert_sorted z x ys (inr m))
  ])
]

pub Has-of_sort_ints : (z : ℕ) (xs : List ℕ) → Has z (sort_ints xs) → Has z xs
unfolding sort_ints
Has-of_sort_ints z [] h = h
Has-of_sort_ints z (x ∷ xs) h = elim (Has-of_insert_sorted z x (sort_ints xs) h) [
  | inl e ↦ inl e
  | inr m ↦ inr (Has-of_sort_ints z xs m)
]

pub Has-sort_ints : (z : ℕ) (xs : List ℕ) → Has z xs → Has z (sort_ints xs)
unfolding sort_ints
Has-sort_ints z [] h = h
Has-sort_ints z (x ∷ xs) (inl e) = Has-insert_sorted z x (sort_ints xs) (inl e)
Has-sort_ints z (x ∷ xs) (inr m) = Has-insert_sorted z x (sort_ints xs) (inr (Has-sort_ints z xs m))

-- In a sorted slice a later element is not smaller.
pub IsSorted-le :
    (xs : List ℕ) (i j a b : ℕ)
    → IsSorted xs
    → i ≤ j
    → get_elem? xs i ≡ some a
    → get_elem? xs j ≡ some b
    → a ≤ b
IsSorted-le [] i j a b s le p q = absurd (none-ne-some p)
IsSorted-le (x ∷ xs) zero zero a b s le p q = omega (arith, eq_of_some p, eq_of_some q)
IsSorted-le (x ∷ xs) zero (suc j) a b s le p q =
    subst (λ y. y ≤ b) (eq_of_some p) (All-Has (λ y. x ≤ y) b xs s.0 (get_elem?-Has b xs j q))
IsSorted-le (x ∷ xs) (suc i) zero a b s le p q = absurd (omega arith)
IsSorted-le (x ∷ xs) (suc i) (suc j) a b s le p q = IsSorted-le xs i j a b s.1 (omega arith) p q
