-- ===== src/Base/Compare.antt =====
-- bytes.Compare of Go, the lexicographic order of byte slices, a strict total order, and
-- sort.Strings, which sorts by it.
use Prim.Native.Nat.{compare, Ordering}
use days_golang_master.Base.{◌≡◌, refl, Text, List, [], ◌∷◌, arith, inl, inr, Has, subst, sym, ◌⊎◌}

unfoldable pub compare_bytes : Text → Text → Ordering
compare_bytes [] [] = Ordering.eq
compare_bytes [] (y ∷ ys) = Ordering.lt
compare_bytes (x ∷ xs) [] = Ordering.gt
compare_bytes (x ∷ xs) (y ∷ ys) = elim (compare x y) [
  | Ordering.lt ↦ Ordering.lt
  | Ordering.eq ↦ compare_bytes xs ys
  | Ordering.gt ↦ Ordering.gt
]

-- a comes before b
abbrev pub Before : Text → Text → Type 0
Before a b = compare_bytes a b ≡ Ordering.lt

pub compare_bytes_refl : (a : Text) → compare_bytes a a ≡ Ordering.eq
unfolding compare_bytes
compare_bytes_refl [] = refl
compare_bytes_refl (x ∷ a) = ground (arith, compare_bytes_refl a)

pub eq_of_compare_bytes : (a b : Text) → compare_bytes a b ≡ Ordering.eq → a ≡ b
unfolding compare_bytes
eq_of_compare_bytes [] [] h = refl
eq_of_compare_bytes [] (y ∷ b) h = cc
eq_of_compare_bytes (x ∷ a) [] h = cc
eq_of_compare_bytes (x ∷ a) (y ∷ b) h = ground (arith, eq_of_compare_bytes a b)

pub Before-irrefl : (a : Text) → ¬ Before a a
Before-irrefl a h = cc (compare_bytes_refl a)

pub Before-trans : (a b c : Text) → Before a b → Before b c → Before a c
unfolding compare_bytes
Before-trans [] [] c h k = cc
Before-trans [] (y ∷ b) [] h k = cc
Before-trans [] (y ∷ b) (z ∷ c) h k = refl
Before-trans (x ∷ a) [] c h k = cc
Before-trans (x ∷ a) (y ∷ b) [] h k = cc
Before-trans (x ∷ a) (y ∷ b) (z ∷ c) h k = ground (arith, Before-trans a b c)

-- What does not come before is equal or comes after.
pub Before-of_gt : (a b : Text) → compare_bytes a b ≡ Ordering.gt → Before b a
unfolding compare_bytes
Before-of_gt [] [] h = cc
Before-of_gt [] (y ∷ b) h = cc
Before-of_gt (x ∷ a) [] h = refl
Before-of_gt (x ∷ a) (y ∷ b) h = ground (arith, Before-of_gt a b)

insert_sorted : Text → List Text → List Text
insert_sorted x [] = x ∷ []
insert_sorted x (y ∷ ys) =
    let rest = insert_sorted x ys in
    elim (compare_bytes x y) [
      | Ordering.lt ↦ x ∷ y ∷ ys
      | Ordering.eq ↦ x ∷ y ∷ ys
      | Ordering.gt ↦ y ∷ rest
    ]

-- sort.Strings
unfoldable pub sort_strings : List Text → List Text
unfolding insert_sorted compare_bytes
sort_strings [] = []
sort_strings (x ∷ xs) = insert_sorted x (sort_strings xs)

Ordering-cases : (o : Ordering) → (o ≡ Ordering.gt) ⊎ ((o ≡ Ordering.lt) ⊎ (o ≡ Ordering.eq))
Ordering-cases Ordering.gt = inl refl
Ordering-cases Ordering.lt = inr (inl refl)
Ordering-cases Ordering.eq = inr (inr refl)

-- The new string comes first, or behind the first one.
insert_sorted-cases :
    (x y : Text) (ys : List Text)
    → (insert_sorted x (y ∷ ys) ≡ x ∷ y ∷ ys) ⊎ (insert_sorted x (y ∷ ys) ≡ y ∷ insert_sorted x ys)
unfolding insert_sorted
insert_sorted-cases x y ys = elim (Ordering-cases (compare_bytes x y)) [
  | inl e ↦ inr (ground arith)
  | inr (inl e) ↦ inl (ground arith)
  | inr (inr e) ↦ inl (ground arith)
]

Has-of_insert_sorted : (z x : Text) (ys : List Text) → Has z (insert_sorted x ys) → Has z (x ∷ ys)
unfolding insert_sorted
Has-of_insert_sorted z x [] h = h
Has-of_insert_sorted z x (y ∷ ys) h = elim (insert_sorted-cases x y ys) [
  | inl e ↦ subst (Has z) e h
  | inr e ↦ elim (subst (Has z) e h) [
    | inl p ↦ inr (inl p)
    | inr m ↦ elim (Has-of_insert_sorted z x ys m) [ inl p ↦ inl p | inr q ↦ inr (inr q) ]
  ]
]

Has-insert_sorted : (z x : Text) (ys : List Text) → Has z (x ∷ ys) → Has z (insert_sorted x ys)
unfolding insert_sorted
Has-insert_sorted z x [] h = h
Has-insert_sorted z x (y ∷ ys) h = elim (insert_sorted-cases x y ys) [
  | inl e ↦ subst (Has z) (sym e) h
  | inr e ↦ subst (Has z) (sym e) (elim h [
    | inl p ↦ inr (Has-insert_sorted z x ys (inl p))
    | inr (inl p) ↦ inl p
    | inr (inr m) ↦ inr (Has-insert_sorted z x ys (inr m))
  ])
]

pub Has-of_sort_strings : (z : Text) (xs : List Text) → Has z (sort_strings xs) → Has z xs
unfolding sort_strings
Has-of_sort_strings z [] h = h
Has-of_sort_strings z (x ∷ xs) h = elim (Has-of_insert_sorted z x (sort_strings xs) h) [
  | inl e ↦ inl e
  | inr m ↦ inr (Has-of_sort_strings z xs m)
]

pub Has-sort_strings : (z : Text) (xs : List Text) → Has z xs → Has z (sort_strings xs)
unfolding sort_strings
Has-sort_strings z [] h = h
Has-sort_strings z (x ∷ xs) (inl e) = Has-insert_sorted z x (sort_strings xs) (inl e)
Has-sort_strings z (x ∷ xs) (inr m) =
    Has-insert_sorted z x (sort_strings xs) (inr (Has-sort_strings z xs m))
